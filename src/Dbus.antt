-- ===== src/Dbus.antt =====
-- src/core/DBusConnectionHandle.cpp, src/core/DBusEventLoop.cpp and src/core/ScopedGError.h: the calls of
-- GDBus by which the daemon connects, takes its name, and registers its handlers. `Calls` has what
-- GDBus does, `Connection` and `Registrations` the operations, `Start` what they come to, `Life` the end.
-- `Messages` has the handles of src/core/DBusMessageHandle.cpp, and `Unref` what becomes of messages.
pub mod Calls
pub mod Connection
pub mod Registrations
pub mod Start
pub mod Life
pub mod Messages
pub mod Unref

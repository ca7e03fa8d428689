-- ===== src/Daemon.antt =====
-- src/core/Daemon.h and src/core/Daemon.cpp: the queue of actions between the D-Bus thread and the
-- thread that owns the lights. `Queue` has the queue and the main loop, `Handlers` the handlers that
-- the daemon registers with the service; `Order` says in which order the actions run.
pub mod Queue
pub mod Handlers
pub mod Order
pub mod Lights
pub mod Lock

-- ===== src/Logs.antt =====
-- src/core/Log.h and the three logs, src/core/ConsoleLog.cpp, src/core/NullLog.cpp and
-- src/core/SyslogLog.cpp. `Stamp` is the time in a line of the console, `Line` what `log` writes, and
-- `Digits` and `Written` what these come to.
pub mod Stamp
pub mod Digits
pub mod Line
pub mod Written

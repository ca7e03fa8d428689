-- ===== src/Main.antt =====
-- src/main.cpp: the signal handler around the run of the daemon. `Signals` has its definitions,
-- `Restore` what they leave behind; `Process` is `main` step by step, `Points` and `Alive` what holds on
-- its way, and `Ending` its end after a signal.
pub mod Signals
pub mod Restore
pub mod Process
pub mod Points
pub mod Alive
pub mod Ending

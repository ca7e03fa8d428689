-- ===== src/EventLoop.antt =====
-- src/core/EventLoop.h, src/core/EventLoop.cpp: the loop that runs callbacks on its own thread.
-- `Loop` has the object and its operations, `Steps` what its thread and its clients do, `Accounts` that
-- no promise is lost or set twice, `Drain` the order of the callbacks; `Cancellation` has the source of
-- `schedule_with_cancellation_in`, and `Cancelled` what becomes of it. `Name` has the name of the thread.
pub mod Loop
pub mod Steps
pub mod Promises
pub mod Accounts
pub mod Life
pub mod Stop
pub mod Late
pub mod Drain
pub mod Waits
pub mod Cancellation
pub mod Cancelled
pub mod Name

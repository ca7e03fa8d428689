-- ===== src/ConnectionWatcher.antt =====
-- src/core/ConnectionWatcher.h and src/core/ConnectionWatcher.cpp: the radios as connman reports them.
-- `Watcher` has the definitions, `Radios` and `Reports` what they do to the lights; `Subscriptions` has
-- those of the watcher's subscriptions, and `Watching` what becomes of these.
pub mod Watcher
pub mod Radios
pub mod Reports
pub mod Subscriptions
pub mod Watching

-- ===== src/Configuration.antt =====
-- src/core/DaemonConfig.cpp and the constructor of src/core/Daemon.cpp: the objects of the program,
-- which are made once and shared. `Config` has the getters, `Sharing` who shares what.
pub mod Config
pub mod Extends
pub mod Getters
pub mod Sharing

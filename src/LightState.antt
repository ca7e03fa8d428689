-- ===== src/LightState.antt =====
-- src/core/LightState.h and src/core/LightState.cpp: the lights of the device, and the program that
-- the AW9120 controller runs to show them. The definitions are in `Steps`, `State`, `Device`,
-- `Update` and `Handlers`, in the order of the source; the proofs are in the modules below them.
pub mod Steps
pub mod State
pub mod Device
pub mod Update
pub mod Handlers
pub mod Program
pub mod Text
pub mod Race

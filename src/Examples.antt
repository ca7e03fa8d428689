-- ===== src/Examples.antt =====
-- Runs of the model at concrete inputs: tests of the definitions, and uses of the theorems.
mod Lights
mod Service
mod Queue
mod Race
mod Radios
mod Whole
mod Registrations
mod Configured
mod Loop
mod Text
mod Torch
mod Teardown
mod Ended
mod Signals
mod Bus
mod Messages
mod Named
mod Logged
mod Process
mod Cancelled
mod Hosted
mod Interface

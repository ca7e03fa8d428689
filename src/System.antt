-- ===== src/System.antt =====
-- The running daemon: the service of src/core/LEDs.cpp with the handlers of src/core/Daemon.cpp, the
-- lights, and the watcher of src/core/ConnectionWatcher.cpp. `Steps` is the step relation, `Fits` and
-- `Invariant` say what holds in every state that it reaches, `Torch` is about the timeouts, and `Hosted`
-- puts these into the event loop of the service. `Panel` is what the daemon promises, `Settled` and
-- `Behaves` relate the two, `Shows` goes on to the controller, and `Settles` and `TorchOff` say how the
-- daemon comes to rest. `Room` is about the number of steps.
pub mod Steps
pub mod Fits
pub mod Invariant
pub mod Torch
pub mod Hosted
pub mod Panel
pub mod Settled
pub mod Behaves
pub mod Settles
pub mod TorchOff
pub mod Shows
pub mod Room

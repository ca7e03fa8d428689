-- ===== src/LightState/Program.antt =====
-- What `LightState::Update` is to show, said without its writes: the instructions of the controller,
-- the word of each, and the program for a state. `Channel` is the wiring of the block of LEDs,
-- `Runs` shows that `Update` writes this program, and `Codec` that its words can be read back.
pub mod Channel
pub mod Wiring
pub mod Spec
pub mod Items
pub mod Runs
pub mod Shown
pub mod Observe
pub mod Status
pub mod Registers
pub mod Loop
pub mod Codec
pub mod Loaded
pub mod Room

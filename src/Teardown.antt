-- ===== src/Teardown.antt =====
-- The ends of the objects of src/core/LEDs.h and src/core/ConnectionWatcher.h, while the threads of their
-- event loops still run. `Objects` has the members in their order and what the loops call, `Order` what
-- such an order comes to, `Ends` the two objects.
pub mod Objects
pub mod Order
pub mod Ends

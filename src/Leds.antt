-- ===== src/Leds.antt =====
-- src/core/LEDs.h and src/core/LEDs.cpp: the D-Bus service org.thinkglobally.Gemian.LEDs.
-- `Request` has the replies and what GLib reads out of the parameters, `Service` the object
-- and its handler slots, `Method` the method call; the theorems are in the other modules.
pub mod Request
pub mod Service
pub mod Method
pub mod Requests
pub mod Ended
pub mod Interface

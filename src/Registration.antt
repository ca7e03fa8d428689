-- ===== src/Registration.antt =====
-- src/core/HandlerRegistration.h, src/core/HandlerRegistration.cpp: the objects that end a
-- registration. `Handle` has the objects and their operations, `Once` what becomes of the functions,
-- `Moves` what an assignment leaves behind.
pub mod Handle
pub mod Cells
pub mod Once
pub mod Moves

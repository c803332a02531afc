-- ===== src/Bind.antt =====
-- The package bind: the constructors of binders.
pub mod Params
pub mod Typed
pub mod Enums
pub mod Body

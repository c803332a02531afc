-- ===== src/Tests.antt =====
-- Tests on concrete inputs, and each theorem of the list at an input that meets its hypotheses.
mod Demo
mod Mappers
mod Routes
mod Configured
mod Binders
mod Apps
mod Documents
mod Schemas
mod Twins
mod Generated
mod Encoded
mod Starts
mod Basics

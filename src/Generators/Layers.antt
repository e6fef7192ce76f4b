-- ===== src/Generators/Layers.antt =====
-- scripts/create_*.py: the text of each file that a generator writes.
pub mod Entity
pub mod Model
pub mod Schema
pub mod Repository
pub mod Service
pub mod Route
pub mod Dependencies
pub mod Written

-- ===== src/Generators.antt =====
-- scripts/_boilerplate.py: the parts of the generators that edit what is there already. A file of
-- Python is the list of its lines.
pub mod Migration
pub mod Router
pub mod Init
pub mod Merging
pub mod Fields
pub mod Wiring
pub mod Parsing
pub mod Names
pub mod Layers
pub mod Imports
pub mod Pyproject
pub mod Files
pub mod Project

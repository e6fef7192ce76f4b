-- ===== src/Examples.antt =====
-- A small database and environment, and the theorems on them.
pub mod Data
pub mod Runs
pub mod Queue
pub mod Access
pub mod Redis
pub mod Http
pub mod Tools
pub mod Worker
pub mod Caching
pub mod Processes
pub mod Generators

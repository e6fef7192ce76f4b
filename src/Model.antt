-- ===== src/Model.antt =====
-- The rows that the database holds, and the entities that the repositories return.
mod UserRows
mod AuthRows
mod JobRows
pub use UserRows.*
pub use AuthRows.*
pub use JobRows.*

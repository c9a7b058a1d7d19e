-- ===== src/Schemas.antt =====
-- schemas.py: the enums and the records of the relation graph.
mod Json
mod Enums
mod Relation
mod Records
unfoldable pub use Json.*
pub use Enums.*
unfoldable pub use Relation.*
unfoldable pub use Records.*

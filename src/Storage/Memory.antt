-- ===== src/Storage/Memory.antt =====
-- storage/memory.py: the graph data of `MemoryRelationStore`. The two queues that it also keeps
-- are lists of their own, in Storage/Jobs and Storage/ReviewQueue.
pub mod Relations
pub mod Accounts
pub mod Clear
pub mod Import
use nesy_reasoning_mcp.Prelude.{ℕ, String, List, Dict}
use nesy_reasoning_mcp.Schemas.{
  RelationRecord, ExclusiveGroupRecord, IndependenceRecord, PropositionRecord, Fields,
}

pub record MemoryStore : Type 0 where
  pub relations : List RelationRecord
  pub exclusive_groups : List ExclusiveGroupRecord
  pub independence_records : List IndependenceRecord
  pub propositions : List PropositionRecord
  pub context_metadata : Dict String Fields

-- What `uuid4` and the clock give to the record at an index.
pub record Stamp : Type 0 where
  pub fresh : String
  pub now : String

abbrev pub Stamps : Type 0
Stamps = ℕ → Stamp

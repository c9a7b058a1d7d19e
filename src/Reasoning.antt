-- ===== src/Reasoning.antt =====
-- reasoning.py: the graph index, path search, classification and contradictions.
pub mod Networkx
pub mod Scope
pub mod Confidence
pub mod Index
pub mod Paths
pub mod Chain
pub mod Classification
pub mod Temporal
pub mod Exclusive
pub mod Negation
pub mod Tensions
pub mod Separated
pub mod Contradictions

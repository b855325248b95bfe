-- ===== src/Graphs.antt =====
-- src/graphs: hypergraphs, mappings, rules and the list of minimal graphs.
pub mod Hypergraph
pub mod Mapping
pub mod PathChecker
pub mod Gts
pub mod AnonRule
pub mod UqRule
pub mod MinGraphList

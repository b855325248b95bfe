-- ===== src/Engine.antt =====
-- src/rule_engine.
pub mod ExpEnumerator
pub mod MatchFinder

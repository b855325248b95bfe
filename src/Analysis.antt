-- ===== src/Analysis.antt =====
-- src/analysis: the backward search and the rule set that it works with.
pub mod Backward
pub mod UqInstances
pub mod PreparedGts

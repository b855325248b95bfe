-- ===== src/Basic.antt =====
-- src/basic_types.
pub mod Globals
pub mod IdPartition
pub mod IdPartitionEnumerator

-- ===== src/Process.antt =====
-- predicates/process: machines and what they own.
pub mod Partition

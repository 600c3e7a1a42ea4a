-- ===== src/Runtime.antt =====
-- predicates/runtime: the values of the virtual machine.
pub mod List

-- ===== src/Vm.antt =====
-- predicates/vm: the virtual machine.
pub mod RuleMatcher
pub mod Instr
pub mod Exec
pub mod Tuple

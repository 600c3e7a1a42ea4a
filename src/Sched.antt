-- ===== src/Sched.antt =====
-- predicates/sched: schedulers and what they share between machines.
pub mod Tokenizer

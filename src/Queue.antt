-- ===== src/Queue.antt =====
-- predicates/queue: the queues of the schedulers.
pub mod Bounded
pub mod Heap

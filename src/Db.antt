-- ===== src/Db.antt =====
-- predicates/db: the tuples that a node of the graph stores.
pub mod Aggregates
pub mod SimpleTuple
pub mod Trie

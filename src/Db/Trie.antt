-- ===== src/Db/Trie.antt =====
-- predicates/db/trie.cpp and trie.hpp: the trie that stores the tuples of a predicate. A node is a
-- leaf, or has its children in a list or in a hash table of lists. A parent pointer is the place of
-- the recursion, and a chain of siblings linked by `next` and `prev` is a list. `none` is a failed
-- assertion.
pub mod Ops
pub mod Siblings
pub mod Table
pub mod Rehash
pub mod Children
pub mod NewChild
pub mod OldChild
pub mod Paths
pub mod Branches
pub mod Insertion
pub mod Deletion
pub mod Tuples
pub mod Configurations
pub mod Fields
mod Tests
use meldtools.Common.{
  ℕ, zero, suc, ◌+◌, ◌-◌, ◌*◌, ◌%◌, ◌≡◌, Bool, true, false, Option, none, some, List, [], ◌∷◌, ltb,
  ◌==◌, if◌then◌else◌, ◌>>=◌,
}

-- What the switches on the type of a field do with the word of a trie_node: compare it and hash it.
-- `hash` is std::tr1::hash of the word. A `Shape` is the stack of types that remain below a node.
pub record Keys : Type 1 where
  pub Key : Type 0
  pub same : Key → Key → Bool
  pub same_refl : (k : Key) → same k k ≡ true
  pub same_eq : (k q : Key) → same k q ≡ true → k ≡ q
  pub hash : Key → ℕ
  pub Shape : Type 0
  pub final : Shape → Bool
  pub step : Shape → Key → Option Shape

-- TRIE_HASH_LIST_THRESHOLD, TRIE_HASH_BASE_BUCKETS and TRIE_HASH_MAX_NODES_PER_BUCKET
abbrev pub list_threshold : ℕ
list_threshold = 8

abbrev pub base_buckets : ℕ
base_buckets = 64

abbrev pub max_nodes_per_bucket : ℕ
max_nodes_per_bucket = 4

module _ (K : Keys) (L : Type 0) where
  open K use {Key, same, hash}

  mutual
    -- A node, less its own key. A root without a child is `listed nil`.
    pub data Node : Type 0 where
      leaf : L → Node
      listed : Chain → Node
      hashed : Buckets → ℕ → Node

    pub data Chain : Type 0 where
      nil : Chain
      child : Key → Node → Chain → Chain

    pub data Buckets : Type 0 where
      last : Buckets
      bucket : Chain → Buckets → Buckets

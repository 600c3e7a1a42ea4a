-- ===== src/Db/Trie/NewChild.antt =====
-- predicates/db/trie.cpp: trie_node::insert
use meldtools.Common.{
  ℕ, ◌+◌, ◌≤◌, ◌≡◌, refl, none, some, if◌then◌else◌, arith, Bool-cases, ◌∙◌, sym, inl, inr,
}
use meldtools.Db.Trie.{Keys, Node, leaf, listed, hashed, Chain, child, Buckets}
use meldtools.Db.Trie.Ops.{find, get, insert_hash, insert, match, scan_start}
use meldtools.Db.Trie.Siblings.{weigh, occ, is, occ-absent}
use meldtools.Db.Trie.Table.{all}
use meldtools.Db.Trie.Rehash.{
  num_buckets-insert_hash, weigh-insert_hash, occ-get-insert_hash, find-get-insert_hash,
}
use meldtools.Db.Trie.Children.{IsTable, IsTidy, children, find-all}

module _ (K : Keys) (L : Type 0) where
  open K use {Key, same, hash}

  fresh_once :
      (k q : Key) (c : Chain K L)
      → find K L k c ≡ none
      → occ K L q c ≤ 1
      → is K L q k + occ K L q c ≤ 1
  fresh_once k q c e h = elim (Bool-cases (same k q)) [
    | inl b ↦ rw (sym (K.same_eq k q b)) (ground (arith, occ-absent K L k c))
    | inr b ↦ rw b (omega arith)
  ]

  insert_hash-IsTable :
      (k : Key) (m : Node K L) (bs : Buckets K L) (total : ℕ)
      → IsTable K L bs total
      → find K L k (get K L k bs) ≡ none
      → IsTable K L (insert_hash K L k m bs) (total + 1)
  insert_hash-IsTable k m bs total t e = record {
    some_buckets = omega (arith, num_buckets-insert_hash K L k m bs, t.some_buckets);
    counted = omega (arith, t.counted, weigh-insert_hash K L (λ k. 1) k m bs t.some_buckets);
    once = λ q. omega (
      arith,
      weigh-insert_hash K L (is K L q) k m bs t.some_buckets,
      fresh_once k q (all K L bs) (sym (find-all K L bs k t.placed) ∙ e) (t.once q),
    );
    placed = λ q. omega (
      arith,
      t.placed q,
      weigh-insert_hash K L (is K L q) k m bs t.some_buckets,
      occ-get-insert_hash K L k q m bs t.some_buckets,
    );
  }

  -- A new child, whose key no other child has.
  pub insert_lem :
      (k : Key) (m n : Node K L)
      → IsTidy K L n
      → match K L k n ≡ none
      → (new : Node K L) × (insert K L k m n ≡ some new)
        × IsTidy K L new
        × (1 ≤ children K L new)
        × ((q : Key) → match K L q new ≡ (if same k q then some m else match K L q n))
  unfolding IsTidy insert children match scan_start find weigh
  insert_lem k m (leaf l) t e = absurd t
  insert_lem k m (listed c) t e =
      (listed (child k m c), refl, λ q. fresh_once k q c e (t q), omega arith, λ q. refl)
  insert_lem k m (hashed bs total) t e = (
    hashed (insert_hash K L k m bs) (total + 1),
    refl,
    insert_hash-IsTable k m bs total t e,
    omega (arith, weigh-insert_hash K L (λ k. 1) k m bs t.some_buckets),
    λ q. find-get-insert_hash K L k q m bs t.some_buckets,
  )

-- ===== src/Db/Trie/Children.antt =====
-- predicates/db/trie.cpp: the children of a node, in a list or in a table
use meldtools.Common.{
  ℕ, ◌*◌, ◌≤◌, ◌≡◌, refl, some, arith, Bool-cases, ◌∙◌, sym, inl, inr, subst, ltb,
}
use meldtools.Db.Trie.{
  Keys, Node, leaf, listed, hashed, list_threshold, base_buckets, max_nodes_per_bucket, Chain, nil,
  child, Buckets,
}
use meldtools.Db.Trie.Ops.{
  find, blank, num_buckets, hash_item, get, fill, expand, convert_hash, make_room, match,
  scan_start,
}
use meldtools.Db.Trie.Siblings.{weigh, occ, is, chain_length_lem, find-absent}
use meldtools.Db.Trie.Table.{
  all, IsPlaced, weigh-nth, num_buckets-blank, weigh-blank, nth-blank, find-nth,
}
use meldtools.Db.Trie.Rehash.{
  num_buckets-fill, weigh-fill, occ-get-fill, find-get-fill, refill-fill,
}

module _ (K : Keys) (L : Type 0) where
  open K use {Key, same, hash}

  pub record IsTable (bs : Buckets K L) (total : ℕ) : Type 0 where
    pub some_buckets : 1 ≤ num_buckets K L bs
    pub counted : weigh K L (λ k. 1) (all K L bs) ≡ total
    pub once : (q : Key) → occ K L q (all K L bs) ≤ 1
    pub placed : IsPlaced K L bs

  -- No two children of a node have the same key, and a table is in order.
  unfoldable pub IsTidy : Node K L → Type 0
  IsTidy (leaf l) = ⊥
  IsTidy (listed c) = (q : Key) → occ K L q c ≤ 1
  IsTidy (hashed bs total) = IsTable bs total

  -- How many children a node has.
  unfoldable pub children : Node K L → ℕ
  children (leaf l) = 0
  children (listed c) = weigh K L (λ k. 1) c
  children (hashed bs total) = weigh K L (λ k. 1) (all K L bs)

  get-blank : (n : ℕ) (q : Key) → get K L q (blank K L n) ≡ nil
  unfolding get
  get-blank n q = nth-blank K L n (hash_item K L (hash q) (blank K L n))

  occ-get-blank : (n : ℕ) (q : Key) → occ K L q (get K L q (blank K L n)) ≡ 0
  unfolding weigh
  occ-get-blank n q = rw (get-blank n q) refl

  get_le :
      (k : Key) (bs : Buckets K L)
      → weigh K L (λ k. 1) (get K L k bs) ≤ weigh K L (λ k. 1) (all K L bs)
  unfolding get
  get_le k bs = weigh-nth K L (λ k. 1) (hash_item K L (hash k) bs) bs

  sized :
      (k : Key) (c : Chain K L) (m : Node K L) → find K L k c ≡ some m → 1 ≤ weigh K L (λ k. 1) c
  unfolding find weigh
  sized k nil m e = absurd (ground arith)
  sized k (child q n c) m e = omega arith

  pub has_child : (k : Key) (n m : Node K L) → match K L k n ≡ some m → 1 ≤ children n
  unfolding match scan_start children find
  has_child k (leaf l) m e = absurd (ground arith)
  has_child k (listed c) m e = sized k c m e
  has_child k (hashed bs total) m e = omega (arith, sized k (get K L k bs) m e, get_le k bs)

  pub find-all :
      (bs : Buckets K L) (q : Key)
      → IsPlaced K L bs
      → find K L q (get K L q bs) ≡ find K L q (all K L bs)
  unfolding get
  find-all bs q p = find-nth K L q (hash_item K L (hash q) bs) bs (p q)

  -- What a chain becomes when its children are hashed into empty buckets.
  fill-blank-IsTable :
      (c : Chain K L) (n : ℕ)
      → 1 ≤ n
      → ((q : Key) → occ K L q c ≤ 1)
      → IsTable (fill K L c (blank K L n)) (weigh K L (λ k. 1) c)
  fill-blank-IsTable c n h once =
      let base : 1 ≤ num_buckets K L (blank K L n) = omega (arith, num_buckets-blank K L n) in
      record {
        some_buckets = omega (arith, base, num_buckets-fill K L c (blank K L n));
        counted =
            omega (arith, weigh-fill K L (λ k. 1) c (blank K L n) base, weigh-blank K L (λ k. 1) n);
        once = λ q. omega (
          arith,
          once q,
          weigh-fill K L (is K L q) c (blank K L n) base,
          weigh-blank K L (is K L q) n,
        );
        placed = λ q. omega (
          arith,
          weigh-fill K L (is K L q) c (blank K L n) base,
          weigh-blank K L (is K L q) n,
          occ-get-fill K L q c (blank K L n) base,
          occ-get-blank n q,
        );
      }

  find-get-fill-blank :
      (c : Chain K L) (n : ℕ) (q : Key)
      → 1 ≤ n
      → occ K L q c ≤ 1
      → find K L q (get K L q (fill K L c (blank K L n))) ≡ find K L q c
  find-get-fill-blank c n q h once =
      let base : 1 ≤ num_buckets K L (blank K L n) = omega (arith, num_buckets-blank K L n) in
      ground (
        arith,
        find-get-fill K L q c (blank K L n) base once,
        find-absent K L q c,
        find-absent K L q (get K L q (blank K L n)) (occ-get-blank n q),
      )

  convert_hash-IsTidy :
      (c : Chain K L) → ((q : Key) → occ K L q c ≤ 1) → IsTidy (convert_hash K L c)
  unfolding IsTidy convert_hash
  convert_hash-IsTidy c once =
      subst (λ t. IsTable (fill K L c (blank K L base_buckets)) t) (sym (chain_length_lem K L c))
        (fill-blank-IsTable c base_buckets (omega arith) once)

  expand-IsTable : (bs : Buckets K L) (total : ℕ) → IsTable bs total → IsTable (expand K L bs) total
  unfolding expand
  expand-IsTable bs total t = rw (refill-fill K L bs (blank K L (num_buckets K L bs * 2))) (
      subst (λ w. IsTable (fill K L (all K L bs) (blank K L (num_buckets K L bs * 2))) w) t.counted
        (fill-blank-IsTable (all K L bs) (num_buckets K L bs * 2) (omega (arith, t.some_buckets))
          t.once))

  -- The children stay in order.
  pub make_room-IsTidy : (seen : ℕ) (n : Node K L) → IsTidy n → IsTidy (make_room K L seen n)
  unfolding IsTidy make_room
  make_room-IsTidy seen (leaf l) t = t
  make_room-IsTidy seen (listed c) t = elim (Bool-cases (ltb list_threshold seen)) [
    | inl b ↦ rw b (convert_hash-IsTidy c t)
    | inr b ↦ rw b t
  ]
  make_room-IsTidy seen (hashed bs total) t = elim (Bool-cases (ltb max_nodes_per_bucket seen)) [
    | inl b ↦ rw b (expand-IsTable bs total t)
    | inr b ↦ rw b t
  ]

  pub match-listed : (c : Chain K L) (q : Key) → match K L q (listed c) ≡ find K L q c
  unfolding match scan_start
  match-listed c q = refl

  pub match-hashed :
      (bs : Buckets K L) (total : ℕ) (q : Key)
      → match K L q (hashed bs total) ≡ find K L q (get K L q bs)
  unfolding match scan_start
  match-hashed bs total q = refl

  pub match-convert_hash :
      (c : Chain K L) (q : Key) → occ K L q c ≤ 1 → match K L q (convert_hash K L c) ≡ find K L q c
  unfolding match scan_start convert_hash
  match-convert_hash c q once = find-get-fill-blank c base_buckets q (omega arith) once

  pub find-get-expand :
      (bs : Buckets K L) (total : ℕ) (q : Key)
      → IsTable bs total
      → find K L q (get K L q (expand K L bs)) ≡ find K L q (get K L q bs)
  unfolding expand
  find-get-expand bs total q t = rw (refill-fill K L bs (blank K L (num_buckets K L bs * 2))) (
      find-get-fill-blank (all K L bs) (num_buckets K L bs * 2) q (omega (arith, t.some_buckets))
        (t.once q)
      ∙ sym (find-all bs q t.placed))

  -- Hashing the children, or into twice the buckets, changes no answer of `match`, for a node whose
  -- children are in order.
  pub match-make_room :
      (seen : ℕ) (n : Node K L) (q : Key)
      → IsTidy n
      → match K L q (make_room K L seen n) ≡ match K L q n
  unfolding IsTidy make_room
  match-make_room seen (leaf l) q t = refl
  match-make_room seen (listed c) q t = elim (Bool-cases (ltb list_threshold seen)) [
    | inl b ↦ rw b (match-convert_hash c q (t q) ∙ sym (match-listed c q))
    | inr b ↦ rw b refl
  ]
  match-make_room seen (hashed bs total) q t = elim (Bool-cases (ltb max_nodes_per_bucket seen)) [
    | inl b ↦ rw b (
        match-hashed (expand K L bs) total q
        ∙ find-get-expand bs total q t
        ∙ sym (match-hashed bs total q))
    | inr b ↦ rw b refl
  ]

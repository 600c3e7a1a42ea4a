-- ===== src/Db/Trie/OldChild.antt =====
-- predicates/db/trie.cpp: a child that changes, and one that delete_path unlinks
use meldtools.Common.{
  ℕ, ◌+◌, ◌-◌, ◌≤◌, ◌≡◌, refl, false, Option, none, some, if◌then◌else◌, arith, Bool-cases, ◌∙◌, ap,
  inl, inr, ◌==◌, subst, ◌⊎◌,
}
use meldtools.Db.Trie.{Keys, Node, leaf, listed, hashed, Chain, nil, child, Buckets}
use meldtools.Db.Trie.Ops.{
  find, put, num_buckets, hash_item, get, set_child, drop_child, drop_listed, match, scan_start,
  unlink, replace,
}
use meldtools.Db.Trie.Siblings.{
  weigh, occ, is, find-absent, occ-present, two_keys, find-replace, find-unlink, weigh-replace,
  weigh-unlink,
}
use meldtools.Db.Trie.Table.{all, hash_item_lem, num_buckets-put, weigh-put}
use meldtools.Db.Trie.Rehash.{read-get-put}
use meldtools.Db.Trie.Children.{IsTable, IsTidy, children, find-all}

module _ (K : Keys) (L : Type 0) where
  open K use {Key, same, hash}

  -- The table after the chain of a key changed from `get k` to `d`.
  changed : Key → Chain K L → Buckets K L → Buckets K L
  changed k d bs = put K L (hash_item K L (hash k) bs) d bs

  weigh-changed :
      (w : Key → ℕ) (k : Key) (d : Chain K L) (bs : Buckets K L)
      → 1 ≤ num_buckets K L bs
      → weigh K L w (all K L (changed k d bs)) + weigh K L w (get K L k bs)
        ≡ weigh K L w d + weigh K L w (all K L bs)
  unfolding get changed
  weigh-changed w k d bs h =
      weigh-put K L w (hash_item K L (hash k) bs) d bs (hash_item_lem K L (hash k) bs h)

  changed-IsTable :
      (k : Key) (d : Chain K L) (bs : Buckets K L) (total : ℕ)
      → IsTable K L bs total
      → ((q : Key) → occ K L q d ≤ occ K L q (get K L k bs))
      → ((q : Key) → same k q ≡ false → occ K L q d ≡ occ K L q (get K L k bs))
      → IsTable K L (changed k d bs) (weigh K L (λ k. 1) (all K L (changed k d bs)))
  unfolding changed
  changed-IsTable k d bs total t fewer other = record {
    some_buckets =
        omega (arith, num_buckets-put K L (hash_item K L (hash k) bs) d bs, t.some_buckets);
    counted = refl;
    once = λ q. omega (arith, t.once q, fewer q, weigh-changed (is K L q) k d bs t.some_buckets);
    placed = λ q. elim (Bool-cases (same k q)) [
      | inl b ↦ ground (
        arith,
        b,
        read-get-put K L (occ K L) k q d bs t.some_buckets (other q),
        weigh-changed (is K L q) k d bs t.some_buckets,
        t.placed q,
        K.same_eq k q b,
      )
      | inr b ↦ ground (
        arith,
        b,
        read-get-put K L (occ K L) k q d bs t.some_buckets (other q),
        other q b,
        weigh-changed (is K L q) k d bs t.some_buckets,
        t.placed q,
      )
    ];
  }

  replace-occ :
      (q k : Key) (m : Node K L) (c : Chain K L) → occ K L q (replace K L k m c) ≡ occ K L q c
  replace-occ q k m c = weigh-replace K L (is K L q) k m c

  match-changed :
      (k q : Key) (d : Chain K L) (bs : Buckets K L) (r : Option (Node K L))
      → 1 ≤ num_buckets K L bs
      → ((x : Key) → find K L x d ≡ (if same k x then r else find K L x (get K L k bs)))
      → find K L q (get K L q (changed k d bs))
        ≡ (if same k q then r else find K L q (get K L q bs))
  unfolding changed
  match-changed k q d bs r h e =
      let read =
        read-get-put K L (find K L) k q d bs h
          (λ b. subst (λ t. find K L q d ≡ (if t then r else find K L q (get K L k bs))) b (e q)) in
      elim (Bool-cases (same k q)) [
        | inl b ↦ ground (arith, b, read, e q)
        | inr b ↦ ground (arith, b, read, e q)
      ]

  -- A child that changed below.
  pub set_child_lem :
      (k : Key) (m n o : Node K L)
      → IsTidy K L n
      → match K L k n ≡ some o
      → IsTidy K L (set_child K L k m n)
        × (children K L (set_child K L k m n) ≡ children K L n)
        × ((q : Key)
            → match K L q (set_child K L k m n) ≡ (if same k q then some m else match K L q n))
  unfolding IsTidy set_child children match scan_start changed
  set_child_lem k m (leaf l) o t e = absurd t
  set_child_lem k m (listed c) o t e = (
    λ q. omega (arith, t q, weigh-replace K L (is K L q) k m c),
    weigh-replace K L (λ k. 1) k m c,
    λ q. find-replace K L k q m c o e,
  )
  set_child_lem k m (hashed bs total) o t e =
      let d = replace K L k m (get K L k bs) in
      let size : weigh K L (λ k. 1) (all K L (changed k d bs)) ≡ weigh K L (λ k. 1) (all K L bs) =
        omega (
          arith,
          weigh-changed (λ k. 1) k d bs t.some_buckets,
          weigh-replace K L (λ k. 1) k m (get K L k bs),
        ) in
      (
        subst (λ w. IsTable K L (changed k d bs) w) (size ∙ t.counted)
            (changed-IsTable k d bs total t (λ q. omega (arith, replace-occ q k m (get K L k bs)))
              (λ q b. replace-occ q k m (get K L k bs))),
        size,
        λ q.
            match-changed k q d bs (some m) t.some_buckets
              (λ x. find-replace K L k x m (get K L k bs) o e),
      )

  drop_listed_lem :
      (c : Chain K L)
      → ((drop_listed K L c ≡ none) × (c ≡ nil))
        ⊎ ((drop_listed K L c ≡ some (listed c)) × (1 ≤ weigh K L (λ k. 1) c))
  unfolding drop_listed weigh
  drop_listed_lem nil = inl (refl, refl)
  drop_listed_lem (child k n c) = inr (refl, omega arith)

  -- What `drop_child` promises.
  unfoldable pub IsDropped : Key → Node K L → Option (Node K L) → Type 0
  IsDropped k n none = (q : Key) → same k q ≡ false → match K L q n ≡ none
  IsDropped k n (some new) =
      IsTidy K L new
      × (1 ≤ children K L new)
      × ((q : Key) → match K L q new ≡ (if same k q then none else match K L q n))

  drop_listed-IsDropped :
      (k : Key) (c : Chain K L) (o : Node K L)
      → ((q : Key) → occ K L q c ≤ 1)
      → find K L k c ≡ some o
      → IsDropped k (listed c) (drop_listed K L (unlink K L k c))
  unfolding IsDropped IsTidy children match scan_start find
  drop_listed-IsDropped k c o t e = elim (drop_listed_lem (unlink K L k c)) [
    | inl (gone, empty) ↦
        rw gone (λ q s. ground (arith, s, find-unlink K L k q c o e (t k), ap (find K L q) empty))
    | inr (left, size) ↦ rw left (
      λ q. omega (arith, t q, weigh-unlink K L (is K L q) k c o e),
      size,
      λ q. find-unlink K L k q c o e (t k),
    )
  ]

  drop_hashed-IsDropped :
      (k : Key) (bs : Buckets K L) (total : ℕ) (o : Node K L)
      → IsTable K L bs total
      → find K L k (get K L k bs) ≡ some o
      → IsDropped k (hashed bs total) (drop_child K L k (hashed bs total))
  unfolding IsDropped IsTidy children match scan_start drop_child changed
  drop_hashed-IsDropped k bs total o t e =
      let d = unlink K L k (get K L k bs) in
      let size : weigh K L (λ k. 1) (all K L (changed k d bs)) ≡ total - 1 = omega (
        arith,
        weigh-changed (λ k. 1) k d bs t.some_buckets,
        t.counted,
        weigh-unlink K L (λ k. 1) k (get K L k bs) o e,
      ) in
      let alone : (q : Key) → same k q ≡ false → total ≤ 1 → occ K L q (all K L bs) ≡ 0 = λ q s few.
        omega (
          arith,
          few,
          two_keys K L k q (all K L bs) s,
          t.counted,
          t.placed k,
          occ-present K L k (get K L k bs) o e,
        ) in
      elim (Bool-cases (total - 1 == 0)) [
        | inl b ↦ rw b (λ q s.
            find-all K L bs q t.placed ∙ find-absent K L q (all K L bs) (alone q s (ground arith)))
        | inr b ↦ rw b (
          subst (λ w. IsTable K L (changed k d bs) w) size
              (changed-IsTable k d bs total t
                (λ q. omega (arith, weigh-unlink K L (is K L q) k (get K L k bs) o e))
                (λ q s. ground (arith, s, weigh-unlink K L (is K L q) k (get K L k bs) o e))),
          ground (arith, size),
          λ q.
              match-changed k q d bs none t.some_buckets
                (λ x. find-unlink K L k x (get K L k bs) o e (omega (arith, t.placed k, t.once k))),
        )
      ]

  -- A child that is unlinked. There is no node left where it was the last one.
  pub drop_child-IsDropped :
      (k : Key) (n o : Node K L)
      → IsTidy K L n
      → match K L k n ≡ some o
      → IsDropped k n (drop_child K L k n)
  unfolding IsTidy match scan_start drop_child
  drop_child-IsDropped k (leaf l) o t e = absurd t
  drop_child-IsDropped k (listed c) o t e = drop_listed-IsDropped k c o t e
  drop_child-IsDropped k (hashed bs total) o t e = drop_hashed-IsDropped k bs total o t e

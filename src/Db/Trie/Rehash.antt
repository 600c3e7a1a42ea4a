-- ===== src/Db/Trie/Rehash.antt =====
-- predicates/db/trie.cpp: insert_int and its like, convert_hash and expand
use meldtools.Common.{
  ℕ, ◌+◌, ◌≤◌, ◌≡◌, refl, true, false, some, if◌then◌else◌, arith, Bool-cases, ◌∙◌, ap, inl, inr,
  ◌==◌,
}
use meldtools.Db.Trie.{Keys, Node, Chain, nil, child, Buckets, last, bucket}
use meldtools.Db.Trie.Ops.{find, put, num_buckets, hash_item, get, insert_hash, fill, refill}
use meldtools.Db.Trie.Siblings.{join, weigh, occ, is}
use meldtools.Db.Trie.Table.{all, hash_item_lem, num_buckets-put, nth-put, weigh-put}

module _ (K : Keys) (L : Type 0) where
  open K use {Key, same, hash}

  -- A write into the bucket of a key.
  pub get-put :
      (k q : Key) (c : Chain K L) (bs : Buckets K L)
      → 1 ≤ num_buckets K L bs
      → get K L q (put K L (hash_item K L (hash k) bs) c bs)
        ≡ (if hash_item K L (hash k) bs == hash_item K L (hash q) bs then c else get K L q bs)
  unfolding get hash_item
  get-put k q c bs h = rw (num_buckets-put K L (hash_item K L (hash k) bs) c bs) (
      nth-put K L (hash_item K L (hash k) bs) (hash_item K L (hash q) bs) c bs
        (hash_item_lem K L (hash k) bs h))

  pub num_buckets-insert_hash :
      (k : Key) (n : Node K L) (bs : Buckets K L)
      → num_buckets K L (insert_hash K L k n bs) ≡ num_buckets K L bs
  unfolding insert_hash
  num_buckets-insert_hash k n bs =
      num_buckets-put K L (hash_item K L (hash k) bs) (child k n (get K L k bs)) bs

  pub weigh-insert_hash :
      (w : Key → ℕ) (k : Key) (n : Node K L) (bs : Buckets K L)
      → 1 ≤ num_buckets K L bs
      → weigh K L w (all K L (insert_hash K L k n bs)) ≡ w k + weigh K L w (all K L bs)
  unfolding insert_hash get weigh
  weigh-insert_hash w k n bs h = omega (
    arith,
    weigh-put K L w (hash_item K L (hash k) bs) (child k n (get K L k bs)) bs
        (hash_item_lem K L (hash k) bs h),
  )

  get_same :
      (k q : Key) (bs : Buckets K L)
      → hash_item K L (hash k) bs ≡ hash_item K L (hash q) bs
      → get K L k bs ≡ get K L q bs
  unfolding get
  get_same k q bs e = rw e refl

  get-insert_hash :
      (k q : Key) (n : Node K L) (bs : Buckets K L)
      → 1 ≤ num_buckets K L bs
      → get K L q (insert_hash K L k n bs) ≡ (
          if hash_item K L (hash k) bs == hash_item K L (hash q) bs
          then child k n (get K L q bs)
          else get K L q bs)
  unfolding insert_hash
  get-insert_hash k q n bs h =
      elim (Bool-cases (hash_item K L (hash k) bs == hash_item K L (hash q) bs)) [
        | inl b ↦
            rw (get-put k q (child k n (get K L k bs)) bs h, b)
              (ap (child k n) (get_same k q bs (ground arith)))
        | inr b ↦ rw (get-put k q (child k n (get K L k bs)) bs h, b) refl
      ]

  together :
      (k q : Key) (bs : Buckets K L)
      → same k q ≡ true
      → (hash_item K L (hash k) bs == hash_item K L (hash q) bs) ≡ true
  together k q bs b = rw (K.same_eq k q b) (ground arith)

  -- What is read of the chain of a key, after the chain of another key changed elsewhere.
  pub read-get-put {ℓ} :
      {A : Type ℓ} (read : Key → Chain K L → A) (k q : Key) (d : Chain K L) (bs : Buckets K L)
      → 1 ≤ num_buckets K L bs
      → (same k q ≡ false → read q d ≡ read q (get K L k bs))
      → read q (get K L q (put K L (hash_item K L (hash k) bs) d bs))
        ≡ (if same k q then read q d else read q (get K L q bs))
  read-get-put read k q d bs h other = rw (get-put k q d bs h) (elim (Bool-cases (same k q)) [
    | inl b ↦ rw (b, together k q bs b) refl
    | inr b ↦ elim (Bool-cases (hash_item K L (hash k) bs == hash_item K L (hash q) bs)) [
      | inl t ↦ rw (t, b) (other b ∙ ap (read q) (get_same k q bs (ground arith)))
      | inr t ↦ rw (t, b) refl
    ]
  ])

  pub occ-get-insert_hash :
      (k q : Key) (n : Node K L) (bs : Buckets K L)
      → 1 ≤ num_buckets K L bs
      → occ K L q (get K L q (insert_hash K L k n bs)) ≡ is K L q k + occ K L q (get K L q bs)
  unfolding weigh
  occ-get-insert_hash k q n bs h = rw (get-insert_hash k q n bs h) (elim (Bool-cases (same k q)) [
    | inl b ↦ rw (together k q bs b) refl
    | inr b ↦ elim (Bool-cases (hash_item K L (hash k) bs == hash_item K L (hash q) bs)) [
      | inl t ↦ rw (t, b) refl
      | inr t ↦ rw (t, b) (omega arith)
    ]
  ])

  pub find-get-insert_hash :
      (k q : Key) (n : Node K L) (bs : Buckets K L)
      → 1 ≤ num_buckets K L bs
      → find K L q (get K L q (insert_hash K L k n bs))
        ≡ (if same k q then some n else find K L q (get K L q bs))
  unfolding find
  find-get-insert_hash k q n bs h = rw (get-insert_hash k q n bs h) (elim (Bool-cases (same k q)) [
    | inl b ↦ rw (b, together k q bs b, b) refl
    | inr b ↦ elim (Bool-cases (hash_item K L (hash k) bs == hash_item K L (hash q) bs)) [
      | inl t ↦ rw (t, b) refl
      | inr t ↦ rw (t, b) refl
    ]
  ])

  pub num_buckets-fill :
      (c : Chain K L) (bs : Buckets K L) → num_buckets K L (fill K L c bs) ≡ num_buckets K L bs
  unfolding fill
  num_buckets-fill nil bs = refl
  num_buckets-fill (child k n c) bs =
      num_buckets-fill c (insert_hash K L k n bs) ∙ num_buckets-insert_hash k n bs

  pub weigh-fill :
      (w : Key → ℕ) (c : Chain K L) (bs : Buckets K L)
      → 1 ≤ num_buckets K L bs
      → weigh K L w (all K L (fill K L c bs)) ≡ weigh K L w c + weigh K L w (all K L bs)
  unfolding fill weigh
  weigh-fill w nil bs h = omega arith
  weigh-fill w (child k n c) bs h = omega (
    arith,
    num_buckets-insert_hash k n bs,
    weigh-fill w c (insert_hash K L k n bs),
    weigh-insert_hash w k n bs,
  )

  pub occ-get-fill :
      (q : Key) (c : Chain K L) (bs : Buckets K L)
      → 1 ≤ num_buckets K L bs
      → occ K L q (get K L q (fill K L c bs)) ≡ occ K L q c + occ K L q (get K L q bs)
  unfolding fill weigh
  occ-get-fill q nil bs h = omega arith
  occ-get-fill q (child k n c) bs h = omega (
    arith,
    num_buckets-insert_hash k n bs,
    occ-get-fill q c (insert_hash K L k n bs),
    occ-get-insert_hash k q n bs,
  )

  pub find-get-fill :
      (q : Key) (c : Chain K L) (bs : Buckets K L)
      → 1 ≤ num_buckets K L bs
      → occ K L q c ≤ 1
      → find K L q (get K L q (fill K L c bs))
        ≡ (if occ K L q c == 0 then find K L q (get K L q bs) else find K L q c)
  unfolding fill weigh find
  find-get-fill q nil bs h once = refl
  find-get-fill q (child k n c) bs h once = elim (Bool-cases (same k q)) [
    | inl b ↦ ground (
      arith,
      b,
      find-get-fill q c (insert_hash K L k n bs),
      num_buckets-insert_hash k n bs,
      find-get-insert_hash k q n bs,
    )
    | inr b ↦ ground (
      arith,
      b,
      find-get-fill q c (insert_hash K L k n bs),
      num_buckets-insert_hash k n bs,
      find-get-insert_hash k q n bs,
    )
  ]

  fill-join :
      (c d : Chain K L) (new : Buckets K L)
      → fill K L d (fill K L c new) ≡ fill K L (join K L c d) new
  unfolding fill join
  fill-join nil d new = refl
  fill-join (child k n c) d new = fill-join c d (insert_hash K L k n new)

  -- The loops of `expand` insert the children of all buckets, one after the other.
  pub refill-fill : (bs new : Buckets K L) → refill K L bs new ≡ fill K L (all K L bs) new
  unfolding refill fill all
  refill-fill last new = refl
  refill-fill (bucket c bs) new = refill-fill bs (fill K L c new) ∙ fill-join c (all K L bs) new

-- ===== src/Queue/Heap/Down.antt =====
-- heapifydown puts a heap in order in which one object may stand too high.
use meldtools.Queue.Heap.{Slots, left_child, parent, right_child, smaller, heapifydown, settled}
use meldtools.Common.{
  ℕ, ◌<◌, ◌≡◌, ◌≢◌, inl, inr, Bool, true, false, List, arith, ltb, ltb→lt, Bool-cases, length,
  get_elem?, zero, suc, ◌-◌, ◌≤◌, ◌⊎◌, some, ◌==◌, ◌>>=◌,
}
use meldtools.Queue.Heap.Exchange.{
  at, at-exchange, exchange, get_elem?-at, get_elem?_past, length-exchange, IsPlaced, Shuffled,
  Shuffled-refl, Shuffled-trans, exchange-Shuffled,
}
use meldtools.Queue.Heap.Up.{IsHeap}

children : (c i : ℕ) → 0 < c → parent c ≡ i → (c ≡ left_child i) ⊎ (c ≡ right_child i)
children c i h e = ground arith

module _ (cmp : ℕ → ℕ → Bool) (total : (a b : ℕ) → cmp a b ≡ false → cmp b a ≡ true)
    (trans : (a b c : ℕ) → cmp a b ≡ true → cmp b c ≡ true → cmp a c ≡ true) where
  -- Only the edges below `i` may be out of order.
  pub record IsHigh (a : List ℕ) (i : ℕ) : Type 0 where
    pub edges :
        (c : ℕ) → 0 < c → c < length a → parent c ≢ i → cmp (at a (parent c)) (at a c) ≡ true
    pub bridged :
        (c : ℕ)
        → 0 < c
        → c < length a
        → parent c ≡ i
        → 0 < i
        → cmp (at a (parent i)) (at a c) ≡ true

  -- `m` is a child of `i` that stands before the other one.
  record IsFirst (a : List ℕ) (i m : ℕ) : Type 0 where
    inside : m < length a
    child : parent m ≡ i
    below : 0 < m
    first : (c : ℕ) → 0 < c → c < length a → parent c ≡ i → cmp (at a m) (at a c) ≡ true

  only_child :
      (a : List ℕ) (i : ℕ)
      → left_child i < length a
      → length a ≤ right_child i
      → IsFirst a i (left_child i)
  only_child a i h k = record {
    inside = h;
    child = omega arith;
    below = omega arith;
    first = λ c p q r.
        let e : c ≡ left_child i = omega arith in
        ground (arith, e, total (at a (left_child i)) (at a (left_child i)));
  }

  left_child-IsFirst :
      (a : List ℕ) (i : ℕ)
      → right_child i < length a
      → cmp (at a (right_child i)) (at a (left_child i)) ≡ false
      → IsFirst a i (left_child i)
  left_child-IsFirst a i h k = record {
    inside = omega arith;
    child = omega arith;
    below = omega arith;
    first = λ c p q r. ground (
      arith,
      children c i,
      total (at a (left_child i)) (at a (left_child i)),
      total (at a (right_child i)) (at a (left_child i)),
    );
  }

  right_child-IsFirst :
      (a : List ℕ) (i : ℕ)
      → right_child i < length a
      → cmp (at a (right_child i)) (at a (left_child i)) ≡ true
      → IsFirst a i (right_child i)
  right_child-IsFirst a i h k = record {
    inside = h;
    child = omega arith;
    below = omega arith;
    first = λ c p q r.
        ground (arith, children c i, total (at a (right_child i)) (at a (right_child i)));
  }

  smaller-IsFirst :
      (a : List ℕ) (i : ℕ)
      → left_child i < length a
      → IsFirst a i (smaller cmp i (at a (left_child i)) (get_elem? a (right_child i)))
  smaller-IsFirst a i h = elim (Bool-cases (ltb (right_child i) (length a))) [
    | inl b ↦
        let both = ltb→lt (right_child i) (length a) b in
        rw (get_elem?-at a (right_child i) both)
          (elim (Bool-cases (cmp (at a (right_child i)) (at a (left_child i)))) [
            | inl k ↦ rw k (right_child-IsFirst a i both k)
            | inr k ↦ rw k (left_child-IsFirst a i both k)
          ])
    | inr b ↦ rw (get_elem?_past a (right_child i) (ground arith)) (only_child a i h (ground arith))
  ]

  -- What heapifydown tests.
  all_after :
      (a : List ℕ) (i c : ℕ)
      → settled cmp (at a i) (at a (left_child i)) (get_elem? a (right_child i)) ≡ true
      → 0 < c
      → c < length a
      → parent c ≡ i
      → cmp (at a i) (at a c) ≡ true
  all_after a i c h p q r = elim (Bool-cases (ltb (right_child i) (length a))) [
    | inl b ↦ ground (arith, children c i, get_elem?-at a (right_child i))
    | inr b ↦ ground (arith, children c i, get_elem?_past a (right_child i))
  ]

  some_before :
      (a : List ℕ) (i m : ℕ)
      → left_child i < length a
      → settled cmp (at a i) (at a (left_child i)) (get_elem? a (right_child i)) ≡ false
      → IsFirst a i m
      → cmp (at a m) (at a i) ≡ true
  some_before a i m h out f = elim (Bool-cases (ltb (right_child i) (length a))) [
    | inl b ↦
        let both = ltb→lt (right_child i) (length a) b in
        ground (
          arith,
          get_elem?-at a (right_child i),
          f.first (left_child i),
          f.first (right_child i),
          total (at a i) (at a (left_child i)),
          total (at a i) (at a (right_child i)),
          trans (at a m) (at a (left_child i)) (at a i),
          trans (at a m) (at a (right_child i)) (at a i),
        )
    | inr b ↦ ground (
      arith,
      get_elem?_past a (right_child i),
      f.first (left_child i),
      total (at a i) (at a (left_child i)),
      trans (at a m) (at a (left_child i)) (at a i),
    )
  ]

  exchange-IsHigh :
      (s : Slots) (i m : ℕ)
      → i < length s.heap
      → IsHigh s.heap i
      → IsFirst s.heap i m
      → cmp (at s.heap m) (at s.heap i) ≡ true
      → IsHigh (exchange i m s).heap m
  exchange-IsHigh s i m hi v f up =
      let size = length-exchange s i m hi f.inside in
      let look = at-exchange s i m hi f.inside in
      record {
        edges =
            λ c p q r. ground (arith, look c, look (parent c), v.edges c, v.bridged m, f.first c);
        bridged = λ c p q r t. ground (arith, look c, look (parent m), v.edges c);
      }

  pub heapifydown_lem :
      (fuel i : ℕ) (s : Slots)
      → length s.heap - i < fuel
      → IsPlaced s
      → IsHigh s.heap i
      → (t : Slots) × (heapifydown cmp fuel i s ≡ some t) × IsHeap cmp t.heap × Shuffled s t
  unfolding heapifydown exchange
  heapifydown_lem zero i s f p v = absurd (omega arith)
  heapifydown_lem (suc fuel) i s f p v = elim (Bool-cases (ltb (left_child i) (length s.heap))) [
    | inl b ↦
        let inside = ltb→lt (left_child i) (length s.heap) b in
        let left = get_elem?-at s.heap (left_child i) inside in
        let hi : i < length s.heap = omega arith in
        let me = get_elem?-at s.heap i hi in
        let right = get_elem? s.heap (right_child i) in
        let m = smaller cmp i (at s.heap (left_child i)) right in
        elim (Bool-cases (settled cmp (at s.heap i) (at s.heap (left_child i)) right)) [
          | inl done ↦ (
            s,
            rw (left, me, heapifydown, ◌>>=◌) (rw done),
            (λ c h k. elim (Bool-cases (parent c == i)) [
              | inl e ↦ ground (arith, all_after s.heap i c done h k)
              | inr e ↦ v.edges c h k (ground arith)
            ]),
            Shuffled-refl s p,
          )
          | inr more ↦
              let first = smaller-IsFirst s.heap i inside in
              let child = get_elem?-at s.heap m first.inside in
              let swapped = exchange-Shuffled s i m hi first.inside p in
              let (t, e, h, k) =
                heapifydown_lem fuel m (exchange i m s)
                  (omega (arith, first.child, first.below, first.inside, swapped.size))
                  swapped.placed
                  (exchange-IsHigh s i m hi v first (some_before s.heap i m inside more first)) in
              (
                t,
                rw (left, me, heapifydown, ◌>>=◌) (rw (more, child) e),
                h,
                Shuffled-trans swapped k,
              )
        ]
    | inr b ↦ (
      s,
      rw (get_elem?_past s.heap (left_child i) (ground arith), heapifydown),
      (λ c h k. v.edges c h k (λ e. ground arith)),
      Shuffled-refl s p,
    )
  ]

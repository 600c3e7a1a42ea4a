-- ===== src/Queue/Heap/Up.antt =====
-- heapifyup puts a heap in order in which one object may stand too low.
use meldtools.Queue.Heap.{Slots, heapifyup, parent}
use meldtools.Common.{
  ℕ, zero, suc, ◌<◌, ◌≡◌, refl, ◌≢◌, inl, inr, Bool, true, false, some, List, arith, Bool-cases,
  length,
}
use meldtools.Queue.Heap.Exchange.{
  IsPlaced, Shuffled, Shuffled-refl, at, at-exchange, exchange, length-exchange, Shuffled-trans,
  exchange-Shuffled, get_elem?-at,
}

-- Each parent stands before its children.
abbrev pub IsHeap : (ℕ → ℕ → Bool) → List ℕ → Type 0
IsHeap cmp a = (c : ℕ) → 0 < c → c < length a → cmp (at a (parent c)) (at a c) ≡ true

module _ (cmp : ℕ → ℕ → Bool) (total : (a b : ℕ) → cmp a b ≡ false → cmp b a ≡ true)
    (trans : (a b c : ℕ) → cmp a b ≡ true → cmp b c ≡ true → cmp a c ≡ true) where
  -- Only the edge above `i` may be out of order.
  pub record IsLow (a : List ℕ) (i : ℕ) : Type 0 where
    pub inside : i < length a
    pub edges : (c : ℕ) → 0 < c → c < length a → c ≢ i → cmp (at a (parent c)) (at a c) ≡ true
    pub bridged :
        (c : ℕ)
        → 0 < c
        → c < length a
        → parent c ≡ i
        → 0 < i
        → cmp (at a (parent i)) (at a c) ≡ true

  exchange-IsLow :
      (s : Slots) (i : ℕ)
      → IsLow s.heap i
      → 0 < i
      → cmp (at s.heap (parent i)) (at s.heap i) ≡ false
      → IsLow (exchange (parent i) i s).heap (parent i)
  exchange-IsLow s i v nonzero out =
      let above : parent i < length s.heap = omega (arith, v.inside) in
      let size = length-exchange s (parent i) i above v.inside in
      let look = at-exchange s (parent i) i above v.inside in
      record {
        inside = omega (arith, size, above);
        edges = λ c p q r. ground (
          arith,
          look c,
          look (parent c),
          v.edges c,
          v.edges (parent i),
          v.bridged c,
          total (at s.heap (parent i)) (at s.heap i),
          trans (at s.heap i) (at s.heap (parent i)) (at s.heap c),
        );
        bridged = λ c p q r t. ground (
          arith,
          look c,
          look (parent (parent i)),
          v.edges c,
          v.edges (parent i),
          trans (at s.heap (parent (parent i))) (at s.heap (parent i)) (at s.heap c),
        );
      }

  pub heapifyup_lem :
      (fuel i : ℕ) (s : Slots)
      → i < fuel
      → IsPlaced s
      → IsLow s.heap i
      → (t : Slots) × (heapifyup cmp fuel i s ≡ some t) × IsHeap cmp t.heap × Shuffled s t
  unfolding heapifyup exchange
  heapifyup_lem zero i s f p v = absurd (omega arith)
  heapifyup_lem (suc fuel) zero s f p v =
      (s, refl, (λ c h k. v.edges c h k (λ e. omega arith)), Shuffled-refl s p)
  heapifyup_lem (suc fuel) (suc i) s f p v =
      let above : parent (suc i) < length s.heap = omega (arith, v.inside) in
      let up = get_elem?-at s.heap (parent (suc i)) above in
      let me = get_elem?-at s.heap (suc i) v.inside in
      let swapped = exchange-Shuffled s (parent (suc i)) (suc i) above v.inside p in
      elim (Bool-cases (cmp (at s.heap (parent (suc i))) (at s.heap (suc i)))) [
        | inl b ↦ (
          s,
          ground (arith, up, me, b),
          (λ c h k. ground (arith, v.edges c h k)),
          Shuffled-refl s p,
        )
        | inr b ↦
            let (t, e, h, k) =
              heapifyup_lem fuel (parent (suc i)) (exchange (parent (suc i)) (suc i) s)
                (omega arith) swapped.placed (exchange-IsLow s (suc i) v (omega arith) b) in
            (t, ground (arith, up, me, b, e), h, Shuffled-trans swapped k)
      ]

-- ===== src/Queue/Heap/Pop.antt =====
-- pop
use meldtools.Queue.Heap.{Slots, ComplexPqueue, Doubles, before, pop}
use meldtools.Common.{
  ℕ, suc, ◌+◌, ◌-◌, ◌<◌, ◌≡◌, refl, subst, inl, inr, Bool, true, false, some, arith, ◌==◌,
  if◌then◌else◌, Bool-cases, length,
}
use meldtools.Queue.Heap.Up.{IsHeap}
use meldtools.Queue.Heap.Queued.{IsQueue, before_total, before_trans}
use meldtools.Queue.Heap.Exchange.{Shuffled, at, get_elem?-at, at-Member}
use meldtools.Queue.Heap.Fill.{
  filled, filled-IsHigh, filled-IsPlaced, filled-Member, filled_only, first_below, length-filled,
  last_object,
}
use meldtools.Queue.Heap.Down.{heapifydown_lem}

module _ (D : Doubles) (q : ComplexPqueue D) (v : IsQueue D q) where
  -- The objects that are flagged after one of them is gone.
  unfoldable pub unflag : ℕ → ℕ → Bool
  unflag obj o = if o == obj then false else q.in_queue o

  pub after-IsQueue :
      (i : ℕ) (hi : i < length q.slots.heap) (t : Slots)
      → IsHeap (before D q.typ q.priority) t.heap
      → Shuffled (filled q.slots i v.placed hi) t
      → IsQueue D (record q { slots = t; in_queue = unflag (at q.slots.heap i) })
  unfolding unflag
  after-IsQueue i hi t h k = record {
    ordered = h;
    placed = k.placed;
    flagged = λ o m. elim (Bool-cases (o == at q.slots.heap i)) [
      | inl b ↦ absurd (ground arith)
      | inr b ↦ k.keeps o (filled-Member q.slots i v.placed hi o (v.flagged o (ground arith)) b)
    ];
    listed = λ o m.
        let (old, other) = filled_only q.slots i v.placed hi o (k.adds_none o m) in
        rw other (v.listed o old);
  }

  -- From a heap in order that is not empty, pop takes an object that stands before every object of
  -- the heap: it is unflagged, the heap stays in order and loses nothing else.
  pub pop-IsQueue :
      0 < length q.slots.heap
      → (least : ℕ) × (q' : ComplexPqueue D) × (pop D q ≡ some (some least, q'))
        × (q.in_queue least ≡ true)
        × ((o : ℕ) → q.in_queue o ≡ true → before D q.typ q.priority least o ≡ true)
        × IsQueue D q'
        × (suc (length q'.slots.heap) ≡ length q.slots.heap)
        × ((o : ℕ) → q'.in_queue o ≡ (if o == least then false else q.in_queue o))
        × (q'.priority ≡ q.priority)
  unfolding pop unflag filled last_object
  pop-IsQueue some_left =
      let cmp = before D q.typ q.priority in
      let total = before_total D q.typ q.priority in
      let trans = before_trans D q.typ q.priority in
      let s = q.slots in
      let start = filled s 0 v.placed some_left in
      let (t, e, h, k) =
        heapifydown_lem cmp total trans (length s.heap + 1) 0 start
          (omega (arith, length-filled s 0 v.placed some_left))
          (filled-IsPlaced s 0 v.placed some_left)
          (filled-IsHigh s 0 v.placed some_left cmp total trans v.ordered
            (λ z. absurd (omega arith))) in
      let least = at s.heap 0 in
      let flag = v.listed least (at-Member q.slots v.placed 0 some_left) in
      (
        least,
        record q { slots = t; in_queue = unflag least },
        rw
            (
              ne some_left,
              get_elem?-at s.heap 0 some_left,
              get_elem?-at s.heap (length s.heap - 1) (omega arith),
            )
            (rw e (rw flag)),
        flag,
        (λ o m.
            let (inside, here) = v.flagged o m in
            subst (λ x. cmp least x ≡ true) here
              (first_below cmp total trans (suc (s.pos o)) s.heap (s.pos o) v.ordered (omega arith)
                inside)),
        after-IsQueue 0 some_left t h k,
        omega (arith, k.size, length-filled s 0 v.placed some_left),
        (λ o. refl),
        refl,
      )
    where
      ne : {n : ℕ} → 0 < n → (n == 0) ≡ false
      ne h = ground arith

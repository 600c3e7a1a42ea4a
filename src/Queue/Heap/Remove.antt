-- ===== src/Queue/Heap/Remove.antt =====
-- remove and move_node
use meldtools.Queue.Heap.{
  Slots, ComplexPqueue, Doubles, before, parent, pop_back, refill, remove, HeapPriority, move_node,
}
use meldtools.Common.{
  ℕ, suc, ◌+◌, ◌-◌, ◌<◌, ◌≡◌, refl, subst, inl, inr, true, false, some, arith, ◌==◌, if◌then◌else◌,
  Bool-cases, length, get_elem?, length-take, sym, ap, ◌∙◌, ◌&&◌, not,
}
use meldtools.Queue.Heap.Up.{IsHeap, heapifyup_lem}
use meldtools.Queue.Heap.Queued.{IsQueue, before_total, before_trans, at-take}
use meldtools.Queue.Heap.Exchange.{Shuffled, at, get_elem?-at, Shuffled-refl}
use meldtools.Queue.Heap.Fill.{
  filled, filled-IsHigh, filled-IsPlaced, length-filled, last_object, filled-IsLow, filled_late,
  at-filled, filled_end,
}
use meldtools.Queue.Heap.Down.{heapifydown_lem}
use meldtools.Queue.Heap.Insert.{insert-IsQueue}
use meldtools.Queue.Heap.Pop.{after-IsQueue, unflag}

module _ (D : Doubles) (q : ComplexPqueue D) (v : IsQueue D q) where
  refill_lem :
      (i : ℕ) (hi : i < length q.slots.heap)
      → i < length q.slots.heap - 1
      → (t : Slots) × (refill
            (before D q.typ q.priority)
            i
            (last_object q.slots i v.placed hi)
            (pop_back q.slots)
          ≡ some t)
        × IsHeap (before D q.typ q.priority) t.heap
        × Shuffled (filled q.slots i v.placed hi) t
  unfolding refill last_object
  refill_lem i hi inner =
      let cmp = before D q.typ q.priority in
      let total = before_total D q.typ q.priority in
      let trans = before_trans D q.typ q.priority in
      let s = q.slots in
      let size = length-filled s i v.placed hi in
      let late = filled_late s i v.placed hi in
      let fuel : length (pop_back s).heap ≡ length s.heap - 1 =
        omega (arith, length-take (length s.heap - 1) s.heap) in
      let ready = filled-IsPlaced s i v.placed hi in
      let down = λ (h : (0 < i) → cmp (at s.heap (parent i)) (last_object s i v.placed hi) ≡ true).
        heapifydown_lem cmp total trans (length (pop_back s).heap + 1) i (filled s i v.placed hi)
          (omega (arith, size, fuel)) ready
          (filled-IsHigh s i v.placed hi cmp total trans v.ordered h) in
      elim (Bool-cases (i == 0)) [
        | inl root ↦
            let (t, e, h, k) = down (λ z. absurd (ground arith)) in (t, rw (root, late) e, h, k)
        | inr below ↦
            let above : get_elem? (filled s i v.placed hi).heap (parent i)
                ≡ some (at s.heap (parent i)) =
              get_elem?-at (filled s i v.placed hi).heap (parent i) (omega (arith, size))
              ∙ ap some (ground (arith, at-filled s i v.placed hi (parent i))) in
            elim (Bool-cases (cmp (last_object s i v.placed hi) (at s.heap (parent i)))) [
              | inl low ↦
                  let (t, e, h, k) =
                    heapifyup_lem cmp total trans (length (pop_back s).heap + 1) i
                      (filled s i v.placed hi) (omega (arith, fuel)) ready
                      (filled-IsLow s i v.placed hi cmp total trans v.ordered (omega (arith, size))
                        (ground arith) low) in
                  (t, rw (below, late, above) (rw low e), h, k)
              | inr high ↦
                  let (t, e, h, k) =
                    down (λ z. total (last_object s i v.placed hi) (at s.heap (parent i)) high) in
                  (t, rw (below, late, above) (rw high e), h, k)
            ]
      ]

  -- From a heap in order, an object that is in it is removed: it is unflagged, the heap stays in
  -- order and loses nothing else.
  pub remove-IsQueue :
      (obj : ℕ)
      → q.in_queue obj ≡ true
      → (q' : ComplexPqueue D) × (remove D q obj ≡ some q')
        × IsQueue D q'
        × (suc (length q'.slots.heap) ≡ length q.slots.heap)
        × ((o : ℕ) → q'.in_queue o ≡ (if o == obj then false else q.in_queue o))
        × (q'.priority ≡ q.priority)
  unfolding remove unflag last_object
  remove-IsQueue obj flag =
      let s = q.slots in
      let i = s.pos obj in
      let (hi, here) = v.flagged obj flag in
      let fewer : length (pop_back s).heap ≡ length s.heap - 1 =
        omega (arith, length-take (length s.heap - 1) s.heap) in
      let tmp = get_elem?-at s.heap (length s.heap - 1) (omega arith) in
      let out =
        λ (t : Slots) (h : IsHeap (before D q.typ q.priority) t.heap)
            (k : Shuffled (filled s i v.placed hi) t).
          subst (λ x. IsQueue D (record q { slots = t; in_queue = unflag D q v x })) here
            (after-IsQueue D q v i hi t h k) in
      let size = length-filled s i v.placed hi in
      elim (Bool-cases (i == length (pop_back s).heap)) [
        | inl end ↦
            let stays : (not (length (pop_back s).heap == 0) && not (i == length (pop_back s).heap))
                ≡ false =
              ground arith in
            let same = filled_end s i v.placed hi (ground arith) in
            let k =
              subst (λ t. Shuffled (filled s i v.placed hi) t) (sym same)
                (Shuffled-refl (filled s i v.placed hi) (filled-IsPlaced s i v.placed hi)) in
            (
              record q { slots = pop_back s; in_queue = unflag D q v obj },
              rw tmp (rw stays),
              out (pop_back s)
                  (λ c m n.
                    rw
                      (
                        at-take (length s.heap - 1) s.heap c (omega (arith, fewer)),
                        at-take (length s.heap - 1) s.heap (parent c) (omega (arith, fewer)),
                      )
                      (v.ordered c m (omega (arith, fewer))))
                  k,
              omega (arith, fewer),
              (λ o. refl),
              refl,
            )
        | inr inner ↦
            let stays : (not (length (pop_back s).heap == 0) && not (i == length (pop_back s).heap))
                ≡ true =
              ground arith in
            let (t, e, h, k) = refill_lem i hi (ground arith) in
            (
              record q { slots = t; in_queue = unflag D q v obj },
              rw tmp (rw stays (rw e)),
              out t h k,
              omega (arith, k.size, size),
              (λ o. refl),
              refl,
            )
      ]

-- In a heap in order, an object that is in it can be given another priority: the heap stays in order
-- and keeps its objects, and no other object's flag or priority changes.
pub move_node-IsQueue :
    (D : Doubles) (q : ComplexPqueue D) (node : ℕ) (new_prio : HeapPriority D)
    → IsQueue D q
    → q.in_queue node ≡ true
    → (q' : ComplexPqueue D) × (move_node D q node new_prio ≡ some q')
      × IsQueue D q'
      × (length q'.slots.heap ≡ length q.slots.heap)
      × ((o : ℕ) → q'.in_queue o ≡ q.in_queue o)
      × ((o : ℕ) → q'.priority o ≡ (if o == node then new_prio else q.priority o))
unfolding move_node
move_node-IsQueue D q node new_prio v flag =
    let (r, e, w, fewer, flags, prios) = remove-IsQueue D q v node flag in
    let (q', f, w', more, flags', prios') =
      insert-IsQueue D r node new_prio w (ground (arith, flags node)) in
    (
      q',
      rw e f,
      w',
      omega arith,
      (λ o. ground (arith, flags o, flags' o)),
      (λ o. prios' o ∙ ap (λ p. if o == node then new_prio else p o) prios),
    )

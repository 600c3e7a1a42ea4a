-- ===== src/Queue/Heap/Insert.antt =====
-- insert
use meldtools.Queue.Heap.{Slots, ComplexPqueue, Doubles, HeapPriority, before, parent, insert}
use meldtools.Common.{
  ℕ, ◌<◌, ◌≡◌, false, [], ◌∷◌, ◌++◌, arith, ◌==◌, if◌then◌else◌, length, length-append, suc, ◌+◌,
  refl, ◌∙◌, inl, inr, true, some, Bool-cases,
}
use meldtools.Queue.Heap.Up.{IsLow, heapifyup_lem}
use meldtools.Queue.Heap.Exchange.{IsPlaced, Member, at, at-Member}
use meldtools.Queue.Heap.Queued.{IsQueue, at-append, before_total, before_trans}

-- An object behind the others.
abbrev appended : Slots → ℕ → Slots
appended s node = record {
  heap = s.heap ++ node ∷ [];
  pos = λ o. if o == node then length s.heap else s.pos o;
}

module _ (D : Doubles) (q : ComplexPqueue D) (node : ℕ) (prio : HeapPriority D) (v : IsQueue D q)
    (fresh : q.in_queue node ≡ false) where
  absent : (o : ℕ) → Member q.slots o → (o == node) ≡ false
  absent o m = ground (arith, v.listed o m)

  new_priority : ℕ → HeapPriority D
  new_priority o = if o == node then prio else q.priority o

  appended-IsPlaced : IsPlaced (appended q.slots node)
  appended-IsPlaced i h = ground (
    arith,
    length-append q.slots.heap (node ∷ []),
    at-append q.slots.heap node i,
    v.placed i,
    absent (at q.slots.heap i),
    at-Member q.slots v.placed i,
  )

  appended-Member : (o : ℕ) → Member q.slots o → Member (appended q.slots node) o
  appended-Member o m = ground (
    arith,
    absent o,
    length-append q.slots.heap (node ∷ []),
    at-append q.slots.heap node (q.slots.pos o),
  )

  appended-Member_self : Member (appended q.slots node) node
  appended-Member_self = ground (
    arith,
    length-append q.slots.heap (node ∷ []),
    at-append q.slots.heap node (length q.slots.heap),
  )

  appended_only :
      (o : ℕ) → Member (appended q.slots node) o → (o == node) ≡ false → Member q.slots o
  appended_only o m e =
      ground
        (arith, length-append q.slots.heap (node ∷ []), at-append q.slots.heap node (q.slots.pos o))

  same_order :
      (i j : ℕ)
      → i < length q.slots.heap
      → j < length q.slots.heap
      → before D q.typ new_priority (at q.slots.heap i) (at q.slots.heap j)
        ≡ before D q.typ q.priority (at q.slots.heap i) (at q.slots.heap j)
  unfolding new_priority
  same_order i j hi hj = rw (
    absent (at q.slots.heap i) (at-Member q.slots v.placed i hi),
    absent (at q.slots.heap j) (at-Member q.slots v.placed j hj),
  )

  appended-IsLow :
      IsLow
        (before D q.typ new_priority)
        (before_total D q.typ new_priority)
        (before_trans D q.typ new_priority)
        (appended q.slots node).heap
        (length q.slots.heap)
  appended-IsLow = record {
    inside = omega (arith, length-append q.slots.heap (node ∷ []));
    edges = λ c h k n.
        let inner : c < length q.slots.heap =
          omega (arith, length-append q.slots.heap (node ∷ [])) in
        let here : at (q.slots.heap ++ node ∷ []) c ≡ at q.slots.heap c =
          ground (arith, at-append q.slots.heap node c) in
        let up : at (q.slots.heap ++ node ∷ []) (parent c) ≡ at q.slots.heap (parent c) =
          ground (arith, at-append q.slots.heap node (parent c)) in
        rw (here, up, same_order (parent c) c (omega arith) inner) (v.ordered c h inner);
    bridged = λ c h k e n. absurd (omega (arith, length-append q.slots.heap (node ∷ [])));
  }

  -- Into a heap in order, an object that is not in it goes with its priority: it is flagged, the
  -- heap stays in order, it has one object more, and no other object's flag or priority changes.
  pub insert-IsQueue :
      (q' : ComplexPqueue D) × (insert D q node prio ≡ some q')
      × IsQueue D q'
      × (length q'.slots.heap ≡ suc (length q.slots.heap))
      × ((o : ℕ) → q'.in_queue o ≡ (if o == node then true else q.in_queue o))
      × ((o : ℕ) → q'.priority o ≡ (if o == node then prio else q.priority o))
  unfolding insert new_priority
  insert-IsQueue =
      let size = length q.slots.heap in
      let (t, e, h, k) =
        heapifyup_lem (before D q.typ new_priority) (before_total D q.typ new_priority)
          (before_trans D q.typ new_priority) (size + 1) size (appended q.slots node) (omega arith)
          appended-IsPlaced appended-IsLow in
      (
        record q {
          slots = t;
          priority = new_priority;
          in_queue = λ o. if o == node then true else q.in_queue o;
        },
        rw fresh (rw e),
        record {
          ordered = h;
          placed = k.placed;
          flagged = λ o m. k.keeps o (elim (Bool-cases (o == node)) [
            | inl b ↦ let self : o ≡ node = ground arith in rw self appended-Member_self
            | inr b ↦ appended-Member o (v.flagged o (ground arith))
          ]);
          listed = λ o m. elim (Bool-cases (o == node)) [
            | inl b ↦ rw b
            | inr b ↦ rw b (v.listed o (appended_only o (k.adds_none o m) b))
          ];
        },
        k.size ∙ omega (arith, length-append q.slots.heap (node ∷ [])),
        (λ o. refl),
        (λ o. refl),
      )

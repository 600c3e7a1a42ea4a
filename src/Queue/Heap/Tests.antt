-- ===== src/Queue/Heap/Tests.antt =====
-- Heaps at concrete inputs, where a `double` is a number.
use meldtools.Queue.Heap.{
  Doubles, ComplexPqueue, HeapPriority, int_asc, before, insert, pop, remove,
}
use meldtools.Common.{
  ℕ, zero, suc, ◌<◌, ◌≡◌, refl, true, false, ◌||◌, [], ◌∷◌, arith, leb, ◌==◌, if◌then◌else◌, get_or,
  inl, inr, some, Bool-cases, length,
}
use meldtools.Queue.Heap.Queued.{IsQueue}
use meldtools.Queue.Heap.Exchange.{Member}
use meldtools.Queue.Heap.Insert.{insert-IsQueue}
use meldtools.Queue.Heap.Remove.{remove-IsQueue}
use meldtools.Queue.Heap.Pop.{pop-IsQueue}

leb_total : (a b : ℕ) → leb a b ≡ false → leb b a ≡ true
leb_total a b h = ground arith

leb_trans : (a b c : ℕ) → leb a b ≡ true → leb b c ≡ true → leb a c ≡ true
leb_trans a b c h k = ground arith

abbrev naturals : Doubles
naturals = record {
  Double = ℕ;
  of_int = λ n. n;
  le = leb;
  le_total = leb_total;
  le_trans = leb_trans;
}

abbrev prio : ℕ → HeapPriority naturals
prio n = record { int_priority = n; float_priority = 0 }

-- Object 4 with priority 7, under object 3 with priority 5.
abbrev two_objects : ComplexPqueue naturals
two_objects = record {
  typ = int_asc;
  slots = record { heap = 3 ∷ 4 ∷ []; pos = λ o. if o == 4 then 1 else 0 };
  priority = λ o. if o == 4 then prio 7 else prio 5;
  in_queue = λ o. o == 3 || o == 4;
}

two_objects-IsQueue : IsQueue naturals two_objects
two_objects-IsQueue = record {
  ordered = λ c h k. let e : c ≡ 1 = omega arith in rw e refl;
  placed = placed;
  flagged = flagged;
  listed = listed;
}
  where
    placed : (i : ℕ) → i < 2 → two_objects.slots.pos (get_or (3 ∷ 4 ∷ []) i 0) ≡ i
    placed zero h = refl
    placed (suc zero) h = refl
    placed (suc (suc i)) h = absurd (omega arith)

    flagged : (o : ℕ) → two_objects.in_queue o ≡ true → Member two_objects.slots o
    flagged o m = elim (Bool-cases (o == 4)) [
      | inl e ↦ let q : o ≡ 4 = ground arith in rw q (omega arith, refl)
      | inr e ↦ let q : o ≡ 3 = ground arith in rw q (omega arith, refl)
    ]

    listed : (o : ℕ) → Member two_objects.slots o → two_objects.in_queue o ≡ true
    listed o m = elim (Bool-cases (o == 4)) [
      | inl e ↦ let q : o ≡ 4 = ground arith in rw q refl
      | inr e ↦ let q : o ≡ 3 = ground arith in rw q refl
    ]

insert-IsQueue_example :
    (q' : ComplexPqueue naturals) × (insert naturals two_objects 9 (prio 6) ≡ some q')
    × IsQueue naturals q'
    × (length q'.slots.heap ≡ 3)
    × ((o : ℕ) → q'.in_queue o ≡ (if o == 9 then true else two_objects.in_queue o))
    × ((o : ℕ) → q'.priority o ≡ (if o == 9 then prio 6 else two_objects.priority o))
insert-IsQueue_example = insert-IsQueue naturals two_objects 9 (prio 6) two_objects-IsQueue refl

pop-IsQueue_example :
    (least : ℕ) × (q' : ComplexPqueue naturals) × (pop naturals two_objects ≡ some (some least, q'))
    × (two_objects.in_queue least ≡ true)
    × ((o : ℕ)
        → two_objects.in_queue o ≡ true
        → before naturals int_asc two_objects.priority least o ≡ true)
    × IsQueue naturals q'
    × (suc (length q'.slots.heap) ≡ 2)
    × ((o : ℕ) → q'.in_queue o ≡ (if o == least then false else two_objects.in_queue o))
    × (q'.priority ≡ two_objects.priority)
pop-IsQueue_example = pop-IsQueue naturals two_objects two_objects-IsQueue (omega arith)

remove-IsQueue_example :
    (q' : ComplexPqueue naturals) × (remove naturals two_objects 3 ≡ some q')
    × IsQueue naturals q'
    × (suc (length q'.slots.heap) ≡ 2)
    × ((o : ℕ) → q'.in_queue o ≡ (if o == 3 then false else two_objects.in_queue o))
    × (q'.priority ≡ two_objects.priority)
remove-IsQueue_example = remove-IsQueue naturals two_objects two_objects-IsQueue 3 refl

-- ===== src/Queue/Heap/Queued.antt =====
-- When a heap of objects is in order.
use meldtools.Common.{
  ℕ, zero, suc, ◌<◌, ◌≡◌, refl, true, false, List, [], ◌∷◌, ◌++◌, arith, ◌==◌, if◌then◌else◌,
  length, take,
}
use meldtools.Queue.Heap.{
  ComplexPqueue, Doubles, HeapPriority, HeapType, before, float_asc, float_desc, int_asc, int_desc,
}
use meldtools.Queue.Heap.Up.{IsHeap}
use meldtools.Queue.Heap.Exchange.{IsPlaced, Member, at}

pub at-append : (a : List ℕ) (x c : ℕ) → at (a ++ x ∷ []) c ≡ (if c == length a then x else at a c)
at-append [] x zero = refl
at-append [] x (suc c) = ground arith
at-append (y ∷ a) x zero = ground arith
at-append (y ∷ a) x (suc c) = ground (arith, at-append a x c)

pub at-take : (n : ℕ) (a : List ℕ) (c : ℕ) → c < n → at (take n a) c ≡ at a c
at-take zero a c h = absurd (omega arith)
at-take (suc n) [] c h = refl
at-take (suc n) (x ∷ a) zero h = refl
at-take (suc n) (x ∷ a) (suc c) h = at-take n a c (omega arith)

module _ (D : Doubles) where
  pub record IsQueue (q : ComplexPqueue D) : Type 0 where
    pub ordered : IsHeap (before D q.typ q.priority) q.slots.heap
    pub placed : IsPlaced q.slots
    pub flagged : (o : ℕ) → q.in_queue o ≡ true → Member q.slots o
    pub listed : (o : ℕ) → Member q.slots o → q.in_queue o ≡ true

  pub before_total :
      (typ : HeapType) (priority : ℕ → HeapPriority D) (a b : ℕ)
      → before D typ priority a b ≡ false
      → before D typ priority b a ≡ true
  before_total int_asc priority a b h =
      D.le_total (D.of_int (priority a).int_priority) (D.of_int (priority b).int_priority) h
  before_total int_desc priority a b h =
      D.le_total (D.of_int (priority b).int_priority) (D.of_int (priority a).int_priority) h
  before_total float_asc priority a b h =
      D.le_total (priority a).float_priority (priority b).float_priority h
  before_total float_desc priority a b h =
      D.le_total (priority b).float_priority (priority a).float_priority h

  pub before_trans :
      (typ : HeapType) (priority : ℕ → HeapPriority D) (a b c : ℕ)
      → before D typ priority a b ≡ true
      → before D typ priority b c ≡ true
      → before D typ priority a c ≡ true
  before_trans int_asc priority a b c h k =
      D.le_trans (D.of_int (priority a).int_priority) (D.of_int (priority b).int_priority)
        (D.of_int (priority c).int_priority) h k
  before_trans int_desc priority a b c h k =
      D.le_trans (D.of_int (priority c).int_priority) (D.of_int (priority b).int_priority)
        (D.of_int (priority a).int_priority) k h
  before_trans float_asc priority a b c h k =
      D.le_trans (priority a).float_priority (priority b).float_priority (priority c).float_priority
        h k
  before_trans float_desc priority a b c h k =
      D.le_trans (priority c).float_priority (priority b).float_priority (priority a).float_priority
        k h

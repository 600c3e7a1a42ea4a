-- ===== src/Queue/Heap/Fill.antt =====
-- The heap without one object, whose place the last one takes.
use meldtools.Queue.Heap.{Slots, parent, pop_back, set_index}
use meldtools.Common.{
  ℕ, zero, suc, ◌-◌, ◌<◌, ◌≡◌, Bool, true, false, List, arith, ◌==◌, if◌then◌else◌, length,
  length-set, length-take, get_or-set, subst, ◌≤◌, refl, sym, ap, [], ◌∷◌, set, take,
}
use meldtools.Queue.Heap.Up.{IsHeap, IsLow}
use meldtools.Queue.Heap.Exchange.{IsPlaced, Member, at}
use meldtools.Queue.Heap.Queued.{at-take}
use meldtools.Queue.Heap.Down.{IsHigh}
use mathlib.Core.Path.{ap₂, fun_ext}

-- The first object of a heap stands before each other one.
pub first_below :
    (cmp : ℕ → ℕ → Bool) (total : (a b : ℕ) → cmp a b ≡ false → cmp b a ≡ true)
    (trans : (a b c : ℕ) → cmp a b ≡ true → cmp b c ≡ true → cmp a c ≡ true) (limit : ℕ)
    (a : List ℕ) (i : ℕ)
    → IsHeap cmp a
    → i < limit
    → i < length a
    → cmp (at a 0) (at a i) ≡ true
first_below cmp total trans zero a i h f p = absurd (omega arith)
first_below cmp total trans (suc limit) a zero h f p = ground (arith, total (at a 0) (at a 0))
first_below cmp total trans (suc limit) a (suc i) h f p =
    trans (at a 0) (at a (parent (suc i))) (at a (suc i))
      (first_below cmp total trans limit a (parent (suc i)) h (omega arith) (omega arith))
      (h (suc i) (omega arith) p)

pop_back-at : (s : Slots) (c : ℕ) → c < length s.heap - 1 → at (pop_back s).heap c ≡ at s.heap c
pop_back-at s c h = at-take (length s.heap - 1) s.heap c h

length-pop_back : (s : Slots) → length (pop_back s).heap ≡ length s.heap - 1
length-pop_back s = omega (arith, length-take (length s.heap - 1) s.heap)

module _ (s : Slots) (i : ℕ) (p : IsPlaced s) (hi : i < length s.heap) where
  unfoldable pub last_object : ℕ
  last_object = at s.heap (length s.heap - 1)

  unfoldable pub filled : Slots
  filled = pop_back (set_index i last_object s)

  pub length-filled : length filled.heap ≡ length s.heap - 1
  unfolding filled set_index
  length-filled =
      omega (arith, length-pop_back (set_index i last_object s), length-set s.heap i last_object)

  pub at-filled :
      (c : ℕ)
      → c < length s.heap - 1
      → at filled.heap c ≡ (if c == i then last_object else at s.heap c)
  unfolding filled set_index
  at-filled c h =
      rw
        (pop_back-at (set_index i last_object s) c (omega (arith, length-set s.heap i last_object)))
        (get_or-set s.heap i c last_object 0 hi)

  pub filled-IsPlaced : IsPlaced filled
  unfolding last_object filled set_index
  filled-IsPlaced c h = ground (arith, length-filled, at-filled c, p c, p (length s.heap - 1), p i)

  pub filled-Member : (o : ℕ) → Member s o → (o == at s.heap i) ≡ false → Member filled o
  unfolding last_object filled set_index
  filled-Member o m e =
      ground (arith, length-filled, at-filled (s.pos o), at-filled i, p i, p (length s.heap - 1))

  pub filled_only : (o : ℕ) → Member filled o → Member s o × ((o == at s.heap i) ≡ false)
  unfolding last_object filled set_index
  filled_only o m =
      ground (arith, length-filled, at-filled (s.pos o), at-filled i, p i, p (length s.heap - 1))

  module _ (cmp : ℕ → ℕ → Bool) (total : (a b : ℕ) → cmp a b ≡ false → cmp b a ≡ true)
      (trans : (a b c : ℕ) → cmp a b ≡ true → cmp b c ≡ true → cmp a c ≡ true)
      (h : IsHeap cmp s.heap) where
    -- The parent, the place itself and a child.
    across :
        (c : ℕ)
        → 0 < i
        → 0 < c
        → c < length s.heap
        → parent c ≡ i
        → cmp (at s.heap (parent i)) (at s.heap c) ≡ true
    across c k q r e =
        trans (at s.heap (parent i)) (at s.heap i) (at s.heap c) (h i k hi)
          (subst (λ j. cmp (at s.heap j) (at s.heap c) ≡ true) e (h c q r))

    pub filled-IsHigh :
        ((0 < i) → cmp (at s.heap (parent i)) last_object ≡ true)
        → IsHigh cmp total trans filled.heap i
    filled-IsHigh above = record {
      edges =
          λ c q r n. ground (arith, length-filled, at-filled c, at-filled (parent c), h c q, above);
      bridged = λ c q r e k.
          ground (arith, length-filled, at-filled c, at-filled (parent i), across c k q);
    }

    pub filled-IsLow :
        i < length filled.heap
        → 0 < i
        → cmp last_object (at s.heap (parent i)) ≡ true
        → IsLow cmp total trans filled.heap i
    filled-IsLow inside k low = record {
      inside = inside;
      edges = λ c q r n. ground (
        arith,
        length-filled,
        at-filled c,
        at-filled (parent c),
        h c q,
        across c k q,
        trans last_object (at s.heap (parent i)) (at s.heap c),
      );
      bridged = λ c q r e t.
          ground (arith, length-filled, at-filled c, at-filled (parent i), across c k q);
    }

set-take {ℓ} :
    {A : Type ℓ} (n : ℕ) (a : List A) (i : ℕ) (v : A) → take n (set a i v) ≡ set (take n a) i v
set-take zero a i v = refl
set-take (suc n) [] i v = refl
set-take (suc n) (x ∷ a) zero v = refl
set-take (suc n) (x ∷ a) (suc i) v = ap (◌∷◌ x) (set-take n a i v)

take-set_past {ℓ} :
    {A : Type ℓ} (n : ℕ) (a : List A) (i : ℕ) (v : A) → n ≤ i → take n (set a i v) ≡ take n a
take-set_past zero a i v h = refl
take-set_past (suc n) [] i v h = refl
take-set_past (suc n) (x ∷ a) zero v h = absurd (omega arith)
take-set_past (suc n) (x ∷ a) (suc i) v h = ap (◌∷◌ x) (take-set_past n a i v (omega arith))

module _ (s : Slots) (i : ℕ) (p : IsPlaced s) (hi : i < length s.heap) where
  -- The heap may lose its last place first.
  pub filled_late : set_index i (last_object s i p hi) (pop_back s) ≡ filled s i p hi
  unfolding set_index filled
  filled_late =
      let v = last_object s i p hi in
      let e : take (length (set s.heap i v) - 1) (set s.heap i v)
          ≡ set (take (length s.heap - 1) s.heap) i v =
        rw (length-set s.heap i v) (set-take (length s.heap - 1) s.heap i v) in
      ap (λ a. record { heap = a; pos = λ o. if o == v then i else s.pos o }) (sym e)

  -- The last object has no place to fill.
  pub filled_end : i ≡ length s.heap - 1 → pop_back s ≡ filled s i p hi
  unfolding set_index filled last_object
  filled_end e =
      let v = last_object s i p hi in
      let same_heap : take (length (set s.heap i v) - 1) (set s.heap i v)
          ≡ take (length s.heap - 1) s.heap =
        rw (length-set s.heap i v) (take-set_past (length s.heap - 1) s.heap i v (omega arith)) in
      let same_pos : (λ o. if o == v then i else s.pos o) ≡ s.pos =
        fun_ext (λ o. ground (arith, p i, p (length s.heap - 1))) in
      ap₂ (λ a f. record { heap = a; pos = f }) (sym same_heap) (sym same_pos)

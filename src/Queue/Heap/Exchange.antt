-- ===== src/Queue/Heap/Exchange.antt =====
-- Objects that change places in the heap.
use meldtools.Queue.Heap.{Slots, set_index}
use meldtools.Common.{
  ℕ, zero, suc, ◌≤◌, ◌<◌, ◌≡◌, refl, ◌∙◌, none, some, List, [], ◌∷◌, arith, ◌==◌, if◌then◌else◌,
  length, get_elem?, set, length-set, get_or, get_or-set, ap,
}

abbrev pub at : List ℕ → ℕ → ℕ
at a i = get_or a i 0

pub get_elem?-at : (a : List ℕ) (i : ℕ) → i < length a → get_elem? a i ≡ some (at a i)
get_elem?-at [] i h = absurd (omega arith)
get_elem?-at (x ∷ a) zero h = refl
get_elem?-at (x ∷ a) (suc i) h = get_elem?-at a i (omega arith)

pub get_elem?_past {ℓ} : {A : Type ℓ} (a : List A) (i : ℕ) → length a ≤ i → get_elem? a i ≡ none
get_elem?_past [] i h = refl
get_elem?_past (x ∷ a) zero h = absurd (omega arith)
get_elem?_past (x ∷ a) (suc i) h = get_elem?_past a i (omega arith)

-- The object stands in the heap, at its place.
abbrev pub Member : Slots → ℕ → Type 0
Member s o = (s.pos o < length s.heap) × (at s.heap (s.pos o) ≡ o)

-- Each object in the heap carries its place.
abbrev pub IsPlaced : Slots → Type 0
IsPlaced s = (i : ℕ) → i < length s.heap → s.pos (at s.heap i) ≡ i

pub at-Member : (s : Slots) → IsPlaced s → (i : ℕ) → i < length s.heap → Member s (at s.heap i)
at-Member s p i h = (omega (arith, p i h), ap (at s.heap) (p i h))

-- The same objects at other places.
pub record Shuffled (s t : Slots) : Type 0 where
  pub placed : IsPlaced t
  pub size : length t.heap ≡ length s.heap
  pub keeps : (o : ℕ) → Member s o → Member t o
  pub adds_none : (o : ℕ) → Member t o → Member s o

pub Shuffled-refl : (s : Slots) → IsPlaced s → Shuffled s s
Shuffled-refl s p = record { placed = p; size = refl; keeps = λ o h. h; adds_none = λ o h. h }

pub Shuffled-trans : {s t u : Slots} → Shuffled s t → Shuffled t u → Shuffled s u
Shuffled-trans a b = record {
  placed = b.placed;
  size = b.size ∙ a.size;
  keeps = λ o h. b.keeps o (a.keeps o h);
  adds_none = λ o h. a.adds_none o (b.adds_none o h);
}

-- The objects at two places change places.
unfoldable pub exchange : ℕ → ℕ → Slots → Slots
unfolding set_index
exchange i j s = set_index j (at s.heap i) (set_index i (at s.heap j) s)

module _ (s : Slots) (i j : ℕ) (hi : i < length s.heap) (hj : j < length s.heap) where
  pub length-exchange : length (exchange i j s).heap ≡ length s.heap
  unfolding exchange
  length-exchange =
      length-set (set s.heap i (at s.heap j)) j (at s.heap i) ∙ length-set s.heap i (at s.heap j)

  pub at-exchange :
      (c : ℕ)
      → at (exchange i j s).heap c
        ≡ (if c == j then at s.heap i else if c == i then at s.heap j else at s.heap c)
  unfolding exchange
  at-exchange c = ground (
    arith,
    get_or-set (set s.heap i (at s.heap j)) j c (at s.heap i) 0,
    get_or-set s.heap i c (at s.heap j) 0,
    length-set s.heap i (at s.heap j),
  )

  pub exchange-Shuffled : IsPlaced s → Shuffled s (exchange i j s)
  unfolding exchange
  exchange-Shuffled p = record {
    placed = λ c h. ground (arith, at-exchange c, length-exchange, p c, p i, p j);
    size = length-exchange;
    keeps = λ o m.
        ground
          (arith, length-exchange, at-exchange i, at-exchange j, at-exchange (s.pos o), p i, p j);
    adds_none = λ o m.
        ground
          (arith, length-exchange, at-exchange i, at-exchange j, at-exchange (s.pos o), p i, p j);
  }

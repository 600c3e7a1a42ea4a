-- ===== src/Common/OrdSet.antt =====
-- std::set of numbers, as the ascending list that its iteration yields.
use meldtools.Common.Tests.{ltb, ◌==◌, if◌then◌else◌}
use Prim.Native.Nat.{ℕ, ◌<◌, ◌≤◌}
use mathlib.Core.Path.{◌≡◌, refl}
use mathlib.Core.Bool.{Bool, true, false}
use mathlib.Core.List.{List, [], ◌∷◌}
use native.Mathlib.Omega.{arith}

unfoldable pub insert : ℕ → List ℕ → List ℕ
insert a [] = a ∷ []
insert a (x ∷ xs) = if a == x then x ∷ xs else if ltb a x then a ∷ x ∷ xs else x ∷ insert a xs

unfoldable pub erase : ℕ → List ℕ → List ℕ
erase a [] = []
erase a (x ∷ xs) = if a == x then xs else x ∷ erase a xs

unfoldable pub member : ℕ → List ℕ → Bool
member a [] = false
member a (x ∷ xs) = if a == x then true else member a xs

-- Strictly ascending, and above a bound.
abbrev pub Above : ℕ → List ℕ → Type 0
Above b [] = Unit {0}
Above b (x ∷ xs) = (b < x) × Above x xs

abbrev pub IsAscending : List ℕ → Type 0
IsAscending [] = Unit {0}
IsAscending (x ∷ xs) = Above x xs

pub member-insert :
    (a b : ℕ) (s : List ℕ) → member b (insert a s) ≡ (if b == a then true else member b s)
unfolding member insert
member-insert a b [] = refl
member-insert a b (x ∷ xs) = ground (arith, member-insert a b xs)

Above-mono : (a b : ℕ) (s : List ℕ) → a ≤ b → Above b s → Above a s
Above-mono a b [] h s = tt
Above-mono a b (x ∷ xs) h s = (omega arith, s.1)

member_below : (a b : ℕ) (s : List ℕ) → Above b s → a ≤ b → member a s ≡ false
unfolding member
member_below a b [] s h = refl
member_below a b (x ∷ xs) s h = ground (arith, member_below a x xs)

insert-Above : (a b : ℕ) (s : List ℕ) → b < a → Above b s → Above b (insert a s)
unfolding insert
insert-Above a b [] h s = (h, tt)
insert-Above a b (x ∷ xs) h s = ground (arith, insert-Above a x xs)

pub insert-IsAscending : (a : ℕ) (s : List ℕ) → IsAscending s → IsAscending (insert a s)
unfolding insert
insert-IsAscending a [] s = tt
insert-IsAscending a (x ∷ xs) s = ground (arith, insert-Above a x xs)

erase-Above : (a b : ℕ) (s : List ℕ) → Above b s → Above b (erase a s)
unfolding erase
erase-Above a b [] s = tt
erase-Above a b (x ∷ xs) s = ground (arith, erase-Above a x xs s.1, Above-mono b x xs)

pub erase-IsAscending : (a : ℕ) (s : List ℕ) → IsAscending s → IsAscending (erase a s)
unfolding erase
erase-IsAscending a [] s = tt
erase-IsAscending a (x ∷ []) s = ground arith
erase-IsAscending a (x ∷ y ∷ xs) s = ground (arith, erase-Above a x (y ∷ xs) s)

member-erase-Above :
    (a b c : ℕ) (s : List ℕ)
    → Above c s
    → member b (erase a s) ≡ (if b == a then false else member b s)
unfolding member erase
member-erase-Above a b c [] s = ground arith
member-erase-Above a b c (x ∷ xs) s =
    ground (arith, member-erase-Above a b x xs s.1, member_below b x xs s.1)

pub member-erase :
    (a b : ℕ) (s : List ℕ)
    → IsAscending s
    → member b (erase a s) ≡ (if b == a then false else member b s)
unfolding member erase
member-erase a b [] s = ground arith
member-erase a b (x ∷ xs) s = ground (arith, member-erase-Above a b x xs s, member_below b x xs s)

-- ===== src/External/Lists/Sorting.antt =====
-- `intlistsort` puts a list in ascending order.
use mathlib.Core.List.{Perm, reverse, reverse-cons, reverse_perm}
use meldtools.Common.{ℕ, ◌≤◌, inl, inr, List, [], ◌∷◌, ◌++◌, arith, Bool-cases, append_assoc}
use meldtools.External.Lists.{cmp_ints, shift, sort, sort_insert, intlistsort, vector_loop}
use meldtools.Runtime.List.{from_vector_to_reverse_list_lem}
use meldtools.External.Lists.Basic.{vector_loop_lem}
use mathlib.Core.List.Perm

-- Descending, as signed integers, and from a bound on.
abbrev pub Descends : ℕ → List ℕ → Type 0
Descends b [] = Unit {0}
Descends b (x ∷ xs) = (shift x ≤ shift b) × Descends x xs

abbrev pub IsDescending : List ℕ → Type 0
IsDescending [] = Unit {0}
IsDescending (x ∷ xs) = Descends x xs

abbrev pub IsAscending : List ℕ → Type 0
IsAscending [] = Unit {0}
IsAscending (x ∷ []) = Unit {0}
IsAscending (x ∷ y ∷ xs) = (shift x ≤ shift y) × IsAscending (y ∷ xs)

sort_insert-Descends :
    (b x : ℕ) (ys : List ℕ)
    → shift x ≤ shift b
    → Descends b ys
    → Descends b (sort_insert cmp_ints x ys)
unfolding sort_insert cmp_ints
sort_insert-Descends b x [] h d = (h, tt)
sort_insert-Descends b x (y ∷ ys) h d = ground (arith, sort_insert-Descends y x ys)

sort_insert-IsDescending :
    (x : ℕ) (ys : List ℕ) → IsDescending ys → IsDescending (sort_insert cmp_ints x ys)
unfolding sort_insert cmp_ints
sort_insert-IsDescending x [] d = tt
sort_insert-IsDescending x (y ∷ ys) d = ground (arith, sort_insert-Descends y x ys)

sort-IsDescending : (xs : List ℕ) → IsDescending (sort cmp_ints xs)
unfolding sort
sort-IsDescending [] = tt
sort-IsDescending (x ∷ xs) = sort_insert-IsDescending x (sort cmp_ints xs) (sort-IsDescending xs)

sort_insert-perm : (x : ℕ) (ys : List ℕ) → Perm (sort_insert cmp_ints x ys) (x ∷ ys)
unfolding sort_insert
sort_insert-perm x [] = Perm.rfl
sort_insert-perm x (y ∷ ys) = elim (Bool-cases (cmp_ints y x)) [
  | inl first ↦
      rw (first, sort_insert) (Perm.trans (Perm.cons y (sort_insert-perm x ys)) (Perm.swap x y ys))
  | inr last ↦ rw (last, sort_insert) Perm.rfl
]

sort-perm : (xs : List ℕ) → Perm (sort cmp_ints xs) xs
unfolding sort
sort-perm [] = Perm.nil
sort-perm (x ∷ xs) = Perm.trans (sort_insert-perm x (sort cmp_ints xs)) (Perm.cons x (sort-perm xs))

-- A descending list, emptied onto an ascending one that starts no lower.
reverse-IsAscending :
    (b : ℕ) (rest vec : List ℕ)
    → IsAscending (b ∷ rest)
    → Descends b vec
    → IsAscending (reverse vec ++ b ∷ rest)
reverse-IsAscending b rest [] a d = a
reverse-IsAscending b rest (x ∷ vec) a (h, d) =
    rw (reverse-cons x vec, append_assoc (reverse vec) (x ∷ []) (b ∷ rest))
      (reverse-IsAscending x (b ∷ rest) vec (h, a) d)

reverse_all-IsAscending : (vec : List ℕ) → IsDescending vec → IsAscending (reverse vec)
reverse_all-IsAscending [] d = tt
reverse_all-IsAscending (x ∷ vec) d = rw (reverse-cons x vec) (reverse-IsAscending x [] vec tt d)

-- The result is in ascending order, as signed integers, and has the elements of the list, each as
-- often.
pub intlistsort_correct : (ls : List ℕ) → IsAscending (intlistsort ls) × Perm (intlistsort ls) ls
unfolding intlistsort
intlistsort_correct ls =
    let vec = sort cmp_ints (vector_loop [] ls) in
    let turned = from_vector_to_reverse_list_lem vec in
    (
      rw turned (reverse_all-IsAscending vec (sort-IsDescending (vector_loop [] ls))),
      rw turned (Perm.trans (reverse_perm vec) (rw (vector_loop_lem [] ls) (sort-perm ls))),
    )

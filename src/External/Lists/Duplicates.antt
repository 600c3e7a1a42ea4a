-- ===== src/External/Lists/Duplicates.antt =====
-- `intlistremoveduplicates` keeps the first occurrence of each element.
use meldtools.Common.{
  ℕ, ◌≡◌, refl, ap, ◌∙◌, Bool, true, not, List, [], ◌∷◌, ◌++◌, append_assoc, append-nil, arith,
  if◌then◌else◌, length, replicate,
}
use mathlib.Core.List.{reverse, reverse-cons, reverse-reverse}
use meldtools.Runtime.List.{from_stack_to_list_lem}
use meldtools.External.Lists.{
  has_value, intlistremoveduplicates, keep_marked, mark_loop, vector_loop,
}
use meldtools.External.Lists.Basic.{vector_loop_lem}

-- The elements that were not seen before, each at its first occurrence.
abbrev pub unseen : List ℕ → List ℕ → List ℕ
unseen seen [] = []
unseen seen (x ∷ xs) = if has_value seen x then unseen seen xs else x ∷ unseen (x ∷ seen) xs

-- The marks of a vector when the elements `seen` have been kept.
flags : List ℕ → List ℕ → List Bool
flags seen [] = []
flags seen (x ∷ vec) = not (has_value seen x) ∷ flags seen vec

flags-nil : (vec : List ℕ) → flags [] vec ≡ replicate (length vec) true
unfolding flags has_value
flags-nil [] = refl
flags-nil (x ∷ vec) = ap (◌∷◌ true) (flags-nil vec)

mark_loop-flags :
    (v : ℕ) (vec seen : List ℕ) → mark_loop v vec (flags seen vec) ≡ flags (v ∷ seen) vec
unfolding mark_loop flags has_value
mark_loop-flags v [] seen = refl
mark_loop-flags v (x ∷ vec) seen = ground (arith, mark_loop-flags v vec seen)

keep_marked-flags :
    (vec seen s : List ℕ) → keep_marked vec (flags seen vec) s ≡ reverse (unseen seen vec) ++ s
unfolding keep_marked flags
keep_marked-flags [] seen s = refl
keep_marked-flags (x ∷ vec) seen s = ground (
  arith,
  mark_loop-flags x vec seen,
  keep_marked-flags vec seen s,
  keep_marked-flags vec (x ∷ seen) (x ∷ s),
  reverse-cons x (unseen (x ∷ seen) vec),
  append_assoc (reverse (unseen (x ∷ seen) vec)) (x ∷ []) s,
)

-- The result has each element of the list once, in the order of the first occurrences.
pub intlistremoveduplicates_lem : (ls : List ℕ) → intlistremoveduplicates ls ≡ unseen [] ls
unfolding intlistremoveduplicates
intlistremoveduplicates_lem ls =
    let vec = vector_loop [] ls in
    let kept = keep_marked-flags vec [] [] in
    from_stack_to_list_lem (keep_marked vec (replicate (length vec) true) [])
    ∙ ap reverse (rw (flags-nil vec) at kept ∙ append-nil (reverse (unseen [] vec)))
    ∙ reverse-reverse (unseen [] vec)
    ∙ ap (unseen []) (vector_loop_lem [] ls)

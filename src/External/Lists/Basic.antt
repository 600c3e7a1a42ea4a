-- ===== src/External/Lists/Basic.antt =====
-- The list functions that walk a list once.
use mathlib.Core.List.{reverse, reverse-cons, reverse-append, reverse-reverse}
use mathlib.Core.Path.{ap₂}
use meldtools.Common.{
  ℕ, ◌+◌, ◌-◌, ◌%◌, ◌≤◌, ◌<◌, ◌≡◌, refl, sym, ap, ◌∙◌, ◌↔◌, Bool, List, [], ◌∷◌, ◌++◌, append_assoc,
  append-nil, arith, ◌==◌, if◌then◌else◌, length, get_elem?, u32_mod, suc, inl, inr, Bool-cases,
}
use meldtools.External.Lists.{
  diff_loop, has_value, intlistappend, intlistdiff, intlistequal, intlistlength, intlistnth,
  length_loop, nodelistremove, nodelistreverse, nth_loop, push_loop, remove_loop, count_loop,
  nodelistcount, vector_loop,
}
use meldtools.Runtime.List.{from_stack_to_list_lem, from_stack_to_reverse_list_lem}

-- The elements that fail a test, in order.
abbrev pub reject : (ℕ → Bool) → List ℕ → List ℕ
reject drops [] = []
reject drops (x ∷ xs) = if drops x then reject drops xs else x ∷ reject drops xs

push_loop_lem : (s p : List ℕ) → push_loop s p ≡ reverse p ++ s
unfolding push_loop
push_loop_lem s [] = refl
push_loop_lem s (x ∷ p) =
    push_loop_lem (x ∷ s) p ∙ sym (rw (reverse-cons x p) (append_assoc (reverse p) (x ∷ []) s))

-- Append yields the elements of both lists in order.
pub intlistappend_lem : (ls1 ls2 : List ℕ) → intlistappend ls1 ls2 ≡ ls1 ++ ls2
unfolding intlistappend
intlistappend_lem ls1 ls2 =
    from_stack_to_list_lem (push_loop (push_loop [] ls1) ls2)
    ∙ ap reverse (push_loop_lem (push_loop [] ls1) ls2)
    ∙ reverse-append (reverse ls2) (push_loop [] ls1)
    ∙ ap₂ ◌++◌ (ap reverse (push_loop_lem [] ls1 ∙ append-nil (reverse ls1)) ∙ reverse-reverse ls1)
        (reverse-reverse ls2)

-- Reverse yields the elements in reverse order.
pub nodelistreverse_lem : (ls : List ℕ) → nodelistreverse ls ≡ reverse ls
unfolding nodelistreverse
nodelistreverse_lem ls =
    from_stack_to_reverse_list_lem (push_loop [] ls) ∙ push_loop_lem [] ls ∙ append-nil (reverse ls)

-- A loop that pushes what passes a test.
diff_loop_lem : (ls2 s p : List ℕ) → diff_loop ls2 s p ≡ reverse (reject (has_value ls2) p) ++ s
unfolding diff_loop
diff_loop_lem ls2 s [] = refl
diff_loop_lem ls2 s (x ∷ p) = ground (
  arith,
  diff_loop_lem ls2 s p,
  diff_loop_lem ls2 (x ∷ s) p,
  reverse-cons x (reject (has_value ls2) p),
  append_assoc (reverse (reject (has_value ls2) p)) (x ∷ []) s,
)

-- The difference keeps, in order, the elements of the first list that the second does not have.
pub intlistdiff_lem : (ls1 ls2 : List ℕ) → intlistdiff ls1 ls2 ≡ reject (has_value ls2) ls1
unfolding intlistdiff
intlistdiff_lem ls1 ls2 =
    from_stack_to_list_lem (diff_loop ls2 [] ls1)
    ∙ ap reverse (diff_loop_lem ls2 [] ls1 ∙ append-nil (reverse (reject (has_value ls2) ls1)))
    ∙ reverse-reverse (reject (has_value ls2) ls1)

remove_loop_lem : (n : ℕ) (s p : List ℕ) → remove_loop n s p ≡ reverse (reject (λ x. x == n) p) ++ s
unfolding remove_loop
remove_loop_lem n s [] = refl
remove_loop_lem n s (x ∷ p) = ground (
  arith,
  remove_loop_lem n s p,
  remove_loop_lem n (x ∷ s) p,
  reverse-cons x (reject (λ x. x == n) p),
  append_assoc (reverse (reject (λ x. x == n) p)) (x ∷ []) s,
)

-- Remove drops every occurrence of the node.
pub nodelistremove_lem : (ls : List ℕ) (n : ℕ) → nodelistremove ls n ≡ reject (λ x. x == n) ls
unfolding nodelistremove
nodelistremove_lem ls n =
    from_stack_to_list_lem (remove_loop n [] ls)
    ∙ ap reverse (remove_loop_lem n [] ls ∙ append-nil (reverse (reject (λ x. x == n) ls)))
    ∙ reverse-reverse (reject (λ x. x == n) ls)

length_loop_lem :
    (total : ℕ) (ls : List ℕ)
    → total < u32_mod
    → length_loop total ls ≡ (total + length ls) % u32_mod
unfolding length_loop
length_loop_lem total [] h = omega arith
length_loop_lem total (x ∷ ls) h =
    omega (arith, length_loop_lem ((total + 1) % u32_mod) ls (omega arith))

-- The length wraps around at 2^32.
pub intlistlength_lem : (ls : List ℕ) → intlistlength ls ≡ length ls % u32_mod
unfolding intlistlength
intlistlength_lem ls = omega (arith, length_loop_lem 0 ls (omega arith))

-- Two lists are equal for a Meld program exactly when they are the same list.
pub intlistequal_iff : (ls1 ls2 : List ℕ) → (intlistequal ls1 ls2 ≡ 1) ↔ (ls1 ≡ ls2)
unfolding intlistequal
intlistequal_iff [] [] = (λ _. refl, λ _. refl)
intlistequal_iff [] (y ∷ ls2) = (λ e. absurd (omega arith), λ e. cc)
intlistequal_iff (x ∷ ls1) [] = (λ e. absurd (omega arith), λ e. cc)
intlistequal_iff (x ∷ ls1) (y ∷ ls2) = ground (arith, intlistequal_iff ls1 ls2)

nth_loop_lem :
    (v count : ℕ) (ls : List ℕ)
    → count ≤ v
    → v < u32_mod
    → nth_loop v count ls ≡ get_elem? ls (v - count)
unfolding nth_loop
nth_loop_lem v count [] h k = refl
nth_loop_lem v count (x ∷ ls) h k = elim (Bool-cases (count == v)) [
  | inl here ↦ let e : v - count ≡ 0 = ground arith in rw (here, e)
  | inr further ↦
      let below : count < v = ground arith in
      let e : v - count ≡ suc (v - (count + 1)) = omega arith in
      let step : (count + 1) % u32_mod ≡ count + 1 = omega arith in
      rw (further, e, step) (nth_loop_lem v (count + 1) ls (omega arith) k)
]

-- The element at an index, or the failed assertion behind the end.
pub intlistnth_lem : (ls : List ℕ) (v : ℕ) → v < u32_mod → intlistnth ls v ≡ get_elem? ls v
unfolding intlistnth
intlistnth_lem ls v h = nth_loop_lem v 0 ls (omega arith) h ∙ ap (get_elem? ls) (omega arith)

-- How often a list has an element.
abbrev pub occurs : ℕ → List ℕ → ℕ
occurs n [] = 0
occurs n (x ∷ xs) = if x == n then suc (occurs n xs) else occurs n xs

count_loop_lem :
    (el total : ℕ) (ls : List ℕ)
    → total < u32_mod
    → count_loop el total ls ≡ (total + occurs el ls) % u32_mod
unfolding count_loop
count_loop_lem el total [] h = omega arith
count_loop_lem el total (x ∷ ls) h = elim (Bool-cases (x == el)) [
  | inl hit ↦
      rw (hit, count_loop)
        (omega (arith, count_loop_lem el ((total + 1) % u32_mod) ls (omega arith)))
  | inr miss ↦ rw (miss, count_loop) (count_loop_lem el total ls h)
]

-- The count wraps around at 2^32.
pub nodelistcount_lem : (ls : List ℕ) (el : ℕ) → nodelistcount ls el ≡ occurs el ls % u32_mod
unfolding nodelistcount
nodelistcount_lem ls el = omega (arith, count_loop_lem el 0 ls (omega arith))

pub vector_loop_lem : (vec p : List ℕ) → vector_loop vec p ≡ vec ++ p
unfolding vector_loop
vector_loop_lem vec [] = sym (append-nil vec)
vector_loop_lem vec (x ∷ p) = vector_loop_lem (vec ++ x ∷ []) p ∙ append_assoc vec (x ∷ []) p

-- ===== src/External/Lists.antt =====
-- predicates/external/lists.cpp. A stack is a list with its top first, a vector a list from index 0.
-- Counters of type `int_val` are 32-bit patterns that wrap around. `none` is a failed assertion.
pub mod Basic
pub mod Slices
pub mod Sorting
pub mod Duplicates
mod Tests
use meldtools.Common.{
  ℕ, ◌+◌, ◌%◌, Bool, true, false, Option, none, some, List, [], ◌∷◌, ◌++◌, ltb, ◌==◌, if◌then◌else◌,
  length, replicate, u32_mod,
}
use meldtools.Runtime.List.{
  from_stack_to_list, from_stack_to_reverse_list, from_vector_to_reverse_list,
}

-- `<` on `int_val`: the order of the patterns with the sign bit turned.
abbrev pub shift : ℕ → ℕ
shift a = (a + 2147483648) % u32_mod

abbrev pub int_ltb : ℕ → ℕ → Bool
int_ltb a b = ltb (shift a) (shift b)

length_loop : ℕ → List ℕ → ℕ
length_loop total [] = total
length_loop total (x ∷ p) = length_loop ((total + 1) % u32_mod) p

-- `intlistlength` and `nodelistlength`
unfoldable pub intlistlength : List ℕ → ℕ
unfolding length_loop
intlistlength ls = length_loop 0 ls

unfoldable pub has_value : List ℕ → ℕ → Bool
has_value [] v = false
has_value (x ∷ l) v = if x == v then true else has_value l v

diff_loop : List ℕ → List ℕ → List ℕ → List ℕ
diff_loop ls2 s [] = s
diff_loop ls2 s (x ∷ p) = diff_loop ls2 (if has_value ls2 x then s else x ∷ s) p

unfoldable pub intlistdiff : List ℕ → List ℕ → List ℕ
unfolding diff_loop
intlistdiff ls1 ls2 = from_stack_to_list (diff_loop ls2 [] ls1)

nth_loop : ℕ → ℕ → List ℕ → Option ℕ
nth_loop v count [] = none
nth_loop v count (x ∷ p) =
    let rest = nth_loop v ((count + 1) % u32_mod) p in if count == v then some x else rest

unfoldable pub intlistnth : List ℕ → ℕ → Option ℕ
unfolding nth_loop
intlistnth ls v = nth_loop v 0 ls

remove_loop : ℕ → List ℕ → List ℕ → List ℕ
remove_loop n s [] = s
remove_loop n s (x ∷ p) = remove_loop n (if x == n then s else x ∷ s) p

unfoldable pub nodelistremove : List ℕ → ℕ → List ℕ
unfolding remove_loop
nodelistremove ls n = from_stack_to_list (remove_loop n [] ls)

-- The first loop of `intlistsub`: the rest of the list, and the counter.
skip_loop : ℕ → List ℕ → ℕ → List ℕ × ℕ
skip_loop a [] ctn = ([], ctn)
skip_loop a (x ∷ ls) ctn =
    let rest = skip_loop a ls ((ctn + 1) % u32_mod) in if int_ltb ctn a then rest else (x ∷ ls, ctn)

-- The second.
keep_loop : ℕ → List ℕ → ℕ → List ℕ → List ℕ
keep_loop b [] ctn s = s
keep_loop b (x ∷ ls) ctn s =
    let rest = keep_loop b ls ((ctn + 1) % u32_mod) (x ∷ s) in if int_ltb ctn b then rest else s

unfoldable pub intlistsub : List ℕ → ℕ → ℕ → List ℕ
unfolding skip_loop keep_loop
intlistsub p a b = let (ls, ctn) = skip_loop a p 0 in from_stack_to_list (keep_loop b ls ctn [])

push_loop : List ℕ → List ℕ → List ℕ
push_loop s [] = s
push_loop s (x ∷ p) = push_loop (x ∷ s) p

-- `intlistappend` and `nodelistappend`
unfoldable pub intlistappend : List ℕ → List ℕ → List ℕ
unfolding push_loop
intlistappend ls1 ls2 = from_stack_to_list (push_loop (push_loop [] ls1) ls2)

-- `cmp_ints`: i > j
unfoldable pub cmp_ints : ℕ → ℕ → Bool
cmp_ints i j = int_ltb j i

-- `std::sort` by an order; of numbers under a total order there is one sorted vector.
sort_insert : (ℕ → ℕ → Bool) → ℕ → List ℕ → List ℕ
sort_insert less x [] = x ∷ []
sort_insert less x (y ∷ ys) = if less y x then y ∷ sort_insert less x ys else x ∷ y ∷ ys

sort : (ℕ → ℕ → Bool) → List ℕ → List ℕ
unfolding sort_insert
sort less [] = []
sort less (x ∷ xs) = sort_insert less x (sort less xs)

-- `vec.push_back` of each element.
pub vector_loop : List ℕ → List ℕ → List ℕ
vector_loop vec [] = vec
vector_loop vec (x ∷ p) = vector_loop (vec ++ x ∷ []) p

unfoldable pub intlistsort : List ℕ → List ℕ
unfolding sort vector_loop
intlistsort ls = from_vector_to_reverse_list (sort cmp_ints (vector_loop [] ls))

-- The inner loop of `intlistremoveduplicates`: marks from index `j` on, with `v` for `vec[i]`.
mark_loop : ℕ → List ℕ → List Bool → List Bool
mark_loop v [] marks = marks
mark_loop v (x ∷ vec) [] = []
mark_loop v (x ∷ vec) (m ∷ marks) = (if x == v then false else m) ∷ mark_loop v vec marks

-- The outer loop, over what is left of `vec` and of `marked`.
keep_marked : List ℕ → List Bool → List ℕ → List ℕ
keep_marked [] marks s = s
keep_marked (x ∷ vec) [] s = s
keep_marked (x ∷ vec) (m ∷ marks) s =
    keep_marked vec (if m then mark_loop x vec marks else marks) (if m then x ∷ s else s)

unfoldable pub intlistremoveduplicates : List ℕ → List ℕ
unfolding keep_marked mark_loop vector_loop
intlistremoveduplicates ls =
    let vec = vector_loop [] ls in
    from_stack_to_list (keep_marked vec (replicate (length vec) true) [])

-- `intlistequal`
unfoldable pub intlistequal : List ℕ → List ℕ → ℕ
intlistequal [] [] = 1
intlistequal [] (y ∷ ls2) = 0
intlistequal (x ∷ ls1) [] = 0
intlistequal (x ∷ ls1) (y ∷ ls2) = if x == y then intlistequal ls1 ls2 else 0

count_loop : ℕ → ℕ → List ℕ → ℕ
count_loop el total [] = total
count_loop el total (x ∷ p) = count_loop el (if x == el then (total + 1) % u32_mod else total) p

unfoldable pub nodelistcount : List ℕ → ℕ → ℕ
unfolding count_loop
nodelistcount ls el = count_loop el 0 ls

unfoldable pub nodelistreverse : List ℕ → List ℕ
unfolding push_loop
nodelistreverse ls = from_stack_to_reverse_list (push_loop [] ls)

last_loop : ℕ → List ℕ → ℕ
last_loop last [] = last
last_loop last (x ∷ p) = last_loop x p

unfoldable pub nodelistlast : List ℕ → ℕ
unfolding last_loop
nodelistlast ls = last_loop 0 ls

-- ===== src/Queue/Bounded.antt =====
-- predicates/queue/bounded_pqueue.hpp and simple_linear_pqueue.hpp: a priority queue for priorities
-- below a bound, a tree of counters over one first-in-first-out bin for each priority. The parent
-- pointers are the nesting of the tree, and `leaves[prio]` is the leaf that build_tree gave that
-- number. Counters are below 2^64. `none` is a failed assertion.
pub mod Powers
pub mod Bins
pub mod Build
pub mod Push
pub mod Take
pub mod Splice
mod Tests
use meldtools.Common.{
  ℕ, zero, suc, ◌+◌, ◌-◌, ◌*◌, ◌%◌, true, false, not, Option, none, some, List, [], ◌∷◌, ◌++◌, ltb,
  leb, ◌==◌, if◌then◌else◌, length, ◌>>=◌, ◌>>◌, guard, u64_mod,
}

-- `queue_tree_node`
pub data Tree {ℓ} (A : Type ℓ) : Type ℓ where
  leaf : ℕ → List A → Tree A
  node : ℕ → Tree A → Tree A → Tree A

abbrev pub add64 : ℕ → ℕ → ℕ
add64 a b = (a + b) % u64_mod

abbrev pub sub64 : ℕ → ℕ → ℕ
sub64 a b = (a + u64_mod - b) % u64_mod

-- `utils::next_power2` and `utils::upper_log2`, whose loops double a 64-bit number.
double_up : ℕ → ℕ → ℕ → Option ℕ
double_up zero val ret = none
double_up (suc fuel) val ret =
    let again = double_up fuel val (ret * 2 % u64_mod) in if ltb ret val then again else some ret

unfoldable pub next_power2 : ℕ → Option ℕ
unfolding double_up
next_power2 val = double_up 64 val 1

count_up : ℕ → ℕ → ℕ → ℕ → Option ℕ
count_up zero n i m = none
count_up (suc fuel) n i m =
    let again = count_up fuel n (i + 1) (m * 2 % u64_mod) in if leb n m then some i else again

unfoldable pub upper_log2 : ℕ → Option ℕ
unfolding count_up
upper_log2 n = if ltb 0 n then count_up 64 n 0 1 else some (u64_mod - 1)

module _ {ℓ} {A : Type ℓ} where
  unfoldable pub build_tree : ℕ → ℕ → Tree A
  build_tree zero prio = leaf prio []
  build_tree (suc height) prio =
      node 0 (build_tree height (2 * prio)) (build_tree height (2 * prio + 1))

  -- The elements go to the end of the bin of leaf `prio`; on the way up to the root, the counter of
  -- a parent whose left child is left grows. `none`: the leaf is not in this tree.
  unfoldable pub add_to_leaf : ℕ → List A → Tree A → Option (Tree A)
  add_to_leaf prio xs (leaf p bin) = if p == prio then some (leaf p (bin ++ xs)) else none
  add_to_leaf prio xs (node c l r) = elim (add_to_leaf prio xs l) [
    | some l' ↦ some (node (add64 c (length xs)) l' r)
    | none ↦ elim (add_to_leaf prio xs r) [ some r' ↦ some (node c l r') | none ↦ none ]
  ]

  -- The walk of `pop`: counters on the way to the left are decremented.
  unfoldable pub pop_leaf : Tree A → Option (A × Tree A)
  pop_leaf (leaf p []) = none
  pop_leaf (leaf p (x ∷ bin)) = some (x, leaf p bin)
  pop_leaf (node c l r) = elim (ltb 0 c) [
    | true ↦ elim (pop_leaf l) [ some (x, l') ↦ some (x, node (sub64 c 1) l' r) | none ↦ none ]
    | false ↦ elim (pop_leaf r) [ some (x, r') ↦ some (x, node c l r') | none ↦ none ]
  ]

  -- The walk of `top`.
  unfoldable pub top_leaf : Tree A → Option A
  top_leaf (leaf p []) = none
  top_leaf (leaf p (x ∷ bin)) = some x
  top_leaf (node c l r) = elim (ltb 0 c) [ true ↦ top_leaf l | false ↦ top_leaf r ]

  -- The walk of `top_list` with `held` elements in `vec` before: the bin is moved to the end of
  -- `vec`, and the size of `vec` is subtracted on the way up.
  unfoldable pub take_leaf : ℕ → Tree A → Option (List A × Tree A)
  take_leaf held (leaf p []) = none
  take_leaf held (leaf p (x ∷ bin)) = some (x ∷ bin, leaf p [])
  take_leaf held (node c l r) = elim (ltb 0 c) [
    | true ↦ elim (take_leaf held l) [
      | some (xs, l') ↦ some (xs, node (sub64 c (held + length xs)) l' r)
      | none ↦ none
    ]
    | false ↦ elim (take_leaf held r) [ some (xs, r') ↦ some (xs, node c l r') | none ↦ none ]
  ]

-- `bounded_pqueue`; of the vector `leaves` only the size is left.
pub record BoundedPqueue {ℓ} (A : Type ℓ) : Type ℓ where
  pub root : Tree A
  pub leaves : ℕ
  pub total : ℕ
  pub range : ℕ

module _ {ℓ} {A : Type ℓ} where
  -- The constructor.
  pub new : ℕ → Option (BoundedPqueue A)
  new range = do
    guard (ltb 0 range)
    number_leaves ← next_power2 range
    guard (leb range number_leaves)
    height ← upper_log2 number_leaves
    some (record { root = build_tree height 0; leaves = number_leaves; total = 0; range = range })

  pub push : BoundedPqueue A → A → ℕ → Option (BoundedPqueue A)
  push q item prio = do
    guard (ltb prio q.leaves)
    root ← add_to_leaf prio (item ∷ []) q.root
    some (record q { root = root; total = add64 q.total 1 })

  pub pop : BoundedPqueue A → Option (A × BoundedPqueue A)
  pop q = do
    guard (not (q.total == 0))
    (x, root) ← pop_leaf q.root
    guard (ltb 0 q.total)
    some (x, record q { root = root; total = sub64 q.total 1 })

  pub top : BoundedPqueue A → Option A
  top q = top_leaf q.root

  -- The vector `vec` afterwards, and the queue.
  pub top_list : BoundedPqueue A → List A → Option (List A × BoundedPqueue A)
  top_list q vec = if q.total == 0 then some (vec, q) else do
    (xs, root) ← take_leaf (length vec) q.root
    let total = sub64 q.total (length vec + length xs)
    some (vec ++ xs, record q { root = root; total = total })

  pub push_queue : BoundedPqueue A → List A → ℕ → Option (BoundedPqueue A)
  push_queue q xs prio = do
    guard (ltb 0 (length xs))
    guard (ltb prio q.leaves)
    root ← add_to_leaf prio xs q.root
    some (record q { root = root; total = add64 q.total (length xs) })

-- `simple_linear_pqueue`: a queue for each priority.
pub record SimplePqueue {ℓ} (A : Type ℓ) : Type ℓ where
  pub queues : List (List A)
  pub total : ℕ

module _ {ℓ} {A : Type ℓ} where
  -- The loop of `splice` from priority `i` on, with `left` rounds to go: `get_queue(i)` asserts that
  -- there is a queue.
  splice_loop : ℕ → ℕ → List (List A) → BoundedPqueue A → Option (BoundedPqueue A)
  splice_loop zero i queues q = some q
  splice_loop (suc left) i [] q = none
  splice_loop (suc left) i ([] ∷ queues) q = splice_loop left (suc i) queues q
  splice_loop (suc left) i ((x ∷ xs) ∷ queues) q =
      push_queue q (x ∷ xs) i >>= splice_loop left (suc i) queues

  -- The other queue keeps its own pointers, which its client clears.
  pub splice : BoundedPqueue A → SimplePqueue A → Option (BoundedPqueue A)
  unfolding splice_loop
  splice q other = do guard (not (other.total == 0)); splice_loop q.range 0 other.queues q

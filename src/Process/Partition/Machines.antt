-- ===== src/Process/Partition/Machines.antt =====
-- The ranges of nodes of the machines, as set_nodes_total gives them out.
use native.Mathlib.Nat.{
  mul-le-mul_right, div-mul-le_self, mul_comm, lt-div-mul-add, le-div_iff_mul-le,
}
use meldtools.Process.Partition.{
  Remote, cache_each, cache_values, Router, find_remote, set_nodes_total,
}
use mathlib.Core.Option
use meldtools.Common.{
  Bool-cases, inl, inr, subst, lt→ltb, Bool, true, false, u64_mod, ℕ, suc, ◌+◌, ◌-◌, ◌*◌, ◌/◌, ◌≤◌,
  ◌<◌, ◌≡◌, refl, some, List, [], ◌∷◌, arith, ◌==◌, if◌then◌else◌, length, get_elem?, u32_mod, zero,
  ◌%◌, ap, get_elem?_total,
}
use Prim.Native.Nat.{min}

-- The machines have their places, from `i` on, as ranks.
abbrev pub IsRanked : ℕ → List Remote → Type 0
IsRanked i [] = Unit
IsRanked i (r ∷ rs) = (r.addr ≡ i) × IsRanked (suc i) rs

-- What a machine caches as number `i` of `w`, each of which has `each` nodes of `total`, and the
-- last one those that are left over.
abbrev IsShare : ℕ → ℕ → ℕ → ℕ → Remote → Type 0
IsShare w each total i r =
    (r.nodes_base ≡ i * each)
    × (r.total_nodes ≡ (if i + 1 == w then each + (total - each * w) else each))
    × (r.nodes_per_proc ≡ r.total_nodes / r.num_threads)

-- The machines are the shares from number `i` on.
abbrev AreShares : ℕ → ℕ → ℕ → ℕ → List Remote → Type 0
AreShares w each total i [] = Unit
AreShares w each total i (r ∷ rs) = IsShare w each total i r × AreShares w each total (suc i) rs

cache_values-IsShare :
    (w each total i : ℕ) (r : Remote)
    → r.addr ≡ i
    → i < w
    → each * w ≤ total
    → 0 < each
    → total < u32_mod
    → (s : Remote) × (cache_values w each total r ≡ some s) × IsShare w each total i s
unfolding cache_values
cache_values-IsShare w each total i r e below fits some_nodes few =
    let before : i * each ≤ w * each = mul-le-mul_right each (omega arith) in
    let base : i * each % u64_mod ≡ i * each = omega (arith, before, mul_comm w each) in
    let size = if i + 1 == w then each + (total - each * w) else each in
    (
      record r {
        last_one = i + 1 == w;
        total_nodes = size;
        nodes_base = i * each;
        nodes_per_proc = size / r.num_threads;
      },
      rw (e, base, same_size (i + 1 == w), lt→ltb 0 size (has_nodes (i + 1 == w))),
      (refl, refl, refl),
    )
  where
    same_size :
        (last : Bool)
        → (if last
            then (each + (total + u64_mod - each * w % u64_mod) % u64_mod) % u64_mod
            else each)
          ≡ (if last then each + (total - each * w) else each)
    same_size true =
        omega (arith, mul-le-mul_right {m = 1} {n = w} each (omega arith), mul_comm w each)
    same_size false = refl

    has_nodes : (last : Bool) → 0 < (if last then each + (total - each * w) else each)
    has_nodes true = omega arith
    has_nodes false = some_nodes

cache_each-AreShares :
    (w each total i : ℕ) (rs : List Remote)
    → IsRanked i rs
    → i + length rs ≤ w
    → each * w ≤ total
    → 0 < each
    → total < u32_mod
    → (ss : List Remote) × (cache_each w each total rs ≡ some ss)
      × (length ss ≡ length rs)
      × AreShares w each total i ss
unfolding cache_each
cache_each-AreShares w each total i [] k le fits some_nodes few = ([], refl, refl, tt)
cache_each-AreShares w each total i (r ∷ rs) (e, k) le fits some_nodes few =
    let (s, f, is) = cache_values-IsShare w each total i r e (omega arith) fits some_nodes few in
    let (ss, g, l, are) =
      cache_each-AreShares w each total (suc i) rs k (omega arith) fits some_nodes few in
    (s ∷ ss, rw (f, g), ap suc l, (is, are))

get_elem?-AreShares :
    (w each total i : ℕ) (ss : List Remote) (j : ℕ) {s : Remote}
    → AreShares w each total i ss
    → get_elem? ss j ≡ some s
    → IsShare w each total (i + j) s
get_elem?-AreShares w each total i [] j a h = absurd (ground arith)
get_elem?-AreShares w each total i (r ∷ ss) zero {s} a h =
    subst (IsShare w each total (i + zero)) (Option.some-injective r s h)
      (subst (λ k. IsShare w each total k r) (omega arith) a.0)
get_elem?-AreShares w each total i (r ∷ ss) (suc j) {s} a h =
    subst (λ k. IsShare w each total k s) (omega arith)
      (get_elem?-AreShares w each total (suc i) ss j (a.1) h)

next : (j n : ℕ) → (j + 1) * n ≡ j * n + n
next j n = grind arith

-- With more than one machine, as many as the list has, each at its rank, and at least as many nodes
-- as machines, below 2 ^ 32, set_nodes_total succeeds, and the machine that find_remote then finds
-- for a node has the node in its range, and its nodes divided by its threads as the share of each.
pub set_nodes_total_lem :
    (m : Router) (self : Remote) (total id : ℕ)
    → 1 < m.world_size
    → length m.remote_list ≡ m.world_size
    → IsRanked 0 m.remote_list
    → m.world_size ≤ total
    → total < u32_mod
    → id < total
    → (m' : Router) × (r : Remote) × (set_nodes_total m total ≡ some m')
      × (find_remote self m' id ≡ some r)
      × (r.nodes_base ≤ id)
      × (id < r.nodes_base + r.total_nodes)
      × (r.nodes_per_proc ≡ r.total_nodes / r.num_threads)
unfolding set_nodes_total find_remote
set_nodes_total_lem m self total id many long ranked enough few below =
    let w = m.world_size in
    let each = total / w in
    let some_nodes : 0 < total / w = (le-div_iff_mul-le {x = 1} (omega arith)).1 (omega arith) in
    let (ss, e, l, are) =
      cache_each-AreShares w each total 0 m.remote_list ranked (omega arith)
        (div-mul-le_self total w) some_nodes few in
    let j = min (id / each) (w - 1) in
    let (s, f) = get_elem?_total ss j (omega arith) in
    let share = get_elem?-AreShares w each total 0 ss j are f in
    let in_share : id < s.nodes_base + s.total_nodes = elim (Bool-cases (j + 1 == w)) [
      | inl b ↦
          let last : j + 1 ≡ w = ground arith in
          let size : s.total_nodes ≡ each + (total - each * w) = ground (arith, share.1, b) in
          omega (
            arith,
            share.0,
            size,
            ap (λ k. k * each) last,
            next j each,
            mul_comm w each,
            div-mul-le_self total w,
          )
      | inr b ↦
          let inner : j ≡ id / each = ground arith in
          let size : s.total_nodes ≡ each = ground (arith, share.1, b) in
          omega (arith, share.0, size, ap (λ k. k * each) inner, lt-div-mul-add {a = id} some_nodes)
    ] in
    (
      record m { nodes_per_remote = each; remote_list = ss },
      s,
      ground (arith, e, some_nodes),
      ground (arith, many, f),
      omega (
        arith,
        share.0,
        mul-le-mul_right {m = j} {n = id / each} each (omega arith),
        div-mul-le_self id each,
      ),
      in_share,
      share.2,
    )

-- ===== src/Process/Partition/Threads.antt =====
-- The ranges of nodes of the threads of one machine.
use native.Mathlib.Omega.{div_any}
use native.Mathlib.Nat.{mod-lt, mul-le-mul_right, le-div_iff_mul-le, div-lt_iff_lt-mul}
use meldtools.Process.Partition.{Remote, find_first_node, find_last_node, find_proc_owner}
use meldtools.Common.{
  ℕ, ◌+◌, ◌/◌, ◌≤◌, ◌<◌, ◌≡◌, some, u32_mod, ◌-◌, ◌*◌, inl, inr, arith, ltb, Bool-cases, u16_mod,
  ◌%◌, ap, ◌∙◌, ◌==◌, if◌then◌else◌, ltb→lt, u64_mod, false,
}
use Prim.Native.Nat.{min}

-- The values of a machine agree with each other, its nodes have numbers below 2 ^ 32, and it has
-- fewer than 2 ^ 16 threads, but one at least.
abbrev pub IsCached : Remote → Type 0
IsCached r =
    (r.nodes_per_proc ≡ r.total_nodes / r.num_threads)
    × (r.nodes_base + r.total_nodes < u32_mod)
    × (0 < r.num_threads)
    × (r.num_threads < u16_mod)

-- The first numbers of up to as many threads as there are.
find_first_node-place :
    (r : Remote) (p : ℕ)
    → IsCached r
    → p ≤ r.num_threads
    → (find_first_node r p ≡ r.nodes_base + p * r.nodes_per_proc)
      × (p * r.nodes_per_proc ≤ r.total_nodes)
unfolding find_first_node
find_first_node-place r p (e, room, some_threads, few) le =
    let whole = div_any r.total_nodes r.num_threads in
    let fits : p * r.nodes_per_proc ≤ r.total_nodes =
      omega (arith, whole, ap (λ k. r.num_threads * k) e, mul-le-mul_right r.nodes_per_proc le) in
    (omega arith, fits)

find_proc_owner-min :
    (r : Remote) (id : ℕ)
    → IsCached r
    → 0 < r.nodes_per_proc
    → r.nodes_base ≤ id
    → id < r.nodes_base + r.total_nodes
    → find_proc_owner r id ≡ some (min ((id - r.nodes_base) / r.nodes_per_proc) (r.num_threads - 1))
unfolding find_proc_owner
find_proc_owner-min r id (e, room, some_threads, few) each ge lt =
    let local : (id + u64_mod - r.nodes_base) % u64_mod % u32_mod ≡ id - r.nodes_base =
      omega arith in
    let m = min ((id - r.nodes_base) / r.nodes_per_proc) (r.num_threads - 1) in
    let short : m % u16_mod ≡ m = omega arith in
    ground (
      arith,
      local,
      short,
      ap (λ a. min (a / r.nodes_per_proc) (r.num_threads - 1) % u16_mod) local,
    )

find_last_node-place :
    (r : Remote) (p : ℕ)
    → IsCached r
    → p < r.num_threads
    → find_last_node r p ≡ (
        if r.num_threads - 1 == p
        then r.nodes_base + r.total_nodes
        else r.nodes_base + (p + 1) * r.nodes_per_proc)
unfolding find_last_node
find_last_node-place r p c lt =
    let next : (p + 1) % u16_mod ≡ p + 1 = omega (arith, c.3) in
    let end : (r.nodes_base + r.total_nodes) % u64_mod % u32_mod ≡ r.nodes_base + r.total_nodes =
      omega (arith, c.1) in
    rw (next, end, (find_first_node-place r (p + 1) c (omega arith)).0)

successor : (q k : ℕ) → (q + 1) * k ≡ k * q + k
successor q k = grind arith

not_below : (a b : ℕ) → ltb a b ≡ false → b ≤ a
not_below a b h = ground arith

-- A node of a machine whose values agree, with numbers below 2 ^ 32, fewer than 2 ^ 16 threads and a
-- node at least for each, is owned by one of its threads, and its number is in that thread's range.
pub find_proc_owner_lem :
    (r : Remote) (id : ℕ)
    → IsCached r
    → 0 < r.nodes_per_proc
    → r.nodes_base ≤ id
    → id < r.nodes_base + r.total_nodes
    → (p : ℕ) × (find_proc_owner r id ≡ some p)
      × (p < r.num_threads)
      × (find_first_node r p ≤ id)
      × (id < find_last_node r p)
find_proc_owner_lem r id c each ge lt =
    let k = r.nodes_per_proc in
    let q = (id - r.nodes_base) / k in
    let split = div_any (id - r.nodes_base) k in
    let rest = mod-lt (id - r.nodes_base) each in
    let owner = find_proc_owner-min r id c each ge lt in
    elim (Bool-cases (ltb q (r.num_threads - 1))) [
      | inl b ↦
          let below = ltb→lt q (r.num_threads - 1) b in
          (
            q,
            owner ∙ ap some (omega arith),
            omega arith,
            omega (arith, find_first_node-place r q c (omega arith)),
            ground (arith, find_last_node-place r q c (omega arith), split, rest, successor q k),
          )
      | inr b ↦
          let above = not_below q (r.num_threads - 1) b in
          let p = r.num_threads - 1 in
          (
            p,
            owner ∙ ap some (omega arith),
            omega arith,
            omega
                (arith, find_first_node-place r p c (omega arith), mul-le-mul_right k above, split),
            ground (arith, find_last_node-place r p c (omega arith)),
          )
    ]

-- On such a machine, a thread whose range has the number of a node of the machine is the one that
-- find_proc_owner finds.
pub find_proc_owner_unique :
    (r : Remote) (id p : ℕ)
    → IsCached r
    → 0 < r.nodes_per_proc
    → r.nodes_base ≤ id
    → id < r.nodes_base + r.total_nodes
    → p < r.num_threads
    → find_first_node r p ≤ id
    → id < find_last_node r p
    → find_proc_owner r id ≡ some p
find_proc_owner_unique r id p c each ge lt thread from to =
    let k = r.nodes_per_proc in
    let q = (id - r.nodes_base) / k in
    let start = (find_first_node-place r p c (omega arith)).0 in
    let end = find_last_node-place r p c thread in
    let above : p ≤ q = (le-div_iff_mul-le {x = p} each).1 (omega (arith, start)) in
    let least : min q (r.num_threads - 1) ≡ p = elim (Bool-cases (r.num_threads - 1 == p)) [
      | inl b ↦ let last : r.num_threads - 1 ≡ p = ground arith in omega arith
      | inr b ↦
          let inner : id < r.nodes_base + (p + 1) * k = ground (arith, end, b) in
          let below : q < p + 1 = (div-lt_iff_lt-mul {y = p + 1} each).1 (omega arith) in
          omega arith
    ] in
    find_proc_owner-min r id c each ge lt ∙ ap some least

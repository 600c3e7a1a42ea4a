-- ===== src/Process/Partition.antt =====
-- predicates/process/router.cpp and remote.hpp: which machine, and which of its threads, owns a node.
-- `size_t` has 64 bits, a node's number 32, a thread's 16. The machines are compiled with MPI and
-- without USE_SIM. `none` is a failed assertion or a thrown error.
pub mod Machines
pub mod Threads
mod Tests
use meldtools.Common.{
  ℕ, ◌+◌, ◌-◌, ◌*◌, ◌/◌, ◌%◌, Bool, not, Option, some, List, [], ◌∷◌, ltb, ◌==◌, if◌then◌else◌,
  get_elem?, ◌>>=◌, ◌>>◌, guard, u32_mod, u64_mod, u16_mod,
}
use Prim.Native.Nat.{min}

-- `remote`
pub record Remote : Type 0 where
  pub addr : ℕ
  pub num_threads : ℕ
  pub last_one : Bool
  pub total_nodes : ℕ
  pub nodes_base : ℕ
  pub nodes_per_proc : ℕ

abbrev sub_words : ℕ → ℕ → ℕ
sub_words a b = (a + u64_mod - b) % u64_mod

pub cache_values : ℕ → ℕ → ℕ → Remote → Option Remote
cache_values world_size nodes_per_remote nodes_total r =
    let last = r.addr + 1 == world_size in
    let rest = sub_words nodes_total (nodes_per_remote * world_size % u64_mod) in
    let total = if last then (nodes_per_remote + rest) % u64_mod else nodes_per_remote in
    do
      guard (ltb 0 total)
      some (record r {
        last_one = last;
        total_nodes = total;
        nodes_base = r.addr * nodes_per_remote % u64_mod;
        nodes_per_proc = total / r.num_threads;
      })

-- `router`, of which `remote_list` has `world_size` entries.
pub record Router : Type 0 where
  pub world_size : ℕ
  pub nodes_per_remote : ℕ
  pub remote_list : List Remote

cache_each : ℕ → ℕ → ℕ → List Remote → Option (List Remote)
cache_each world_size nodes_per_remote total [] = some []
cache_each world_size nodes_per_remote total (r ∷ rs) = do
  r' ← cache_values world_size nodes_per_remote total r
  rs' ← cache_each world_size nodes_per_remote total rs
  some (r' ∷ rs')

pub set_nodes_total : Router → ℕ → Option Router
unfolding cache_each
set_nodes_total m total = do
  let each = total / m.world_size
  guard (not (each == 0))
  remotes ← cache_each m.world_size each total m.remote_list
  some (record m { nodes_per_remote = each; remote_list = remotes })

-- `self` is `remote::self`, the machine that runs.
pub find_remote : Remote → Router → ℕ → Option Remote
find_remote self m id = if not (ltb 1 m.world_size) then some self else do
  guard (ltb 0 m.nodes_per_remote)
  get_elem? m.remote_list (min (id / m.nodes_per_remote) (m.world_size - 1))

pub find_proc_owner : Remote → ℕ → Option ℕ
find_proc_owner r id = do
  guard (not (r.nodes_per_proc == 0))
  let remote_node_id = sub_words id r.nodes_base % u32_mod
  some (min (remote_node_id / r.nodes_per_proc) (r.num_threads - 1) % u16_mod)

pub find_first_node : Remote → ℕ → ℕ
find_first_node r id = (r.nodes_base + id * r.nodes_per_proc) % u64_mod % u32_mod

pub find_last_node : Remote → ℕ → ℕ
find_last_node r id =
    if r.num_threads - 1 == id
    then (r.nodes_base + r.total_nodes) % u64_mod % u32_mod
    else find_first_node r ((id + 1) % u16_mod)

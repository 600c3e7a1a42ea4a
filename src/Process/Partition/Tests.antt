-- ===== src/Process/Partition/Tests.antt =====
-- Two machines of two threads each, and five nodes.
use meldtools.Process.Partition.{
  Remote, Router, find_first_node, find_last_node, find_proc_owner, find_remote, set_nodes_total,
}
use meldtools.Common.{ℕ, ◌+◌, ◌/◌, ◌≤◌, ◌<◌, ◌≡◌, refl, true, false, some, [], ◌∷◌, arith}
use meldtools.Process.Partition.Threads.{IsCached, find_proc_owner_lem}
use meldtools.Process.Partition.Machines.{set_nodes_total_lem}

abbrev machine : ℕ → Remote
machine rank = record {
  addr = rank;
  num_threads = 2;
  last_one = false;
  total_nodes = 0;
  nodes_base = 0;
  nodes_per_proc = 0;
}

abbrev two_machines : Router
two_machines = record {
  world_size = 2;
  nodes_per_remote = 0;
  remote_list = machine 0 ∷ machine 1 ∷ [];
}

-- The second machine, with nodes 2 to 4.
abbrev second : Remote
second = record {
  addr = 1;
  num_threads = 2;
  last_one = true;
  total_nodes = 3;
  nodes_base = 2;
  nodes_per_proc = 1;
}

set_nodes_total_lem_example :
    (m' : Router) × (r : Remote) × (set_nodes_total two_machines 5 ≡ some m')
    × (find_remote (machine 0) m' 4 ≡ some r)
    × (r.nodes_base ≤ 4)
    × (4 < r.nodes_base + r.total_nodes)
    × (r.nodes_per_proc ≡ r.total_nodes / r.num_threads)
set_nodes_total_lem_example =
    set_nodes_total_lem two_machines (machine 0) 5 4 (omega arith) refl (refl, (refl, tt))
      (omega arith) (omega arith) (omega arith)

second-IsCached : IsCached second
second-IsCached = (refl, omega arith, omega arith, omega arith)

find_proc_owner_lem_example :
    (p : ℕ) × (find_proc_owner second 4 ≡ some p)
    × (p < 2)
    × (find_first_node second p ≤ 4)
    × (4 < find_last_node second p)
find_proc_owner_lem_example =
    find_proc_owner_lem second 4 second-IsCached (omega arith) (omega arith) (omega arith)

-- ===== src/Db/Aggregates/Sum.antt =====
-- predicates/db/agg_configuration.cpp: generate_sum_int
use meldtools.Common.{ℕ, ◌+◌, ◌*◌, Option, some, List, [], ◌∷◌, ◌>>=◌}
use meldtools.Db.Trie.Tuples.{SimpleTuple}
use meldtools.Db.Aggregates.{rounds_of}

-- The numbers of the tuples, each as often as the tuple is counted, without bounds.
unfoldable pub whole_sum : {T : Type 0} → (T → Option ℕ) → List (SimpleTuple T) → Option ℕ
whole_sum read [] = some 0
whole_sum read (s ∷ rest) = read s.data_of >>= λ v.
    whole_sum read rest >>= λ sum_val. some (rounds_of s.count * v + sum_val)

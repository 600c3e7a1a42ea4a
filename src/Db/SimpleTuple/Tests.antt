-- ===== src/Db/SimpleTuple/Tests.antt =====
-- A simple_tuple in a buffer.
use meldtools.Common.{ℕ, ◌≡◌, ◌∷◌, ◌++◌, [], List, refl, arith, length, replicate, true}
use meldtools.Db.SimpleTuple.{SimpleTuple, new_simple, pack, storage_size, unpack}
use meldtools.Db.SimpleTuple.RoundTrip.{unpack-pack_simple}
use meldtools.Runtime.List.Pack.{size_list}
use meldtools.Runtime.List.Serial.{word_bytes}
use meldtools.Vm.Exec.{done}
use meldtools.Vm.Exec.Matches.{type_float, type_list_node, type_node}
use meldtools.Vm.Tuple.{Predicate, Tuple, get_storage_size, of_float, of_node, of_nodes, size_loop}
use meldtools.Vm.Tuple.Bytes.{fields_bytes, is_float, is_node, is_nodes, none_left, one_more}
use meldtools.Vm.Tuple.RoundTrip.{IsTuple}

abbrev path : Predicate
path = record { id = 0; types = type_float ∷ type_list_node ∷ type_node ∷ [] }

abbrev path_fact : Tuple
path_fact = record { pred = path; fields = of_float 1000000 ∷ of_nodes [] ∷ of_node 7 ∷ [] }

-- Two references taken off, in 16 bits.
abbrev less_two : SimpleTuple
less_two = record (new_simple path_fact 65534) { to_delete = true }

path_fact-IsTuple : IsTuple (path ∷ []) path_fact
path_fact-IsTuple = record {
  id_fits = omega arith;
  in_program = refl;
  values = one_more _ _ _ _ (is_float 1000000 (omega arith)) (
      one_more _ _ _ _ (is_nodes [] (omega arith, tt))
        (one_more _ _ _ _ (is_node 7 (omega arith)) none_left));
}

-- In a buffer that ends with the tuple.
unpack-pack_simple_example :
    (packed : List ℕ) × (pack less_two (5 ∷ replicate 19 9) 1 ≡ done (5 ∷ packed ++ [], 20))
    × (unpack (path ∷ []) (5 ∷ packed ++ []) 1 ≡ done (new_simple path_fact 65534, 20))
    × (length packed ≡ 19)
unfolding storage_size get_storage_size size_loop size_list fields_bytes word_bytes
unpack-pack_simple_example =
    unpack-pack_simple (path ∷ []) less_two path_fact-IsTuple (5 ∷ []) (replicate 19 9) []
      (omega arith) refl (omega arith, (omega arith, (omega arith, tt))) (omega arith)

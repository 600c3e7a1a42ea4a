-- ===== src/Vm/Tuple/Tests.antt =====
-- Tuples copied and packed.
use meldtools.Common.{ℕ, ◌≡◌, ◌∷◌, [], List, refl, arith, replicate}
use meldtools.Runtime.List.Pack
use meldtools.Runtime.List.Pack.{pack_loop, size_list, unpack_loop}
use meldtools.Runtime.List.Serial.{pack_bytes, unpack_bytes, word_bytes, word_of}
use meldtools.Vm.Exec.{done, failed, thrown}
use meldtools.Vm.Exec.Matches.{type_int, type_list_int, type_list_node, type_string}
use meldtools.Vm.Tuple.{
  Predicate, Tuple, get_storage_size, load, load_loop, of_int, of_ints, of_nodes, of_string, pack,
  pack_fields, size_loop, unpack,
}
use meldtools.Vm.Tuple.Bounds.{pack-Writes}
use meldtools.Vm.Tuple.Buffer.{Writes}
use meldtools.Vm.Tuple.Bytes.{AreValues, is_int, is_ints, is_nodes, none_left, one_more}
use meldtools.Vm.Tuple.Ends.{pack-nil_last, with_last}

abbrev edge : Predicate
edge = record { id = 1; types = type_int ∷ type_list_int ∷ [] }

abbrev program : List Predicate
program = record { id = 0; types = [] } ∷ edge ∷ []

abbrev edge_fact : Tuple
edge_fact = record { pred = edge; fields = of_int 258 ∷ of_ints (7 ∷ []) ∷ [] }

abbrev edge_bytes : List ℕ
edge_bytes = 1 ∷ 2 ∷ 1 ∷ 0 ∷ 0 ∷ 1 ∷ 0 ∷ 0 ∷ 0 ∷ 7 ∷ 0 ∷ 0 ∷ 0 ∷ []

edge_fact-AreValues : AreValues edge.types edge_fact.fields
edge_fact-AreValues =
    one_more _ _ _ _ (is_int 258 (omega arith))
      (one_more _ _ _ _ (is_ints (7 ∷ []) (omega arith, omega arith)) none_left)

pack-edge_fact : pack edge_fact (replicate 13 9) 0 ≡ done (edge_bytes, 13)
unfolding pack pack_fields pack_loop Pack.pack pack_bytes word_bytes
pack-edge_fact = refl

unpack-edge_bytes : unpack program edge_bytes 0 ≡ done (edge_fact, 13)
unfolding unpack load load_loop unpack_loop Pack.unpack unpack_bytes word_of
unpack-edge_bytes = refl

-- A program without the predicate has a null pointer for it.
unpack_unknown : unpack [] edge_bytes 0 ≡ failed
unfolding unpack unpack_bytes word_of
unpack_unknown = refl

no_size_of_strings :
    get_storage_size
      (record { pred = record { id = 1; types = type_string ∷ [] }; fields = of_string 3 ∷ [] })
    ≡ thrown
unfolding get_storage_size size_loop
no_size_of_strings = refl

pack-nil_last_example :
    pack (with_last edge_fact type_list_node (of_nodes [])) (5 ∷ replicate 17 9) 1 ≡ failed
unfolding get_storage_size size_loop size_list
pack-nil_last_example =
    pack-nil_last edge_fact type_list_node (of_nodes []) (5 ∷ []) (replicate 17 9)
      edge_fact-AreValues (is_nodes [] (omega arith, tt)) refl refl

pack-Writes_example : Writes (replicate 13 9) 0 (pack edge_fact (replicate 13 9) 0)
pack-Writes_example = pack-Writes edge_fact (replicate 13 9) 0 (omega arith) (omega arith)

pack_too_small : pack edge_fact (replicate 12 9) 0 ≡ failed
unfolding pack pack_fields pack_loop Pack.pack pack_bytes word_bytes
pack_too_small = refl

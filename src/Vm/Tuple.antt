-- ===== src/Vm/Tuple.antt =====
-- predicates/vm/tuple.cpp: tuples copied, and written into and read from a buffer. A tuple is its
-- predicate and the values of its fields; a list is its elements, a float its 64-bit pattern, and
-- reference counts are left out. type_error is `thrown`; a failed assertion, a member of the union
-- that was not written last and a null predicate are `failed`. A position is not negative.
pub mod Buffer
pub mod Bounds
pub mod Copy
pub mod Bytes
pub mod RoundTrip
pub mod Ends
mod Tests
use meldtools.Common.{
  ℕ, zero, suc, ◌+◌, Bool, true, not, Option, List, [], ◌∷◌, ◌==◌, if◌then◌else◌, get_elem?, length,
  leb, map, ltb, int_bound, ◌&&◌,
}
use meldtools.Runtime.List.Pack
use meldtools.Runtime.List.Serial.{pack_bytes, unpack_bytes, word_bytes, word_of}
use meldtools.Vm.Exec.{◌>>=◌, Run, done, failed, or_failed, thrown}
use meldtools.Vm.Exec.Matches.{
  FieldType, type_float, type_int, type_list_float, type_list_int, type_list_node, type_node,
  type_string,
}

-- `predicate`, as far as tuples use it.
pub record Predicate : Type 0 where
  pub id : ℕ
  pub types : List FieldType

-- `tuple_field`, with the member that was written last.
pub data Value : Type 0 where
  of_int of_float of_node of_string : ℕ → Value
  of_ints of_floats of_nodes : List ℕ → Value

pub record Tuple : Type 0 where
  pub pred : Predicate
  pub fields : List Value

-- The getters of tuple.hpp.
abbrev pub get_int : Value → Run ℕ
get_int (of_int n) = done n
get_int _ = failed

abbrev pub get_float : Value → Run ℕ
get_float (of_float n) = done n
get_float _ = failed

abbrev pub get_node : Value → Run ℕ
get_node (of_node n) = done n
get_node _ = failed

abbrev pub get_int_list : Value → Run (List ℕ)
get_int_list (of_ints ls) = done ls
get_int_list _ = failed

abbrev pub get_float_list : Value → Run (List ℕ)
get_float_list (of_floats ls) = done ls
get_float_list _ = failed

abbrev pub get_node_list : Value → Run (List ℕ)
get_node_list (of_nodes ls) = done ls
get_node_list _ = failed

-- What a field of a new tuple reads as, its bytes set to 0.
abbrev pub zero_value : FieldType → Value
zero_value type_int = of_int 0
zero_value type_float = of_float 0
zero_value type_node = of_node 0
zero_value type_list_int = of_ints []
zero_value type_list_float = of_floats []
zero_value type_list_node = of_nodes []
zero_value type_string = of_string 0

-- `copy_field`
abbrev pub copy_field : FieldType → Value → Run Value
copy_field type_int v = get_int v >>= λ n. done (of_int n)
copy_field type_float v = get_float v >>= λ n. done (of_float n)
copy_field type_node v = get_node v >>= λ n. done (of_node n)
copy_field type_list_int v = get_int_list v >>= λ ls. done (of_ints ls)
copy_field type_list_float v = get_float_list v >>= λ ls. done (of_floats ls)
copy_field type_list_node v = get_node_list v >>= λ ls. done (of_nodes ls)
copy_field type_string v = thrown

-- The fields from the number `i` on of a new tuple, of which those that the test tells are copied.
unfoldable pub copy_loop : (ℕ → Bool) → ℕ → List FieldType → List Value → Run (List Value)
copy_loop copied i [] values = done []
copy_loop copied i (typ ∷ types) [] = failed
copy_loop copied i (typ ∷ types) (v ∷ values) =
    (if copied i then copy_field typ v else done (zero_value typ)) >>= λ w.
    copy_loop copied (suc i) types values >>= λ ws. done (w ∷ ws)

unfoldable pub copy : Tuple → Run Tuple
unfolding copy_loop
copy t =
    copy_loop (λ i. true) 0 t.pred.types t.fields >>= λ values. done (record t { fields = values })

unfoldable pub copy_except : ℕ → Tuple → Run Tuple
unfolding copy_loop
copy_except field t = copy_loop (λ i. not (i == field)) 0 t.pred.types t.fields >>= λ values.
    done (record t { fields = values })

-- The `switch` of get_storage_size, with the sizes of int_val, float_val and node_val.
abbrev pub field_size : FieldType → Value → Run ℕ
field_size type_int v = done 4
field_size type_float v = done 8
field_size type_node v = done 4
field_size type_list_int v = get_int_list v >>= λ ls. done (Pack.size_list ls 4)
field_size type_list_float v = get_float_list v >>= λ ls. done (Pack.size_list ls 8)
field_size type_list_node v = get_node_list v >>= λ ls. done (Pack.size_list ls 4)
field_size type_string v = thrown

unfoldable pub size_loop : ℕ → List FieldType → List Value → Run ℕ
size_loop ret [] values = done ret
size_loop ret (typ ∷ types) [] = failed
size_loop ret (typ ∷ types) (v ∷ values) =
    field_size typ v >>= λ size. size_loop (ret + size) types values

unfoldable pub get_storage_size : Tuple → Run ℕ
unfolding size_loop
get_storage_size t = size_loop 1 t.pred.types t.fields

-- The `switch` of pack.
abbrev pub pack_field : FieldType → Value → List ℕ → ℕ → Run (List ℕ × ℕ)
pack_field type_int v buf pos = get_int v >>= λ n. or_failed (pack_bytes (word_bytes 4 n) buf pos)
pack_field type_float v buf pos =
    get_float v >>= λ n. or_failed (pack_bytes (word_bytes 8 n) buf pos)
pack_field type_node v buf pos = get_node v >>= λ n. or_failed (pack_bytes (word_bytes 4 n) buf pos)
pack_field type_list_int v buf pos = get_int_list v >>= λ ls. or_failed (Pack.pack 4 ls buf pos)
pack_field type_list_float v buf pos = get_float_list v >>= λ ls. or_failed (Pack.pack 8 ls buf pos)
pack_field type_list_node v buf pos = get_node_list v >>= λ ls. or_failed (Pack.pack 4 ls buf pos)
pack_field type_string v buf pos = thrown

-- `assert(*pos <= (int)buf_size)`, where an `int` does not hold a size from 2 ^ 31 on.
abbrev pub in_buffer : List ℕ × ℕ → Run (List ℕ × ℕ)
in_buffer (buf, pos) =
    if ltb (length buf) int_bound && leb pos (length buf) then done (buf, pos) else failed

unfoldable pub pack_fields : List FieldType → List Value → List ℕ → ℕ → Run (List ℕ × ℕ)
pack_fields [] values buf pos = done (buf, pos)
pack_fields (typ ∷ types) [] buf pos = failed
pack_fields (typ ∷ types) (v ∷ values) buf pos =
    pack_field typ v buf pos >>= in_buffer >>= λ p. pack_fields types values p.0 p.1

unfoldable pub pack : Tuple → List ℕ → ℕ → Run (List ℕ × ℕ)
unfolding pack_fields
pack t buf pos =
    in_buffer (buf, pos)
    >>= (λ p. or_failed (pack_bytes (word_bytes 1 t.pred.id) p.0 p.1))
    >>= in_buffer
    >>= λ p. pack_fields t.pred.types t.fields p.0 p.1

-- The `switch` of load.
abbrev pub load_field : FieldType → List ℕ → ℕ → Run (Value × ℕ)
load_field type_int buf pos =
    or_failed (unpack_bytes 4 buf pos) >>= λ r. done (of_int (word_of r.0), r.1)
load_field type_float buf pos =
    or_failed (unpack_bytes 8 buf pos) >>= λ r. done (of_float (word_of r.0), r.1)
load_field type_node buf pos =
    or_failed (unpack_bytes 4 buf pos) >>= λ r. done (of_node (word_of r.0), r.1)
load_field type_list_int buf pos =
    or_failed (Pack.unpack 4 buf pos) >>= λ r. done (of_ints r.0, r.1)
load_field type_list_float buf pos =
    or_failed (Pack.unpack 8 buf pos) >>= λ r. done (of_floats r.0, r.1)
load_field type_list_node buf pos =
    or_failed (Pack.unpack 4 buf pos) >>= λ r. done (of_nodes r.0, r.1)
load_field type_string buf pos = thrown

unfoldable pub load_loop : List FieldType → List ℕ → ℕ → Run (List Value × ℕ)
load_loop [] buf pos = done ([], pos)
load_loop (typ ∷ types) buf pos =
    load_field typ buf pos >>= λ r. load_loop types buf r.1 >>= λ s. done (r.0 ∷ s.0, s.1)

-- Every field of the tuple is written.
unfoldable pub load : Tuple → List ℕ → ℕ → Run (Tuple × ℕ)
unfolding load_loop
load t buf pos = load_loop t.pred.types buf pos >>= λ r. done (record t { fields = r.0 }, r.1)

-- `program::get_predicate`
abbrev pub get_predicate : List Predicate → ℕ → Option Predicate
get_predicate predicates id = get_elem? predicates id

unfoldable pub unpack : List Predicate → List ℕ → ℕ → Run (Tuple × ℕ)
unfolding load
unpack prog buf pos = or_failed (unpack_bytes 1 buf pos) >>= λ r.
    or_failed (get_predicate prog (word_of r.0)) >>= λ p.
    load (record { pred = p; fields = map zero_value p.types }) buf r.1

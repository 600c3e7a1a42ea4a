-- ===== src/Vm/Tuple/Bytes.antt =====
-- The bytes of a tuple in a buffer, and what pack and load do on them.
use meldtools.Common.{
  ℕ, ◌+◌, ◌*◌, ◌^◌, ◌<◌, ◌≡◌, refl, ap, ◌∙◌, sym, List, [], ◌∷◌, ◌++◌, arith, length, length-append,
  All, u32_mod, int_bound,
}
use meldtools.Runtime.List.Pack.{
  list_bytes, length-list_bytes, length-flat, pack_bytes-place, unpack_bytes-place,
}
use meldtools.Runtime.List.RoundTrip.{pack-place, unpack-place}
use meldtools.Runtime.List.Serial.{
  length-word_bytes, unpack_bytes, word_bytes, word_of, word_of-word_bytes,
}
use meldtools.Vm.Exec.{◌>>=◌, done, or_failed}
use meldtools.Vm.Exec.Matches.{
  FieldType, type_float, type_int, type_list_float, type_list_int, type_list_node, type_node,
}
use meldtools.Vm.Tuple.{
  Value, of_float, of_floats, of_int, of_ints, of_node, of_nodes, of_string, field_size, pack_field,
  load_field, size_loop,
}

-- A list of a length that fits its word, of elements that fit so many bytes.
abbrev pub IsShort : ℕ → List ℕ → Type 0
IsShort size ls = (length ls < u32_mod) × All (λ x. x < 256 ^ size) ls

-- The value of a field of a type, within the bounds of its words; strings have none.
pub data IsValue : FieldType → Value → Type 0 where
  is_int : (n : ℕ) → n < 256 ^ 4 → IsValue type_int (of_int n)
  is_float : (n : ℕ) → n < 256 ^ 8 → IsValue type_float (of_float n)
  is_node : (n : ℕ) → n < 256 ^ 4 → IsValue type_node (of_node n)
  is_ints : (ls : List ℕ) → IsShort 4 ls → IsValue type_list_int (of_ints ls)
  is_floats : (ls : List ℕ) → IsShort 8 ls → IsValue type_list_float (of_floats ls)
  is_nodes : (ls : List ℕ) → IsShort 4 ls → IsValue type_list_node (of_nodes ls)

pub data AreValues : List FieldType → List Value → Type 0 where
  none_left : AreValues [] []
  one_more :
      (typ : FieldType) (v : Value) (types : List FieldType) (values : List Value)
      → IsValue typ v
      → AreValues types values
      → AreValues (typ ∷ types) (v ∷ values)

abbrev pub value_bytes : Value → List ℕ
value_bytes (of_int n) = word_bytes 4 n
value_bytes (of_float n) = word_bytes 8 n
value_bytes (of_node n) = word_bytes 4 n
value_bytes (of_string n) = []
value_bytes (of_ints ls) = list_bytes 4 ls
value_bytes (of_floats ls) = list_bytes 8 ls
value_bytes (of_nodes ls) = list_bytes 4 ls

unfoldable pub fields_bytes : List Value → List ℕ
fields_bytes [] = []
fields_bytes (v ∷ values) = value_bytes v ++ fields_bytes values

-- The bytes of a value behind the length of a list, which `pack` wants some of.
abbrev pub body : Value → ℕ
body (of_int n) = 1
body (of_float n) = 1
body (of_node n) = 1
body (of_string n) = 1
body (of_ints ls) = 4 * length ls
body (of_floats ls) = 8 * length ls
body (of_nodes ls) = 4 * length ls

field_size-IsValue :
    (typ : FieldType) (v : Value) → IsValue typ v → field_size typ v ≡ done (length (value_bytes v))
field_size-IsValue _ _ (is_int n h) = ap done (sym (length-word_bytes 4 n))
field_size-IsValue _ _ (is_float n h) = ap done (sym (length-word_bytes 8 n))
field_size-IsValue _ _ (is_node n h) = ap done (sym (length-word_bytes 4 n))
field_size-IsValue _ _ (is_ints ls h) = ap done (sym (length-list_bytes 4 ls))
field_size-IsValue _ _ (is_floats ls h) = ap done (sym (length-list_bytes 8 ls))
field_size-IsValue _ _ (is_nodes ls h) = ap done (sym (length-list_bytes 4 ls))

pub size_loop-AreValues :
    (ret : ℕ) (types : List FieldType) (values : List Value)
    → AreValues types values
    → size_loop ret types values ≡ done (ret + length (fields_bytes values))
unfolding size_loop fields_bytes
size_loop-AreValues ret _ _ none_left = ap done (omega arith)
size_loop-AreValues ret _ _ (one_more typ v types values h hs) = rw (field_size-IsValue typ v h) (
    size_loop-AreValues (ret + length (value_bytes v)) types values hs
    ∙ ap done (omega (arith, length-append (value_bytes v) (fields_bytes values))))

module _ (before : List ℕ) where
  pub pack_field-place :
      (typ : FieldType) (v : Value) (room rest : List ℕ)
      → IsValue typ v
      → length room ≡ length (value_bytes v)
      → 0 < body v + length rest
      → length before + (length room + length rest) < int_bound
      → pack_field typ v (before ++ (room ++ rest)) (length before)
        ≡ done (before ++ (value_bytes v ++ rest), length before + length (value_bytes v))
  pack_field-place _ _ room rest (is_int n h) fits more small =
      ap or_failed (pack_bytes-place before room rest (word_bytes 4 n) fits)
  pack_field-place _ _ room rest (is_float n h) fits more small =
      ap or_failed (pack_bytes-place before room rest (word_bytes 8 n) fits)
  pack_field-place _ _ room rest (is_node n h) fits more small =
      ap or_failed (pack_bytes-place before room rest (word_bytes 4 n) fits)
  pack_field-place _ _ room rest (is_ints ls (short, h)) fits more small =
      ap or_failed
        (pack-place 4 ls before short room rest fits (omega (arith, length-flat 4 ls)) small)
  pack_field-place _ _ room rest (is_floats ls (short, h)) fits more small =
      ap or_failed
        (pack-place 8 ls before short room rest fits (omega (arith, length-flat 8 ls)) small)
  pack_field-place _ _ room rest (is_nodes ls (short, h)) fits more small =
      ap or_failed
        (pack-place 4 ls before short room rest fits (omega (arith, length-flat 4 ls)) small)

  load_word :
      (width n : ℕ) (rest : List ℕ) (f : ℕ → Value)
      → n < 256 ^ width
      → ◌>>=◌ {B = Value × ℕ}
          (or_failed (unpack_bytes width (before ++ (word_bytes width n ++ rest)) (length before)))
          (λ r. done (f (word_of r.0), r.1))
        ≡ done (f n, length before + length (word_bytes width n))
  load_word width n rest f h =
      rw
        (
          unpack_bytes-place before (word_bytes width n) rest width (length-word_bytes width n),
          word_of-word_bytes width n h,
          length-word_bytes width n,
        )
        refl

  pub load_field-place :
      (typ : FieldType) (v : Value) (rest : List ℕ)
      → IsValue typ v
      → load_field typ (before ++ (value_bytes v ++ rest)) (length before)
        ≡ done (v, length before + length (value_bytes v))
  load_field-place _ _ rest (is_int n h) = load_word 4 n rest of_int h
  load_field-place _ _ rest (is_float n h) = load_word 8 n rest of_float h
  load_field-place _ _ rest (is_node n h) = load_word 4 n rest of_node h
  load_field-place _ _ rest (is_ints ls (short, h)) =
      rw (unpack-place 4 ls before short rest h) refl
  load_field-place _ _ rest (is_floats ls (short, h)) =
      rw (unpack-place 8 ls before short rest h) refl
  load_field-place _ _ rest (is_nodes ls (short, h)) =
      rw (unpack-place 4 ls before short rest h) refl

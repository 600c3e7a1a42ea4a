-- ===== src/Vm/Tuple/Bounds.antt =====
-- Where `pack` writes.
use meldtools.Common.{
  int_bound, ltb, ◌<◌, ◌&&◌, ℕ, ◌≤◌, Bool-cases, inl, inr, List, [], ◌∷◌, arith, leb, length,
}
use meldtools.Runtime.List.Serial.{word_bytes}
use meldtools.Vm.Exec.Matches.{
  FieldType, type_float, type_int, type_list_float, type_list_int, type_list_node, type_node,
  type_string,
}
use meldtools.Vm.Tuple.{Tuple, Value, in_buffer, pack, pack_field, pack_fields}
use meldtools.Vm.Tuple.Buffer.{
  >>=-Writes, Writes, get-Writes, list_pack-Writes, pack_bytes-Writes, unmoved,
}

pack_field-Writes :
    (typ : FieldType) (v : Value) (buf : List ℕ) (pos : ℕ)
    → Writes buf pos (pack_field typ v buf pos)
pack_field-Writes type_int v buf pos =
    get-Writes buf pos _ _ (λ n. pack_bytes-Writes (word_bytes 4 n) buf pos)
pack_field-Writes type_float v buf pos =
    get-Writes buf pos _ _ (λ n. pack_bytes-Writes (word_bytes 8 n) buf pos)
pack_field-Writes type_node v buf pos =
    get-Writes buf pos _ _ (λ n. pack_bytes-Writes (word_bytes 4 n) buf pos)
pack_field-Writes type_list_int v buf pos =
    get-Writes buf pos _ _ (λ ls. list_pack-Writes 4 ls buf pos)
pack_field-Writes type_list_float v buf pos =
    get-Writes buf pos _ _ (λ ls. list_pack-Writes 8 ls buf pos)
pack_field-Writes type_list_node v buf pos =
    get-Writes buf pos _ _ (λ ls. list_pack-Writes 4 ls buf pos)
pack_field-Writes type_string v buf pos = tt

in_buffer-Writes : (p : List ℕ × ℕ) → Writes p.0 p.1 (in_buffer p)
in_buffer-Writes p = elim (Bool-cases (ltb (length p.0) int_bound && leb p.1 (length p.0))) [
  | inl b ↦ rw b (unmoved p (ground arith))
  | inr b ↦ rw b tt
]

pack_fields-Writes :
    (types : List FieldType) (values : List Value) (buf : List ℕ) (pos : ℕ)
    → pos ≤ length buf
    → Writes buf pos (pack_fields types values buf pos)
unfolding pack_fields
pack_fields-Writes [] values buf pos le = unmoved (buf, pos) le
pack_fields-Writes (typ ∷ types) [] buf pos le = tt
pack_fields-Writes (typ ∷ types) (v ∷ values) buf pos le =
    >>=-Writes buf pos _ _
      (>>=-Writes buf pos _ _ (pack_field-Writes typ v buf pos) (λ p inside. in_buffer-Writes p))
      (λ p inside. pack_fields-Writes types values p.0 p.1 inside)

-- pack of any tuple, in a buffer of less than 2 ^ 31 bytes, at a position that an int holds and that
-- is not negative, throws, fails, or writes only between the position and the one that it ends at,
-- which is inside the buffer; the size of the buffer stays.
pub pack-Writes :
    (t : Tuple) (buf : List ℕ) (pos : ℕ)
    → length buf < int_bound
    → pos < int_bound
    → Writes buf pos (pack t buf pos)
unfolding pack
pack-Writes t buf pos size_fits pos_fits =
    >>=-Writes buf pos _ _
      (>>=-Writes buf pos _ _
        (>>=-Writes buf pos _ _ (in_buffer-Writes (buf, pos))
          (λ p inside. pack_bytes-Writes (word_bytes 1 t.pred.id) p.0 p.1))
        (λ p inside. in_buffer-Writes p))
      (λ p inside. pack_fields-Writes t.pred.types t.fields p.0 p.1 inside)

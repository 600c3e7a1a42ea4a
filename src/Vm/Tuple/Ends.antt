-- ===== src/Vm/Tuple/Ends.antt =====
-- Packing a tuple that ends with an empty list into room of its size.
use meldtools.Common.{
  int_bound, ltb, Bool-cases, inl, inr, ℕ, ◌+◌, ◌*◌, ◌<◌, ◌≡◌, refl, ap, ◌∙◌, none, List, [], ◌∷◌,
  ◌++◌, append_assoc, append-nil, arith, length, length-append,
}
use meldtools.Runtime.List.Pack.{pack_bytes-place, split_room, length-list_bytes, size_list}
use meldtools.Runtime.List.Pack
use meldtools.Runtime.List.RoundTrip.{pack-nil_end}
use meldtools.Runtime.List.Serial.{length-word_bytes, word_bytes}
use meldtools.Vm.Exec.{◌>>=◌, Run, done, failed, thrown, or_failed}
use meldtools.Vm.Exec.Matches.{FieldType}
use meldtools.Vm.Tuple.{Tuple, Value, get_storage_size, in_buffer, pack, pack_field, pack_fields}
use meldtools.Vm.Tuple.Bytes.{
  AreValues, IsValue, body, fields_bytes, is_float, is_floats, is_int, is_ints, is_node, is_nodes,
  none_left, one_more, size_loop-AreValues, value_bytes,
}
use meldtools.Vm.Tuple.RoundTrip.{GoesOn, still_in, pack_fields-place}

GoesOn-positive : (values : List Value) (behind : ℕ) → 0 < behind → GoesOn values behind
GoesOn-positive [] behind h = tt
GoesOn-positive (v ∷ values) behind h = (omega arith, GoesOn-positive values behind h)

then_done : {A : Type 0} (m : Run A) → (m >>= done) ≡ m
then_done (done a) = refl
then_done thrown = refl
then_done failed = refl

then_then :
    {A B C : Type 0} (m : Run A) (f : A → Run C) (g : A → Run B) (k : B → Run C)
    → ((a : A) → f a ≡ (g a >>= k))
    → (m >>= f) ≡ ((m >>= g) >>= k)
then_then (done a) f g k h = h a
then_then thrown f g k h = refl
then_then failed f g k h = refl

pack_fields-snoc :
    (types : List FieldType) (values : List Value) (typ : FieldType) (v : Value) (p : List ℕ × ℕ)
    → AreValues types values
    → pack_fields (types ++ typ ∷ []) (values ++ v ∷ []) p.0 p.1
      ≡ (pack_fields types values p.0 p.1 >>= λ q. pack_field typ v q.0 q.1 >>= in_buffer)
unfolding pack_fields
pack_fields-snoc _ _ typ v p none_left = then_done (pack_field typ v p.0 p.1 >>= in_buffer)
pack_fields-snoc _ _ typ v p (one_more t w types values h hs) =
    then_then (pack_field t w p.0 p.1 >>= in_buffer) _ _ _
      (λ q. pack_fields-snoc types values typ v q hs)

value_bytes-positive : (typ : FieldType) (v : Value) → IsValue typ v → 0 < length (value_bytes v)
unfolding size_list
value_bytes-positive _ _ (is_int n h) = omega (arith, length-word_bytes 4 n)
value_bytes-positive _ _ (is_float n h) = omega (arith, length-word_bytes 8 n)
value_bytes-positive _ _ (is_node n h) = omega (arith, length-word_bytes 4 n)
value_bytes-positive _ _ (is_ints ls h) = omega (arith, length-list_bytes 4 ls)
value_bytes-positive _ _ (is_floats ls h) = omega (arith, length-list_bytes 8 ls)
value_bytes-positive _ _ (is_nodes ls h) = omega (arith, length-list_bytes 4 ls)

nil_end :
    (size : ℕ) (ls before room : List ℕ)
    → 0 < size
    → size * length ls ≡ 0
    → length room ≡ size_list ls size
    → Pack.pack size ls (before ++ room) (length before) ≡ none
nil_end size [] before room some_bytes empty fits = pack-nil_end size before room fits
nil_end size (x ∷ ls) before room some_bytes empty fits = absurd (grind arith)

-- The last field is an empty list.
pack_field-nil :
    (typ : FieldType) (v : Value) (before room : List ℕ)
    → IsValue typ v
    → body v ≡ 0
    → length room ≡ length (value_bytes v)
    → pack_field typ v (before ++ room) (length before) ≡ failed
pack_field-nil _ _ before room (is_int n h) empty fits = absurd (omega arith)
pack_field-nil _ _ before room (is_float n h) empty fits = absurd (omega arith)
pack_field-nil _ _ before room (is_node n h) empty fits = absurd (omega arith)
pack_field-nil _ _ before room (is_ints ls h) empty fits =
    ap or_failed (nil_end 4 ls before room (omega arith) empty (fits ∙ length-list_bytes 4 ls))
pack_field-nil _ _ before room (is_floats ls h) empty fits =
    ap or_failed (nil_end 8 ls before room (omega arith) empty (fits ∙ length-list_bytes 8 ls))
pack_field-nil _ _ before room (is_nodes ls h) empty fits =
    ap or_failed (nil_end 4 ls before room (omega arith) empty (fits ∙ length-list_bytes 4 ls))

AreValues-snoc :
    (types : List FieldType) (values : List Value) (typ : FieldType) (v : Value)
    → AreValues types values
    → IsValue typ v
    → AreValues (types ++ typ ∷ []) (values ++ v ∷ [])
AreValues-snoc _ _ typ v none_left last = one_more typ v [] [] last none_left
AreValues-snoc _ _ typ v (one_more t w types values h hs) last =
    one_more t w _ _ h (AreValues-snoc types values typ v hs last)

length-fields_bytes :
    (values : List Value) (v : Value)
    → length (fields_bytes (values ++ v ∷ []))
      ≡ length (fields_bytes values) + length (value_bytes v)
unfolding fields_bytes
length-fields_bytes [] v = omega (arith, length-append (value_bytes v) [])
length-fields_bytes (w ∷ values) v = omega (
  arith,
  length-append (value_bytes w) (fields_bytes (values ++ v ∷ [])),
  length-append (value_bytes w) (fields_bytes values),
  length-fields_bytes values v,
)

-- A tuple with one more field.
abbrev pub with_last : Tuple → FieldType → Value → Tuple
with_last t typ v = record {
  pred = record { id = t.pred.id; types = t.pred.types ++ typ ∷ [] };
  fields = t.fields ++ v ∷ [];
}

module _ (t : Tuple) (typ : FieldType) (v : Value) (before room : List ℕ) where
  -- In a buffer whose size an `int` holds.
  fits_last :
      length before + length room < int_bound
      → AreValues t.pred.types t.fields
      → IsValue typ v
      → body v ≡ 0
      → get_storage_size (with_last t typ v) ≡ done (length room)
      → pack (with_last t typ v) (before ++ room) (length before) ≡ failed
  unfolding get_storage_size pack
  fits_last small values last empty size =
      let wb = word_bytes 1 t.pred.id in
      let fields = fields_bytes t.fields in
      let one = length-word_bytes 1 t.pred.id in
      let all = size_loop-AreValues 1 _ _ (AreValues-snoc _ _ typ v values last) in
      let (head, rest_room, e, first, left) =
        split_room room 1 (length fields + length (value_bytes v))
          (cc (size, all, length-fields_bytes t.fields v)) in
      let (middle, tail, e', second, third) =
        split_room rest_room (length fields) (length (value_bytes v)) left in
      let wide = (ap length e ∙ length-append head rest_room) in
      let start =
        still_in before [] room (length before) (rw (append-nil before) refl) (omega arith) in
      let step = pack_bytes-place before head rest_room wb (omega (arith, one)) in
      let inside =
        still_in before wb rest_room (length before + length wb)
          (omega (arith, length-append before wb)) (omega (arith, one, wide)) in
      let on =
        GoesOn-positive t.fields (length tail) (omega (arith, value_bytes-positive typ v last)) in
      let loop =
        pack_fields-place t.pred.types t.fields (before ++ wb) middle tail values on second
          (omega (arith, length-append before wb, one, wide, third, second, left)) in
      let stop = pack_field-nil typ v ((before ++ wb) ++ fields) tail last empty third in
      let snoc =
        pack_fields-snoc t.pred.types t.fields typ v
          (before ++ (wb ++ rest_room), length before + length wb) values in
      ground (
        arith,
        start,
        step,
        inside,
        loop,
        stop,
        snoc,
        append_assoc before wb rest_room,
        append_assoc (before ++ wb) fields tail,
        length-append before wb,
        length-append (before ++ wb) fields,
      )

  -- A tuple whose last field is an empty list fails an assertion of pack in a buffer that ends where
  -- get_storage_size says that the tuple ends. Its values fit their words and are not strings.
  pub pack-nil_last :
      AreValues t.pred.types t.fields
      → IsValue typ v
      → body v ≡ 0
      → get_storage_size (with_last t typ v) ≡ done (length room)
      → pack (with_last t typ v) (before ++ room) (length before) ≡ failed
  unfolding pack
  pack-nil_last values last empty size =
      elim (Bool-cases (ltb (length (before ++ room)) int_bound)) [
        | inl b ↦ fits_last (ground (arith, length-append before room)) values last empty size
        | inr b ↦ rw b refl
      ]

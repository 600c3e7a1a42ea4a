-- ===== src/Vm/Tuple/RoundTrip.antt =====
-- What `pack` of a tuple writes, `unpack` reads.
use meldtools.Common.{
  int_bound, ℕ, ◌+◌, ◌^◌, ◌<◌, ◌≡◌, refl, ap, ◌∙◌, some, List, [], ◌∷◌, ◌++◌, append_assoc,
  append-nil, arith, length, length-append, get_elem?,
}
use meldtools.Runtime.List.Pack.{joined, pack_bytes-place, split_room, unpack_bytes-place}
use meldtools.Runtime.List.Serial.{length-word_bytes, word_bytes, word_of-word_bytes}
use meldtools.Vm.Exec.{done}
use meldtools.Vm.Exec.Matches.{FieldType}
use meldtools.Vm.Tuple.{
  Predicate, Tuple, Value, get_storage_size, in_buffer, load, load_loop, pack, pack_fields, unpack,
}
use meldtools.Vm.Tuple.Bytes.{
  AreValues, body, fields_bytes, load_field-place, none_left, one_more, pack_field-place,
  size_loop-AreValues, value_bytes,
}

-- Bytes behind the lists: with so many behind the fields, no length of a list ends the buffer.
abbrev pub GoesOn : List Value → ℕ → Type 0
GoesOn [] behind = Unit {0}
GoesOn (v ∷ values) behind =
    (0 < body v + (length (fields_bytes values) + behind)) × GoesOn values behind

module _ (before : List ℕ) (room rest : List ℕ) where
  pub still_in :
      (at : ℕ)
      → at ≡ length (before ++ room)
      → length before + (length room + length rest) < int_bound
      → in_buffer (before ++ (room ++ rest), at) ≡ done (before ++ (room ++ rest), at)
  still_in at e small = ground (
    arith,
    length-append before room,
    length-append before (room ++ rest),
    length-append room rest,
  )

pub pack_fields-place :
    (types : List FieldType) (values : List Value) (before room rest : List ℕ)
    → AreValues types values
    → GoesOn values (length rest)
    → length room ≡ length (fields_bytes values)
    → length before + (length room + length rest) < int_bound
    → pack_fields types values (before ++ (room ++ rest)) (length before)
      ≡ done (before ++ (fields_bytes values ++ rest), length before + length (fields_bytes values))
unfolding pack_fields fields_bytes
pack_fields-place _ _ before [] rest none_left on fits small =
    let e : length before ≡ length before + 0 = omega arith in ap (λ n. done (before ++ rest, n)) e
pack_fields-place _ _ before (r ∷ room) rest none_left on fits small = absurd (omega arith)
pack_fields-place _ _ before room rest (one_more typ v types values h hs) (more, on) fits small =
    let here = value_bytes v in
    let next = fields_bytes values in
    let (head, tail, e, one, left) =
      split_room room (length here) (length next) (omega (arith, length-append here next)) in
    let step =
      pack_field-place before typ v head (tail ++ rest) h one
        (omega (arith, length-append tail rest))
        (omega (arith, length-append tail rest, length-append here next)) in
    let inside =
      still_in before here (tail ++ rest) (length before + length here)
        (omega (arith, length-append before here))
        (omega (arith, length-append tail rest, length-append here next)) in
    let loop =
      pack_fields-place types values (before ++ here) tail rest hs on left
        (omega (arith, length-append before here, length-append here next)) in
    ground (
      arith,
      step,
      inside,
      loop,
      append_assoc head tail rest,
      joined before here tail rest,
      joined before here next rest,
    )

load_loop-place :
    (types : List FieldType) (values : List Value) (before rest : List ℕ)
    → AreValues types values
    → load_loop types (before ++ (fields_bytes values ++ rest)) (length before)
      ≡ done (values, length before + length (fields_bytes values))
unfolding load_loop fields_bytes
load_loop-place _ _ before rest none_left =
    let e : length before ≡ length before + 0 = omega arith in ap (λ n. done ([], n)) e
load_loop-place _ _ before rest (one_more typ v types values h hs) =
    let here = value_bytes v in
    let next = fields_bytes values in
    let step = load_field-place before typ v (next ++ rest) h in
    let loop = load_loop-place types values (before ++ here) rest hs in
    ground (arith, step, loop, joined before here next rest)

-- The bytes of a tuple.
unfoldable pub tuple_bytes : Tuple → List ℕ
tuple_bytes t = word_bytes 1 t.pred.id ++ fields_bytes t.fields

-- A tuple of a predicate of the program, without strings.
pub record IsTuple (prog : List Predicate) (t : Tuple) : Type 0 where
  pub id_fits : t.pred.id < 256 ^ 1
  pub in_program : get_elem? prog t.pred.id ≡ some t.pred
  pub values : AreValues t.pred.types t.fields

module _ (prog : List Predicate) (t : Tuple) (valid : IsTuple prog t) where
  pub get_storage_size_lem : get_storage_size t ≡ done (length (tuple_bytes t))
  unfolding get_storage_size tuple_bytes
  get_storage_size_lem =
      size_loop-AreValues 1 t.pred.types t.fields valid.values
      ∙ ap done (
          omega (
            arith,
            length-append (word_bytes 1 t.pred.id) (fields_bytes t.fields),
            length-word_bytes 1 t.pred.id,
          ))

  pub pack-place :
      (before room rest : List ℕ)
      → length room ≡ length (tuple_bytes t)
      → GoesOn t.fields (length rest)
      → length before + (length room + length rest) < int_bound
      → pack t (before ++ (room ++ rest)) (length before)
        ≡ done (before ++ (tuple_bytes t ++ rest), length before + length (tuple_bytes t))
  unfolding pack tuple_bytes
  pack-place before room rest fits on small =
      let wb = word_bytes 1 t.pred.id in
      let fields = fields_bytes t.fields in
      let one = length-word_bytes 1 t.pred.id in
      let whole = length-append wb fields in
      let (head, tail, e, first, left) =
        split_room room 1 (length fields) (omega (arith, one, whole)) in
      let start =
        still_in before [] (room ++ rest) (length before) (rw (append-nil before) refl)
          (omega (arith, length-append room rest)) in
      let step = pack_bytes-place before head (tail ++ rest) wb (omega (arith, one)) in
      let inside =
        still_in before wb (tail ++ rest) (length before + length wb)
          (omega (arith, length-append before wb))
          (omega (arith, length-append tail rest, whole)) in
      let loop =
        pack_fields-place t.pred.types t.fields (before ++ wb) tail rest valid.values on left
          (omega (arith, length-append before wb, whole)) in
      ground (
        arith,
        start,
        step,
        inside,
        loop,
        append_assoc head tail rest,
        joined before wb tail rest,
        joined before wb fields rest,
      )

  pub unpack-place :
      (before rest : List ℕ)
      → unpack prog (before ++ (tuple_bytes t ++ rest)) (length before)
        ≡ done (t, length before + length (tuple_bytes t))
  unfolding unpack load tuple_bytes
  unpack-place before rest =
      let wb = word_bytes 1 t.pred.id in
      let fields = fields_bytes t.fields in
      let first = unpack_bytes-place before wb (fields ++ rest) 1 (length-word_bytes 1 t.pred.id) in
      let loop = load_loop-place t.pred.types t.fields (before ++ wb) rest valid.values in
      ground (
        arith,
        first,
        loop,
        word_of-word_bytes 1 t.pred.id valid.id_fits,
        valid.in_program,
        joined before wb fields rest,
        length-word_bytes 1 t.pred.id,
      )

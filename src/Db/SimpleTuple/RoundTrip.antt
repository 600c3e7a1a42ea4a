-- ===== src/Db/SimpleTuple/RoundTrip.antt =====
-- What `pack` of a simple_tuple writes, `unpack` reads.
use meldtools.Common.{
  int_bound, ℕ, ◌+◌, ◌^◌, ◌<◌, ◌≡◌, ap, sym, List, ◌++◌, append_assoc, arith, length, length-append,
}
use meldtools.Db.SimpleTuple.{SimpleTuple, new_simple, pack, storage_size, unpack}
use meldtools.Runtime.List.Pack.{joined, pack_bytes-place, split_room, unpack_bytes-place}
use meldtools.Runtime.List.Serial.{length-word_bytes, word_bytes, word_of-word_bytes}
use meldtools.Vm.Exec.{done}
use meldtools.Vm.Tuple.{Predicate}
use meldtools.Vm.Tuple.RoundTrip.{
  GoesOn, IsTuple, get_storage_size_lem, pack-place, tuple_bytes, unpack-place,
}

module _ (prog : List Predicate) (s : SimpleTuple) where
  bytes : List ℕ
  bytes = word_bytes 2 s.count ++ tuple_bytes s.data_tuple

  module _ (valid : IsTuple prog s.data_tuple) where
    storage_size_lem : storage_size s ≡ done (length bytes)
    unfolding storage_size bytes
    storage_size_lem = rw (get_storage_size_lem prog s.data_tuple valid) (
        ap done (
          omega (
            arith,
            length-append (word_bytes 2 s.count) (tuple_bytes s.data_tuple),
            length-word_bytes 2 s.count,
          )))

    module _ (before room rest : List ℕ) where
      pack_simple-place :
          length room ≡ length bytes
          → GoesOn s.data_tuple.fields (length rest)
          → length before + (length room + length rest) < int_bound
          → pack s (before ++ (room ++ rest)) (length before)
            ≡ done (before ++ (bytes ++ rest), length before + length bytes)
      unfolding pack bytes
      pack_simple-place fits on small =
          let wb = word_bytes 2 s.count in
          let tuple = tuple_bytes s.data_tuple in
          let two = length-word_bytes 2 s.count in
          let whole = length-append wb tuple in
          let (head, tail, e, first, left) =
            split_room room 2 (length tuple) (omega (arith, two, whole)) in
          let step = pack_bytes-place before head (tail ++ rest) wb (omega (arith, two)) in
          let others =
            pack-place prog s.data_tuple valid (before ++ wb) tail rest left on
              (omega (arith, two, whole, length-append before wb)) in
          ground (
            arith,
            step,
            others,
            append_assoc head tail rest,
            joined before wb tail rest,
            joined before wb tuple rest,
          )

      unpack_simple-place :
          s.count < 256 ^ 2
          → unpack prog (before ++ (bytes ++ rest)) (length before)
            ≡ done (new_simple s.data_tuple s.count, length before + length bytes)
      unfolding unpack bytes
      unpack_simple-place small =
          let wb = word_bytes 2 s.count in
          let tuple = tuple_bytes s.data_tuple in
          let two = length-word_bytes 2 s.count in
          let first = unpack_bytes-place before wb (tuple ++ rest) 2 two in
          let others = unpack-place prog s.data_tuple valid (before ++ wb) rest in
          ground (
            arith,
            first,
            others,
            word_of-word_bytes 2 s.count small,
            joined before wb tuple rest,
            two,
          )

      -- A tuple of a predicate of the program, with values that fit their words and without
      -- strings, and a number of references: packed into room of the size that storage_size says,
      -- they come back from unpack, which ends where pack ended, at the end of the room; the bytes
      -- before and behind stay, and the flags are as in a new simple_tuple. The buffer must go on
      -- behind the length of every list, and have less than 2 ^ 31 bytes.
      pub unpack-pack_simple :
          s.count < 256 ^ 2
          → storage_size s ≡ done (length room)
          → GoesOn s.data_tuple.fields (length rest)
          → length before + (length room + length rest) < int_bound
          → (packed : List ℕ) × (pack s (before ++ (room ++ rest)) (length before)
              ≡ done (before ++ (packed ++ rest), length before + length room))
            × (unpack prog (before ++ (packed ++ rest)) (length before)
                ≡ done (new_simple s.data_tuple s.count, length before + length room))
            × (length packed ≡ length room)
      unpack-pack_simple small size on fits =
          let same : length room ≡ length bytes = cc (size, storage_size_lem) in
          (
            bytes,
            rw same (pack_simple-place same on fits),
            rw same (unpack_simple-place small),
            sym same,
          )

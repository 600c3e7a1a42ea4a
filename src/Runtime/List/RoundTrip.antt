-- ===== src/Runtime/List/RoundTrip.antt =====
-- What `pack` writes, `unpack` reads.
use meldtools.Common.{
  ℕ, ◌+◌, ◌*◌, ◌%◌, ◌^◌, ◌<◌, ◌≡◌, Option, some, List, [], ◌∷◌, ◌++◌, append_assoc, append-nil,
  arith, length, length-append, take, drop, All, u32_mod, int_bound, ◌&&◌, refl, true, none, ltb,
  drop-append, take-append,
}
use meldtools.Runtime.List.Pack.{
  joined, flat, length-flat, list_bytes, length-list_bytes, pack, pack_bytes-place, pack_loop-place,
  size_list, split_room, unpack, unpack_bytes-place, unpack_loop,
}
use meldtools.Runtime.List.Serial.{word_bytes, word_of-word_bytes, length-word_bytes}

unpack_loop-place :
    (size : ℕ) (xs init before rest : List ℕ)
    → All (λ x. x < 256 ^ size) xs
    → unpack_loop size (length xs) init (before ++ (flat size xs ++ rest)) (length before)
      ≡ some (init ++ xs, length before + length (flat size xs))
unfolding unpack_loop flat
unpack_loop-place size [] init before rest h =
    let e : length before ≡ length before + 0 = omega arith in ground (arith, append-nil init, e)
unpack_loop-place size (x ∷ xs) init before rest (h, hs) =
    let wb = word_bytes size x in
    let step =
      unpack_bytes-place before wb (flat size xs ++ rest) size (length-word_bytes size x) in
    let next = unpack_loop-place size xs (init ++ x ∷ []) (before ++ wb) rest hs in
    ground (
      arith,
      step,
      next,
      word_of-word_bytes size x h,
      joined before wb (flat size xs) rest,
      append_assoc init (x ∷ []) xs,
      length-word_bytes size x,
    )

module _ (size : ℕ) (ls before : List ℕ) (short : length ls < u32_mod) where
  pub pack-place :
      (room rest : List ℕ)
      → length room ≡ length (list_bytes size ls)
      → 0 < length (flat size ls) + length rest
      → length before + (length room + length rest) < int_bound
      → pack size ls (before ++ (room ++ rest)) (length before)
        ≡ some (before ++ (list_bytes size ls ++ rest), length before + length (list_bytes size ls))
  unfolding pack list_bytes
  pack-place room rest h more small =
      let wb = word_bytes 4 (length ls) in
      let low : length ls % u32_mod ≡ length ls = omega arith in
      let four = length-word_bytes 4 (length ls) in
      let whole = length-append wb (flat size ls) in
      let (head, tail, e, front, left) =
        split_room room 4 (length (flat size ls)) (omega (arith, four, whole)) in
      let step = pack_bytes-place before head (tail ++ rest) wb (omega (arith, four)) in
      let loop = pack_loop-place size ls (before ++ wb) tail rest left in
      let open_end : (ltb (length (before ++ (wb ++ (tail ++ rest)))) int_bound
            && ltb (length before + length wb) (length (before ++ (wb ++ (tail ++ rest)))))
          ≡ true =
        ground (
          arith,
          length-append before (wb ++ (tail ++ rest)),
          length-append wb (tail ++ rest),
          length-append tail rest,
          four,
          whole,
        ) in
      ground (
        arith,
        step,
        loop,
        low,
        open_end,
        append_assoc head tail rest,
        joined before wb tail rest,
        joined before wb (flat size ls) rest,
      )

  pub unpack-place :
      (rest : List ℕ)
      → All (λ x. x < 256 ^ size) ls
      → unpack size (before ++ (list_bytes size ls ++ rest)) (length before)
        ≡ some (ls, length before + length (list_bytes size ls))
  unfolding unpack list_bytes
  unpack-place rest words =
      let wb = word_bytes 4 (length ls) in
      let four = length-word_bytes 4 (length ls) in
      let first = unpack_bytes-place before wb (flat size ls ++ rest) 4 four in
      let others = unpack_loop-place size ls [] (before ++ wb) rest words in
      ground (
        arith,
        first,
        others,
        joined before wb (flat size ls) rest,
        four,
        word_of-word_bytes 4 (length ls) short,
      )

-- A buffer after `pack`, and what is read from it.
pub record Packed (size : ℕ) (ls before rest : List ℕ) (r : Option (List ℕ × ℕ)) : Type 0 where
  pub buf : List ℕ
  pub packed : r ≡ some (buf, length before + size_list ls size)
  pub read : unpack size buf (length before) ≡ some (ls, length before + size_list ls size)
  pub before_kept : take (length before) buf ≡ before
  pub rest_kept : drop (length before + size_list ls size) buf ≡ rest

module _ (size : ℕ) (ls before room rest : List ℕ) (fits : length room ≡ size_list ls size) where
  -- A list of fewer than 2 ^ 32 values that fit into the bytes of an element, packed into room of the
  -- size that size_list says, comes back from unpack, which ends where pack ended; the bytes before
  -- and behind stay. Elements must not be empty where the list is not, and where it is the buffer must
  -- go on behind it, and is shorter than 2 ^ 31 bytes.
  pub unpack-pack :
      All (λ x. x < 256 ^ size) ls
      → length ls < u32_mod
      → 0 < size * length ls + length rest
      → length before + (length room + length rest) < int_bound
      → Packed size ls before rest (pack size ls (before ++ (room ++ rest)) (length before))
  unpack-pack words short more small =
      let bytes = list_bytes size ls in
      let length_of = length-list_bytes size ls in
      record {
        buf = before ++ (bytes ++ rest);
        packed = rw (← length_of) (
            pack-place size ls before short room rest (omega (arith, length_of))
              (omega (arith, length-flat size ls)) small);
        read = rw (← length_of) (unpack-place size ls before short rest words);
        before_kept = take-append (length before) before (bytes ++ rest) refl;
        rest_kept = rw (← append_assoc before bytes rest) (
            drop-append (length before + size_list ls size) (before ++ bytes) rest
              (omega (arith, length-append before bytes, length_of)));
      }

-- The empty list fails the assertion of pack in a buffer that ends where size_list says that it
-- ends, although its four bytes fit.
pub pack-nil_end :
    (size : ℕ) (before room : List ℕ)
    → length room ≡ size_list [] size
    → pack size [] (before ++ room) (length before) ≡ none
unfolding pack size_list
pack-nil_end size before room h =
    let none_of_them = word_bytes 4 0 in
    let four = length-word_bytes 4 0 in
    let step = pack_bytes-place before room [] none_of_them (omega (arith, four)) in
    let ends = length-append before (none_of_them ++ []) in
    ground (arith, step, ends, append-nil room, append-nil none_of_them, four)

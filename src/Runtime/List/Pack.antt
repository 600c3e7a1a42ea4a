-- ===== src/Runtime/List/Pack.antt =====
-- `cons<T>::pack` and `unpack` of list.hpp, for elements of `size` bytes.
use meldtools.Common.{
  ℕ, zero, suc, ◌+◌, ◌*◌, ◌%◌, ◌≡◌, refl, Option, some, List, [], ◌∷◌, ◌++◌, arith, ltb, length,
  take, take-append-drop, length-take, length-drop, drop-append, ◌>>=◌, ◌>>◌, guard, u32_mod,
  int_bound, ◌&&◌, ap, sym, true, append_assoc, leb, length-append, drop, take-append,
}
use meldtools.Runtime.List.Serial.{pack_bytes, unpack_bytes, word_bytes, word_of, length-word_bytes}

unfoldable pub pack_loop : ℕ → List ℕ → List ℕ → ℕ → Option (List ℕ × ℕ)
pack_loop size [] buf at = some (buf, at)
pack_loop size (x ∷ xs) buf at = do
  (buf', at') ← pack_bytes (word_bytes size x) buf at
  pack_loop size xs buf' at'

-- The length, as an `unsigned int`, and the elements. The size of the buffer is compared as an `int`,
-- which does not hold it from 2 ^ 31 on.
unfoldable pub pack : ℕ → List ℕ → List ℕ → ℕ → Option (List ℕ × ℕ)
unfolding pack_loop
pack size ls buf at = do
  (buf', at') ← pack_bytes (word_bytes 4 (length ls % u32_mod)) buf at
  guard (ltb (length buf') int_bound && ltb at' (length buf'))
  pack_loop size ls buf' at'

-- `prev` is the last cell of the list so far.
unfoldable pub unpack_loop : ℕ → ℕ → List ℕ → List ℕ → ℕ → Option (List ℕ × ℕ)
unpack_loop size zero init buf at = some (init, at)
unpack_loop size (suc len) init buf at = do
  (bytes, at') ← unpack_bytes size buf at
  unpack_loop size len (init ++ word_of bytes ∷ []) buf at'

unfoldable pub unpack : ℕ → List ℕ → ℕ → Option (List ℕ × ℕ)
unfolding unpack_loop
unpack size buf at = do
  (bytes, at') ← unpack_bytes 4 buf at
  unpack_loop size (word_of bytes) [] buf at'

-- `size_list`, for elements of `elem_size` bytes.
unfoldable pub size_list : List ℕ → ℕ → ℕ
size_list ls elem_size = 4 + elem_size * length ls

-- The bytes of the elements, and of the list.
unfoldable pub flat : ℕ → List ℕ → List ℕ
flat size [] = []
flat size (x ∷ xs) = word_bytes size x ++ flat size xs

unfoldable pub list_bytes : ℕ → List ℕ → List ℕ
list_bytes size ls = word_bytes 4 (length ls) ++ flat size ls

pub length-flat : (size : ℕ) (xs : List ℕ) → length (flat size xs) ≡ size * length xs
unfolding flat
length-flat size [] = omega arith
length-flat size (x ∷ xs) = omega (
  arith,
  length-append (word_bytes size x) (flat size xs),
  length-word_bytes size x,
  length-flat size xs,
)

pub length-list_bytes : (size : ℕ) (ls : List ℕ) → length (list_bytes size ls) ≡ size_list ls size
unfolding list_bytes size_list
length-list_bytes size ls = omega (
  arith,
  length-append (word_bytes 4 (length ls)) (flat size ls),
  length-word_bytes 4 (length ls),
  length-flat size ls,
)

module _ (before room rest : List ℕ) where
  -- A buffer has room for what takes the place of `room`.
  fits : leb (length before + length room) (length (before ++ (room ++ rest))) ≡ true
  fits = ground (arith, length-append before (room ++ rest), length-append room rest)

  past : drop (length before + length room) (before ++ (room ++ rest)) ≡ rest
  past =
      rw (← append_assoc before room rest) (
        drop-append (length before + length room) (before ++ room) rest (length-append before room))

  pub pack_bytes-place :
      (bytes : List ℕ)
      → length room ≡ length bytes
      → pack_bytes bytes (before ++ (room ++ rest)) (length before)
        ≡ some (before ++ (bytes ++ rest), length before + length bytes)
  unfolding pack_bytes
  pack_bytes-place bytes h =
      rw (← h) (rw (fits, past, take-append (length before) before (room ++ rest) refl))

  pub unpack_bytes-place :
      (n : ℕ)
      → length room ≡ n
      → unpack_bytes n (before ++ (room ++ rest)) (length before) ≡ some (room, length before + n)
  unfolding unpack_bytes
  unpack_bytes-place n h = rw (← h) (
      rw (
        fits,
        drop-append (length before) before (room ++ rest) refl,
        take-append (length room) room rest refl,
      ))

-- The bytes at the front of the room left.
pub split_room :
    (room : List ℕ) (m n : ℕ)
    → length room ≡ m + n
    → (head : List ℕ) × (tail : List ℕ) × (room ≡ head ++ tail)
      × (length head ≡ m)
      × (length tail ≡ n)
split_room room m n h = (
  take m room,
  drop m room,
  sym (take-append-drop m room),
  omega (arith, length-take m room),
  omega (arith, length-drop m room),
)

-- Bytes in front of others, counted to those before them.
pub joined :
    (before here next rest : List ℕ)
    → (before ++ (here ++ (next ++ rest)) ≡ (before ++ here) ++ (next ++ rest))
      × ((here ++ next) ++ rest ≡ here ++ (next ++ rest))
      × (length (before ++ here) ≡ length before + length here)
      × (length (here ++ next) ≡ length here + length next)
joined before here next rest = (
  sym (append_assoc before here (next ++ rest)),
  append_assoc here next rest,
  length-append before here,
  length-append here next,
)

pub pack_loop-place :
    (size : ℕ) (xs before room rest : List ℕ)
    → length room ≡ length (flat size xs)
    → pack_loop size xs (before ++ (room ++ rest)) (length before)
      ≡ some (before ++ (flat size xs ++ rest), length before + length (flat size xs))
unfolding pack_loop flat
pack_loop-place size [] before [] rest h =
    let e : length before ≡ length before + 0 = omega arith in ap (λ n. some (before ++ rest, n)) e
pack_loop-place size [] before (r ∷ room) rest h = absurd (omega arith)
pack_loop-place size (x ∷ xs) before room rest h =
    let wb = word_bytes size x in
    let l = length-append wb (flat size xs) in
    let (head, tail, e, four, left) =
      split_room room size (length (flat size xs)) (omega (arith, length-word_bytes size x, l)) in
    let step =
      pack_bytes-place before head (tail ++ rest) wb (omega (arith, length-word_bytes size x)) in
    let next = pack_loop-place size xs (before ++ wb) tail rest left in
    ground (
      arith,
      step,
      next,
      append_assoc head tail rest,
      joined before wb tail rest,
      joined before wb (flat size xs) rest,
    )

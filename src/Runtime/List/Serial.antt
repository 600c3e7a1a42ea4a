-- ===== src/Runtime/List/Serial.antt =====
-- predicates/utils/serialization.hpp: bytes copied into and out of a buffer, behind an assertion.
-- `none` is the failed assertion. A position, an `int`, is an index of the buffer, so not negative,
-- and buffers have less than 2 ^ 31 bytes wherever something is said of them.
use meldtools.Common.{
  ℕ, zero, suc, ap, refl, ◌^◌, ◌+◌, ◌*◌, ◌/◌, ◌%◌, ◌<◌, ◌≡◌, Option, some, List, [], ◌∷◌, ◌++◌,
  arith, leb, length, take, drop, ◌>>◌, guard,
}

-- `pack`, with the bytes of the data.
unfoldable pub pack_bytes : List ℕ → List ℕ → ℕ → Option (List ℕ × ℕ)
pack_bytes bytes buf pos = do
  guard (leb (pos + length bytes) (length buf))
  some (take pos buf ++ (bytes ++ drop (pos + length bytes) buf), pos + length bytes)

-- `unpack` of `size` bytes.
unfoldable pub unpack_bytes : ℕ → List ℕ → ℕ → Option (List ℕ × ℕ)
unpack_bytes size buf pos = do
  guard (leb (pos + size) (length buf))
  some (take size (drop pos buf), pos + size)

-- The bytes of a number of so many bytes, low byte first, and the number of bytes.
unfoldable pub word_bytes : ℕ → ℕ → List ℕ
word_bytes zero n = []
word_bytes (suc width) n = n % 256 ∷ word_bytes width (n / 256)

unfoldable pub word_of : List ℕ → ℕ
word_of [] = 0
word_of (b ∷ bytes) = b + 256 * word_of bytes

pub word_of-word_bytes : (width n : ℕ) → n < 256 ^ width → word_of (word_bytes width n) ≡ n
unfolding word_of word_bytes
word_of-word_bytes zero n h = omega arith
word_of-word_bytes (suc width) n h = omega (arith, word_of-word_bytes width (n / 256))

pub length-word_bytes : (width n : ℕ) → length (word_bytes width n) ≡ width
unfolding word_bytes
length-word_bytes zero n = refl
length-word_bytes (suc width) n = ap suc (length-word_bytes width (n / 256))

-- ===== src/Vm/Tuple/Buffer.antt =====
-- A buffer between the positions where a call begins and ends to write.
use meldtools.Common
use meldtools.Common.{
  ℕ, zero, suc, ◌+◌, ◌-◌, ◌≤◌, ◌≡◌, refl, ap, ◌∙◌, sym, Bool, Bool-cases, inl, inr, List, [], ◌∷◌,
  ◌++◌, Option, none, some, append_assoc, arith, drop, drop-append, drop-nil, leb, length,
  length-append, length-drop, length-take, ltb, take, take-append, guard, true, false, u32_mod,
  int_bound, ◌&&◌, ◌%◌,
}
use meldtools.Runtime.List.Pack
use meldtools.Runtime.List.Pack.{pack_loop}
use meldtools.Runtime.List.Serial.{pack_bytes, word_bytes}
use meldtools.Vm.Exec.{◌>>=◌, Run, done, failed, or_failed, thrown}

-- A buffer that is written between two positions only, which are inside it.
pub record WrittenTo (buf : List ℕ) (pos : ℕ) (p : List ℕ × ℕ) : Type 0 where
  pub onward : pos ≤ p.1
  pub inside : p.1 ≤ length buf
  pub same_length : length p.0 ≡ length buf
  pub before_kept : take pos p.0 ≡ take pos buf
  pub behind_kept : drop p.1 p.0 ≡ drop p.1 buf

-- Of what a call returns, if it neither throws nor fails.
abbrev pub Writes : List ℕ → ℕ → Run (List ℕ × ℕ) → Type 0
Writes buf pos (done p) = WrittenTo buf pos p
Writes buf pos thrown = Unit {0}
Writes buf pos failed = Unit {0}

take_fewer : (n m : ℕ) (xs ys : List ℕ) → n ≤ m → take m xs ≡ take m ys → take n xs ≡ take n ys
take_fewer zero m xs ys le e = refl
take_fewer (suc n) zero xs ys le e = absurd (omega arith)
take_fewer (suc n) (suc m) [] [] le e = refl
take_fewer (suc n) (suc m) [] (y ∷ ys) le e = cc
take_fewer (suc n) (suc m) (x ∷ xs) [] le e = cc
take_fewer (suc n) (suc m) (x ∷ xs) (y ∷ ys) le e =
    let rest : take n xs ≡ take n ys = take_fewer n m xs ys (omega arith) cc in cc

drop-drop : (n k : ℕ) (xs : List ℕ) → drop k (drop n xs) ≡ drop (n + k) xs
drop-drop zero k xs = ap (λ j. drop j xs) (omega arith)
drop-drop (suc n) k [] = drop-nil k ∙ sym (drop-nil (suc n + k))
drop-drop (suc n) k (x ∷ xs) =
    let e : suc (n + k) ≡ suc n + k = omega arith in drop-drop n k xs ∙ ap (λ j. drop j (x ∷ xs)) e

drop_more : (n m : ℕ) (xs ys : List ℕ) → n ≤ m → drop n xs ≡ drop n ys → drop m xs ≡ drop m ys
drop_more n m xs ys le e =
    let split : m ≡ n + (m - n) = omega arith in
    rw split (sym (drop-drop n (m - n) xs) ∙ ap (drop (m - n)) e ∙ drop-drop n (m - n) ys)

WrittenTo-trans :
    (buf : List ℕ) (pos : ℕ) (p q : List ℕ × ℕ)
    → WrittenTo buf pos p
    → WrittenTo p.0 p.1 q
    → WrittenTo buf pos q
WrittenTo-trans buf pos p q a b = record {
  onward = omega arith;
  inside = omega arith;
  same_length = omega arith;
  before_kept = take_fewer pos p.1 q.0 p.0 a.onward b.before_kept ∙ a.before_kept;
  behind_kept = b.behind_kept ∙ drop_more p.1 q.1 p.0 buf b.onward a.behind_kept;
}

written_bytes :
    (bytes buf : List ℕ) (pos : ℕ)
    → pos + length bytes ≤ length buf
    → WrittenTo buf pos
        (take pos buf ++ (bytes ++ drop (pos + length bytes) buf), pos + length bytes)
written_bytes bytes buf pos fits =
    let head = take pos buf in
    let tail = drop (pos + length bytes) buf in
    let from : length head ≡ pos = omega (arith, length-take pos buf) in
    record {
      onward = omega arith;
      inside = fits;
      same_length = omega (
        arith,
        from,
        length-append head (bytes ++ tail),
        length-append bytes tail,
        length-drop (pos + length bytes) buf,
      );
      before_kept = take-append pos head (bytes ++ tail) from;
      behind_kept = rw (← append_assoc head bytes tail) (
          drop-append (pos + length bytes) (head ++ bytes) tail
            (omega (arith, from, length-append head bytes)));
    }

pub pack_bytes-Writes :
    (bytes buf : List ℕ) (pos : ℕ) → Writes buf pos (or_failed (pack_bytes bytes buf pos))
unfolding pack_bytes
pack_bytes-Writes bytes buf pos = elim (Bool-cases (leb (pos + length bytes) (length buf))) [
  | inl b ↦ rw b (written_bytes bytes buf pos (ground arith))
  | inr b ↦ rw b tt
]

pub unmoved : (p : List ℕ × ℕ) → p.1 ≤ length p.0 → WrittenTo p.0 p.1 p
unmoved p le = record {
  onward = omega arith;
  inside = le;
  same_length = refl;
  before_kept = refl;
  behind_kept = refl;
}

from_there :
    (buf : List ℕ) (pos : ℕ) (p : List ℕ × ℕ) (r : Run (List ℕ × ℕ))
    → WrittenTo buf pos p
    → Writes p.0 p.1 r
    → Writes buf pos r
from_there buf pos p (done q) h on = WrittenTo-trans buf pos p q h on
from_there buf pos p thrown h on = tt
from_there buf pos p failed h on = tt

-- A call after another, which goes on where that ended.
pub >>=-Writes :
    (buf : List ℕ) (pos : ℕ) (m : Run (List ℕ × ℕ)) (f : List ℕ × ℕ → Run (List ℕ × ℕ))
    → Writes buf pos m
    → ((p : List ℕ × ℕ) → p.1 ≤ length p.0 → Writes p.0 p.1 (f p))
    → Writes buf pos (m >>= f)
>>=-Writes buf pos (done p) f h next = from_there buf pos p (f p) h (next p (omega arith))
>>=-Writes buf pos thrown f h next = tt
>>=-Writes buf pos failed f h next = tt

pub get-Writes :
    {A : Type 0} (buf : List ℕ) (pos : ℕ) (m : Run A) (f : A → Run (List ℕ × ℕ))
    → ((a : A) → Writes buf pos (f a))
    → Writes buf pos (m >>= f)
get-Writes buf pos (done a) f h = h a
get-Writes buf pos thrown f h = tt
get-Writes buf pos failed f h = tt

or_failed->>= :
    (m : Option (List ℕ × ℕ)) (f : List ℕ × ℕ → Option (List ℕ × ℕ))
    → or_failed (Common.◌>>=◌ m f) ≡ (or_failed m >>= λ p. or_failed (f p))
or_failed->>= (some p) f = refl
or_failed->>= none f = refl

pack_loop-Writes :
    (size : ℕ) (xs buf : List ℕ) (pos : ℕ)
    → pos ≤ length buf
    → Writes buf pos (or_failed (pack_loop size xs buf pos))
unfolding pack_loop
pack_loop-Writes size [] buf pos le = unmoved (buf, pos) le
pack_loop-Writes size (x ∷ xs) buf pos le =
    let first = pack_bytes (word_bytes size x) buf pos in
    rw (or_failed->>= first (λ p. pack_loop size xs p.0 p.1)) (
      >>=-Writes buf pos (or_failed first) (λ p. or_failed (pack_loop size xs p.0 p.1))
        (pack_bytes-Writes (word_bytes size x) buf pos)
        (λ p inside. pack_loop-Writes size xs p.0 p.1 inside))

guarded :
    (b : Bool) (buf : List ℕ) (pos : ℕ) (m : Option (List ℕ × ℕ))
    → Writes buf pos (or_failed m)
    → Writes buf pos (or_failed (Common.◌>>◌ (guard b) m))
guarded true buf pos m h = h
guarded false buf pos m h = tt

pub list_pack-Writes :
    (size : ℕ) (ls buf : List ℕ) (pos : ℕ) → Writes buf pos (or_failed (Pack.pack size ls buf pos))
unfolding Pack.pack
list_pack-Writes size ls buf pos =
    let bytes = word_bytes 4 (length ls % u32_mod) in
    let first = pack_bytes bytes buf pos in
    let next : List ℕ × ℕ → Option (List ℕ × ℕ) = λ p.
      Common.◌>>◌ (guard (ltb (length p.0) int_bound && ltb p.1 (length p.0)))
        (pack_loop size ls p.0 p.1) in
    rw (or_failed->>= first next) (
      >>=-Writes buf pos (or_failed first) (λ p. or_failed (next p))
        (pack_bytes-Writes bytes buf pos)
        (λ p inside.
          guarded (ltb (length p.0) int_bound && ltb p.1 (length p.0)) p.0 p.1
            (pack_loop size ls p.0 p.1) (pack_loop-Writes size ls p.0 p.1 inside)))

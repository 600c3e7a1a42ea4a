-- ===== src/External/Lists/Slices.antt =====
-- `intlistsub`: the elements from one index up to another.
use Prim.Native.Nat.{min}
use mathlib.Core.List.{reverse, reverse-cons, reverse-reverse}
use meldtools.Common.{
  ℕ, suc, ◌+◌, ◌-◌, ◌%◌, ◌<◌, ◌≡◌, sym, ◌∙◌, inl, inr, List, [], ◌∷◌, ◌++◌, append_assoc, arith,
  ltb, if◌then◌else◌, Bool-cases, length, take, drop, u32_mod, ap, length-drop, drop-nil, take-nil,
  append-nil, leb, drop_past,
}
use meldtools.External.Lists.{int_ltb, keep_loop, skip_loop, intlistsub}
use meldtools.Runtime.List.{from_stack_to_list_lem}

-- A signed index that is negative is before every element.
abbrev pub index : ℕ → ℕ
index a = if ltb a 2147483648 then a else 0

module _ (a : ℕ) (a_word : a < u32_mod) where
  skip_loop_lem :
      (ls : List ℕ) (ctn : ℕ)
      → ctn + length ls < 2147483648
      → skip_loop a ls ctn ≡ (drop (index a - ctn) ls, ctn + min (index a - ctn) (length ls))
  unfolding skip_loop
  skip_loop_lem [] ctn h = ground (arith, drop-nil {A = ℕ} (index a - ctn))
  skip_loop_lem (x ∷ ls) ctn h = elim (Bool-cases (int_ltb ctn a)) [
    | inl skip ↦
        let below : ctn < index a = ground arith in
        let e : index a - ctn ≡ suc (index a - (ctn + 1)) = omega arith in
        let step : (ctn + 1) % u32_mod ≡ ctn + 1 = omega arith in
        rw (skip, step, e)
          (skip_loop_lem ls (ctn + 1) (omega arith)
            ∙ ap (λ n. (drop (index a - (ctn + 1)) ls, n)) (omega arith))
    | inr stop ↦
        let e : index a - ctn ≡ 0 = ground arith in
        rw (stop, e) (ap (λ n. (x ∷ ls, n)) (omega arith))
  ]

  keep_loop_lem :
      (ls : List ℕ) (ctn : ℕ) (s : List ℕ)
      → ctn + length ls < 2147483648
      → keep_loop a ls ctn s ≡ reverse (take (index a - ctn) ls) ++ s
  unfolding keep_loop
  keep_loop_lem [] ctn s h = ground (arith, take-nil {A = ℕ} (index a - ctn))
  keep_loop_lem (x ∷ ls) ctn s h = elim (Bool-cases (int_ltb ctn a)) [
    | inl keep ↦
        let below : ctn < index a = ground arith in
        let e : index a - ctn ≡ suc (index a - (ctn + 1)) = omega arith in
        let step : (ctn + 1) % u32_mod ≡ ctn + 1 = omega arith in
        rw (keep, step, e)
          (keep_loop_lem ls (ctn + 1) (x ∷ s) (omega arith)
            ∙ sym (
                rw (reverse-cons x (take (index a - (ctn + 1)) ls))
                  (append_assoc (reverse (take (index a - (ctn + 1)) ls)) (x ∷ []) s)))
    | inr stop ↦ let e : index a - ctn ≡ 0 = ground arith in rw (stop, e)
  ]

-- Past the end of the list both counts take nothing.
same_take :
    (p : List ℕ) (m n : ℕ) → take (n - min m (length p)) (drop m p) ≡ take (n - m) (drop m p)
same_take p m n = elim (Bool-cases (leb (length p) m)) [
  | inl past ↦
      let e = drop_past m p (ground arith) in
      rw e (take-nil (n - min m (length p)) ∙ sym (take-nil (n - m)))
  | inr inside ↦ let e : min m (length p) ≡ m = ground arith in rw e
]

-- The slice from index `a` up to index `b`, where a negative index stands for 0, of a list that a
-- signed counter can count.
pub intlistsub_lem :
    (p : List ℕ) (a b : ℕ)
    → length p < 2147483648
    → a < u32_mod
    → b < u32_mod
    → intlistsub p a b ≡ take (index b - index a) (drop (index a) p)
unfolding intlistsub
intlistsub_lem p a b short a_word b_word =
    let ls = drop (index a) p in
    let ctn = min (index a) (length p) in
    let zero_off : index a - 0 ≡ index a = omega arith in
    let zero_on : 0 + ctn ≡ ctn = omega arith in
    let skipped = rw (zero_off, zero_on) at (skip_loop_lem a a_word p 0 (omega arith)) in
    let shorter = length-drop (index a) p in
    let kept = keep_loop_lem b b_word ls ctn [] (omega arith) in
    rw skipped (
      from_stack_to_list_lem (keep_loop b ls ctn [])
      ∙ ap reverse (kept ∙ append-nil (reverse (take (index b - ctn) ls)))
      ∙ reverse-reverse (take (index b - ctn) ls)
      ∙ same_take p (index a) (index b))

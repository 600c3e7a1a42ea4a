-- ===== src/Sched/Tokenizer/Passing.antt =====
-- The promise of the token, as it is fetched and passed on.
use meldtools.Common.Int.{pos, ◌+ℤ◌, +ℤ_parts, pos_part, neg_part}
use meldtools.Sched.Tokenizer.Promises.{IsQuiet, IsPromise, plus, minus, IsBalanced}
use meldtools.Sched.Tokenizer.Sums.{sum-same, sum, update, update-other, update-kept}
use meldtools.Common.{ℕ, suc, ◌≡◌, ap, ◌∙◌, ◌≢◌, inl, inr, false, Option, arith, ◌==◌, Bool-cases}
use meldtools.Sched.Tokenizer.Ring.{Ring}
use meldtools.Sched.Tokenizer.{Token, Tokenizer}

module _ (z : ℕ → Tokenizer) (p : ℕ) (x : Tokenizer) (same : x.tok.count ≡ (z p).tok.count) where
  count-update : (i : ℕ) → (update p x z i).tok.count ≡ (z i).tok.count
  count-update i = update-kept (λ y. y.tok.count) z p i x same

  pub plus-update : (m : ℕ) → plus (update p x z) m ≡ plus z m
  plus-update m = sum-same _ _ m (λ i l. ap pos_part (count-update i))

  pub minus-update : (m : ℕ) → minus (update p x z) m ≡ minus z m
  minus-update m = sum-same _ _ m (λ i l. ap neg_part (count-update i))

module _ (n : ℕ) (r : Ring) where
  -- The tokenizer of the machine p becomes x, and the links are others.
  abbrev pub with_tokenizer : ℕ → Tokenizer → (ℕ → Option Token) → Ring
  with_tokenizer p x links = record r { tokenizers = update p x r.tokenizers; link = links }

  module _ (p : ℕ) (x : Tokenizer) (links : ℕ → Option Token)
      (same : x.tok.count ≡ (r.tokenizers p).tok.count) where
    pub counted-IsBalanced : IsBalanced n r → IsBalanced n (with_tokenizer p x links)
    counted-IsBalanced b = omega (
      arith,
      plus-update r.tokenizers p x same (suc n),
      minus-update r.tokenizers p x same (suc n),
    )

    -- A machine holds the token without looking at it.
    pub held-IsPromise :
        (t : ℕ) (g : Token)
        → x.tok.white ≡ (r.tokenizers p).tok.white
        → IsPromise n r t g
        → IsPromise n (with_tokenizer p x links) t g
    held-IsPromise t g w h =
        let a = plus-update r.tokenizers p x same in
        let b = minus-update r.tokenizers p x same in
        elim h [
          | inl (idle, sums) ↦ inl (idle, omega (arith, a (suc n), b (suc n), a (suc t), b (suc t)))
          | inr (inl owing) ↦ inr (inl (omega (arith, a (suc t), b (suc t))))
          | inr (inr (inl (i, l, black))) ↦
              inr (inr (inl (i, l, update-kept (λ y. y.tok.white) r.tokenizers p i x w ∙ black)))
          | inr (inr (inr black)) ↦ inr (inr (inr black))
        ]

    -- A new round of a white token without a count.
    pub fresh-IsQuiet : (g : Token) → g.count ≡ pos 0 → IsQuiet n (with_tokenizer p x links) n g
    fresh-IsQuiet g e =
        ((λ i l m. absurd (omega arith)), omega (arith, ap pos_part e, ap neg_part e))

    pub fresh-IsPromise : (g : Token) → g.count ≡ pos 0 → IsPromise n (with_tokenizer p x links) n g
    fresh-IsPromise g e = inl (fresh-IsQuiet g e)

  pub passed-IsQuiet :
      (t : ℕ) (x : Tokenizer) (links : ℕ → Option Token) (g g' : Token)
      → x.tok.count ≡ (r.tokenizers (suc t)).tok.count
      → r.active (suc t) ≡ false
      → g'.count ≡ g.count +ℤ (r.tokenizers (suc t)).tok.count
      → IsQuiet n r (suc t) g
      → IsQuiet n (with_tokenizer (suc t) x links) t g'
  unfolding sum
  passed-IsQuiet t x links g g' same rests counted (idle, sums) =
      let a = plus-update r.tokenizers (suc t) x same in
      let b = minus-update r.tokenizers (suc t) x same in
      let parts = +ℤ_parts g.count (r.tokenizers (suc t)).tok.count in
      (
        (λ i l m. elim (Bool-cases (i == suc t)) [
          | inl e ↦ let here : i ≡ suc t = ground arith in ap r.active here ∙ rests
          | inr e ↦ idle i (ground arith) m
        ]),
        omega (
          arith,
          a (suc n),
          b (suc n),
          a (suc t),
          b (suc t),
          sums,
          parts,
          ap pos_part counted,
          ap neg_part counted,
        ),
      )

  -- An idle machine passes the token on with its count, and in black if it was black.
  pub passed-IsPromise :
      (t : ℕ) (x : Tokenizer) (links : ℕ → Option Token) (g g' : Token)
      → x.tok.count ≡ (r.tokenizers (suc t)).tok.count
      → r.active (suc t) ≡ false
      → g'.count ≡ g.count +ℤ (r.tokenizers (suc t)).tok.count
      → (g.white ≡ false → g'.white ≡ false)
      → ((r.tokenizers (suc t)).tok.white ≡ false → g'.white ≡ false)
      → IsPromise n r (suc t) g
      → IsPromise n (with_tokenizer (suc t) x links) t g'
  unfolding sum
  passed-IsPromise t x links g g' same rests counted keeps_black blackens h =
      let a = plus-update r.tokenizers (suc t) x same in
      let b = minus-update r.tokenizers (suc t) x same in
      let parts = +ℤ_parts g.count (r.tokenizers (suc t)).tok.count in
      let up = ap pos_part counted in
      let down = ap neg_part counted in
      elim h [
        | inl quiet ↦ inl (passed-IsQuiet t x links g g' same rests counted quiet)
        | inr (inl owing) ↦ inr (inl (omega (arith, a (suc t), b (suc t), owing, parts, up, down)))
        | inr (inr (inl (i, l, black))) ↦ elim (Bool-cases (i == suc t)) [
          | inl e ↦
              let here : suc t ≡ i = ground arith in
              inr (inr (inr (blackens (ap (λ j. (r.tokenizers j).tok.white) here ∙ black))))
          | inr e ↦
              let away : i ≢ suc t = ground arith in
              inr (
                inr (
                  inl (
                    i,
                    ground arith,
                    ap (λ y. y.tok.white) (update-other (suc t) i x r.tokenizers away) ∙ black,
                  )))
        ]
        | inr (inr (inr black)) ↦ inr (inr (inr (keeps_black black)))
      ]

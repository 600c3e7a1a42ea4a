-- ===== src/Sched/Tokenizer/Messages.antt =====
-- The promise of the token and the balance of the counts, as machines send, receive and finish.
use meldtools.Sched.Tokenizer.Promises.{
  IsBalanced, IsPromise, Elsewhere, minus-kept, plus-kept, taken, transmitted,
}
use meldtools.Common.{
  ℕ, zero, suc, ◌+◌, ◌-◌, ◌≤◌, ◌<◌, ◌≡◌, refl, sym, ap, ◌∙◌, inl, inr, true, false, arith, ltb,
  ◌==◌, Bool-cases,
}
use meldtools.Sched.Tokenizer.Ring.{Ring}
use meldtools.Sched.Tokenizer.{Token, Tokenizer, add_count, messages_received, messages_transmitted}
use meldtools.Sched.Tokenizer.Sums.{
  sum, sum-changed, update, update-other, update-same, update-kept,
}

sum-inbox : (f : ℕ → ℕ) (p m k : ℕ) → p < m → sum (update p k f) m + f p ≡ sum f m + k
sum-inbox f p m k l =
    let e = sum-changed f (update p k f) p m l (λ i d. sym (update-other p i k f d)) in
    omega (arith, e, update-same p k f)

sum-bound : (f : ℕ → ℕ) (m p : ℕ) → p < m → f p ≤ sum f m
unfolding sum
sum-bound f zero p l = absurd (omega arith)
sum-bound f (suc m) p l = elim (Bool-cases (p == m)) [
  | inl b ↦ let here : p ≡ m = ground arith in omega (arith, ap f here)
  | inr b ↦ omega (arith, sum-bound f m p (ground arith))
]

module _ (n : ℕ) (r : Ring) where
  -- A machine sends k messages.
  abbrev sending : ℕ → ℕ → ℕ → Ring
  sending p q k = record r {
    tokenizers = update p (messages_transmitted k (r.tokenizers p)) r.tokenizers;
    inbox = update q (r.inbox q + k) r.inbox;
  }

  pub sending-IsBalanced :
      (p q k : ℕ) → p ≤ n → q ≤ n → IsBalanced n r → IsBalanced n (sending p q k)
  sending-IsBalanced p q k hp hq b = omega (
    arith,
    transmitted r.tokenizers p k (suc n) (omega arith),
    sum-inbox r.inbox q (suc n) (r.inbox q + k) (omega arith),
  )

  pub sending-IsPromise :
      (p q k t : ℕ) (g : Token)
      → p ≤ n
      → t ≤ n
      → r.active p ≡ true
      → IsPromise n r t g
      → IsPromise n (sending p q k) t g
  unfolding messages_transmitted add_count
  sending-IsPromise p q k t g hp ht busy h =
      let z = r.tokenizers in
      let z' : ℕ → Tokenizer = update p (messages_transmitted k (z p)) z in
      let e : Elsewhere p z z' = λ i d. sym (update-other p i _ z d) in
      elim h [
        | inl (idle, sums) ↦ inl (
          idle,
          elim (Bool-cases (ltb t p)) [
            | inl b ↦ let rest = idle p (ground arith) hp in absurd cc
            | inr b ↦ omega (
              arith,
              transmitted z p k (suc n) (omega arith),
              transmitted z p k (suc t) (ground arith),
              sums,
            )
          ],
        )
        | inr (inl owing) ↦ inr (
            inl (elim (Bool-cases (ltb t p)) [
              | inl b ↦
                  let l : suc t ≤ p = ground arith in
                  omega (arith, plus-kept z z' p (suc t) l e, minus-kept z z' p (suc t) l e, owing)
              | inr b ↦ omega (arith, transmitted z p k (suc t) (ground arith), owing)
            ]))
        | inr (inr (inl (i, l, w))) ↦
            inr (inr (inl (i, l, update-kept (λ y. y.tok.white) z p i _ refl ∙ w)))
        | inr (inr (inr black)) ↦ inr (inr (inr black))
      ]

  -- A machine receives k messages, which put it to work.
  abbrev receiving : ℕ → ℕ → Ring
  receiving p k = record r {
    tokenizers = update p (messages_received k (r.tokenizers p)) r.tokenizers;
    inbox = update p (r.inbox p - k) r.inbox;
    active = update p true r.active;
  }

  pub receiving-IsBalanced :
      (p k : ℕ) → p ≤ n → k ≤ r.inbox p → IsBalanced n r → IsBalanced n (receiving p k)
  receiving-IsBalanced p k hp hk b = omega (
    arith,
    taken r.tokenizers p k (suc n) (omega arith),
    sum-inbox r.inbox p (suc n) (r.inbox p - k) (omega arith),
  )

  pub receiving-IsPromise :
      (p k t : ℕ) (g : Token)
      → p ≤ n
      → t ≤ n
      → k ≤ r.inbox p
      → 0 < k
      → IsBalanced n r
      → IsPromise n r t g
      → IsPromise n (receiving p k) t g
  unfolding messages_received
  receiving-IsPromise p k t g hp ht hk positive balanced h =
      let z = r.tokenizers in
      let z' : ℕ → Tokenizer = update p (messages_received k (z p)) z in
      let e : Elsewhere p z z' = λ i d. sym (update-other p i _ z d) in
      elim (Bool-cases (ltb t p)) [
        | inr b ↦ inr (
            inr (
              inl (
                p,
                ground arith,
                ap (λ y. y.tok.white) (update-same p (messages_received k (z p)) z),
              )))
        | inl b ↦
            let l : suc t ≤ p = ground arith in
            let kept_plus = plus-kept z z' p (suc t) l e in
            let kept_minus = minus-kept z z' p (suc t) l e in
            elim h [
              | inl (idle, sums) ↦ inr (
                  inl (
                    omega (
                      arith,
                      kept_plus,
                      kept_minus,
                      sums,
                      balanced,
                      sum-bound r.inbox (suc n) p (omega arith),
                    )))
              | inr (inl owing) ↦ inr (inl (omega (arith, kept_plus, kept_minus, owing)))
              | inr (inr (inl (i, m, w))) ↦ inr (
                  inr (
                    inl
                      (i, m, ap (λ y. y.tok.white) (update-other p i _ z (λ q. omega arith)) ∙ w)))
              | inr (inr (inr black)) ↦ inr (inr (inr black))
            ]
      ]

  -- A machine finishes its work.
  pub finishing-IsPromise :
      (p t : ℕ) (g : Token)
      → IsPromise n r t g
      → IsPromise n (record r { active = update p false r.active }) t g
  finishing-IsPromise p t g h = elim h [
    | inl (idle, sums) ↦ inl (
      (λ i l m. elim (Bool-cases (i == p)) [ inl b ↦ rw b refl | inr b ↦ rw b (idle i l m) ]),
      sums,
    )
    | inr others ↦ inr others
  ]

-- ===== src/Sched/Tokenizer/Safety.antt =====
-- When the leader finds the end of an iteration, the iteration is over.
use meldtools.Sched.Tokenizer.Promises.{IsPromise, IsBalanced}
use meldtools.Sched.Tokenizer.Place.{IsLocated, relocated}
use meldtools.Sched.Tokenizer.Polling.{test}
use meldtools.Sched.Tokenizer.Passing.{held-IsPromise, counted-IsBalanced}
use meldtools.Common.Int.{◌+ℤ◌, +ℤ_parts, pos_part, neg_part}
use meldtools.Common.{
  ℕ, suc, ◌≤◌, ◌≡◌, refl, ap, ◌∙◌, ◌⊎◌, inl, inr, Bool, true, false, ◌&&◌, some, arith, ◌==◌,
  Bool-cases,
}
use meldtools.Sched.Tokenizer.{Port, Token, add_count, is_zero, left_remote_id}
use meldtools.Sched.Tokenizer.Ring.{Ring, poll, polled, port}
use meldtools.Sched.Tokenizer.Sums.{sum, sum-zero, update, update-kept}

abbrev pub IsSound : ℕ → Ring → Type 0
IsSound n r = IsBalanced n r × IsLocated n r

-- No machine works, and no message is on its way.
abbrev pub IsOver : ℕ → Ring → Type 0
IsOver n r = (i : ℕ) → i ≤ n → (r.active i ≡ false) × (r.inbox i ≡ 0)

pub left-leader : (n : ℕ) → left_remote_id (suc n) 0 ≡ n
unfolding left_remote_id
left-leader n = omega arith

pub left-other : (w t : ℕ) → left_remote_id w (suc t) ≡ t
unfolding left_remote_id
left-other w t = ground arith

all_three : (a b c : Bool) → a && b && c ≡ true → (a ≡ true) × (b ≡ true) × (c ≡ true)
all_three true true true h = (refl, refl, refl)
all_three true true false h = absurd cc
all_three true false c h = absurd cc
all_three false b c h = absurd cc

-- The test of the leader.
pub test-IsOver :
    (n : ℕ) (r : Ring) (g : Token)
    → IsBalanced n r
    → IsPromise n r 0 g
    → r.active 0 ≡ false
    → test (suc n) (port r 0) g ≡ true
    → IsOver n r
unfolding add_count sum
test-IsOver n r g balanced promise rests passes =
    let c = (r.tokenizers 0).tok.count in
    let facts = all_three g.white (is_zero (add_count c g)) (r.tokenizers 0).tok.white passes in
    let zero_up : pos_part (g.count +ℤ c) ≡ 0 = ground (arith, facts.1) in
    let zero_down : neg_part (g.count +ℤ c) ≡ 0 = ground (arith, facts.1) in
    let parts = +ℤ_parts g.count c in
    elim promise [
      | inl (idle, sums) ↦
          let empty : sum r.inbox (suc n) ≡ 0 =
            omega (arith, balanced, sums, parts, zero_up, zero_down) in
          λ i l. (
            elim (Bool-cases (i == 0)) [
              | inl b ↦ let here : i ≡ 0 = ground arith in ap r.active here ∙ rests
              | inr b ↦ idle i (ground arith) l
            ],
            sum-zero r.inbox (suc n) i empty (omega arith),
          )
      | inr (inl owing) ↦ absurd (omega (arith, owing, parts, zero_up, zero_down))
      | inr (inr (inl (i, l, black))) ↦
          let here : i ≡ 0 = omega arith in
          let same = ap (λ j. (r.tokenizers j).tok.white) here in let white = facts.2 in absurd cc
      | inr (inr (inr black)) ↦ let white = facts.0 in absurd cc
    ]

-- A turn of a machine: it goes on in a sound ring, or it has found that the iteration is over.
abbrev pub IsTurn : ℕ → Ring → ℕ → Type 0
IsTurn n r p =
    ((q : Port) × (poll n r p ≡ some (true, q)) × IsSound n (polled n r p q))
    ⊎ ((q : Port) × (poll n r p ≡ some (false, q)) × IsOver n r)

module _ (n : ℕ) (r : Ring) (balanced : IsBalanced n r) where
  -- A machine does nothing.
  pub stays : (p : ℕ) → IsLocated n r → IsSound n (polled n r p (port r p))
  stays p located =
      let z = r.tokenizers in
      (
        counted-IsBalanced n r p (z p) (update p (r.link p) r.link) refl balanced,
        relocated n r (polled n r p (port r p))
            (λ i. update-kept (λ y. y.has_global_tok) z p i (z p) refl)
            (λ i. update-kept (λ y. y.global_tok) z p i (z p) refl)
            (λ i. update-kept (λ l. l) r.link p i (r.link p) refl)
            (λ t g l. held-IsPromise n r p (z p) (update p (r.link p) r.link) refl t g refl)
            located,
      )

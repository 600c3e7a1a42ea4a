-- ===== src/Sched/Tokenizer/Promises.antt =====
-- What a token on its way to the machine of rank t promises about the ring.
use meldtools.Common.Int.{pos, pos_part, neg_part, +ℤ_parts, -ℤ_parts}
use meldtools.Common.{ℕ, suc, ◌+◌, ◌≤◌, ◌<◌, ◌≡◌, sym, ap, ◌≢◌, ◌⊎◌, false, arith}
use meldtools.Sched.Tokenizer.Ring.{Ring}
use meldtools.Sched.Tokenizer.{
  Token, Tokenizer, add_count, messages_received, messages_transmitted, received,
}
use meldtools.Sched.Tokenizer.Sums.{sum, sum-changed, sum-kept, update, update-other, update-same}

-- The counts of the machines with ranks below m, above and below zero.
abbrev pub plus : (ℕ → Tokenizer) → ℕ → ℕ
plus z m = sum (λ i. pos_part (z i).tok.count) m

abbrev pub minus : (ℕ → Tokenizer) → ℕ → ℕ
minus z m = sum (λ i. neg_part (z i).tok.count) m

-- The counts of the machines add up to the messages on their way.
abbrev pub IsBalanced : ℕ → Ring → Type 0
IsBalanced n r = plus r.tokenizers (suc n) ≡ minus r.tokenizers (suc n) + sum r.inbox (suc n)

-- The machines that the token has passed are idle, and it carries the sum of their counts.
abbrev pub IsQuiet : ℕ → Ring → ℕ → Token → Type 0
IsQuiet n r t g =
    ((i : ℕ) → t < i → i ≤ n → r.active i ≡ false)
    × (plus r.tokenizers (suc n) + minus r.tokenizers (suc t) + neg_part g.count
        ≡ minus r.tokenizers (suc n) + plus r.tokenizers (suc t) + pos_part g.count)

-- The token and the machines that it has not passed have sent more than they received.
abbrev pub IsOwing : Ring → ℕ → Token → Type 0
IsOwing r t g =
    minus r.tokenizers (suc t) + neg_part g.count < plus r.tokenizers (suc t) + pos_part g.count

-- A machine that it has not passed is black.
abbrev pub IsDark : Ring → ℕ → Type 0
IsDark r t = (i : ℕ) × (i ≤ t) × ((r.tokenizers i).tok.white ≡ false)

abbrev pub IsPromise : ℕ → Ring → ℕ → Token → Type 0
IsPromise n r t g = IsQuiet n r t g ⊎ (IsOwing r t g ⊎ (IsDark r t ⊎ (g.white ≡ false)))

-- Tokenizers that differ at one rank only.
abbrev pub Elsewhere : ℕ → (ℕ → Tokenizer) → (ℕ → Tokenizer) → Type 0
Elsewhere p z z' = (i : ℕ) → i ≢ p → z i ≡ z' i

pub plus-changed :
    (z z' : ℕ → Tokenizer) (p m : ℕ)
    → p < m
    → Elsewhere p z z'
    → plus z' m + pos_part (z p).tok.count ≡ plus z m + pos_part (z' p).tok.count
plus-changed z z' p m l e = sum-changed _ _ p m l (λ i d. ap (λ y. pos_part y.tok.count) (e i d))

pub minus-changed :
    (z z' : ℕ → Tokenizer) (p m : ℕ)
    → p < m
    → Elsewhere p z z'
    → minus z' m + neg_part (z p).tok.count ≡ minus z m + neg_part (z' p).tok.count
minus-changed z z' p m l e = sum-changed _ _ p m l (λ i d. ap (λ y. neg_part y.tok.count) (e i d))

pub plus-kept : (z z' : ℕ → Tokenizer) (p m : ℕ) → m ≤ p → Elsewhere p z z' → plus z m ≡ plus z' m
plus-kept z z' p m l e = sum-kept _ _ p m l (λ i d. ap (λ y. pos_part y.tok.count) (e i d))

pub minus-kept :
    (z z' : ℕ → Tokenizer) (p m : ℕ) → m ≤ p → Elsewhere p z z' → minus z m ≡ minus z' m
minus-kept z z' p m l e = sum-kept _ _ p m l (λ i d. ap (λ y. neg_part y.tok.count) (e i d))

module _ (z : ℕ → Tokenizer) (p k m : ℕ) where
  pub transmitted :
      p < m
      → plus (update p (messages_transmitted k (z p)) z) m + minus z m
        ≡ plus z m + minus (update p (messages_transmitted k (z p)) z) m + k
  unfolding messages_transmitted add_count
  transmitted l =
      let z' : ℕ → Tokenizer = update p (messages_transmitted k (z p)) z in
      let e : Elsewhere p z z' = λ i d. sym (update-other p i _ z d) in
      let here : z' p ≡ messages_transmitted k (z p) = update-same p _ z in
      let a = ap (λ y. pos_part y.tok.count) here in
      let b = ap (λ y. neg_part y.tok.count) here in
      omega (
        arith,
        plus-changed z z' p m l e,
        minus-changed z z' p m l e,
        a,
        b,
        +ℤ_parts (z p).tok.count (pos k),
      )

  pub taken :
      p < m
      → plus (update p (messages_received k (z p)) z) m + minus z m + k
        ≡ plus z m + minus (update p (messages_received k (z p)) z) m
  unfolding messages_received received
  taken l =
      let z' : ℕ → Tokenizer = update p (messages_received k (z p)) z in
      let e : Elsewhere p z z' = λ i d. sym (update-other p i _ z d) in
      let here : z' p ≡ messages_received k (z p) = update-same p _ z in
      let a = ap (λ y. pos_part y.tok.count) here in
      let b = ap (λ y. neg_part y.tok.count) here in
      omega (
        arith,
        plus-changed z z' p m l e,
        minus-changed z z' p m l e,
        a,
        b,
        -ℤ_parts (z p).tok.count (pos k),
      )

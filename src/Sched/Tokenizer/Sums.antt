-- ===== src/Sched/Tokenizer/Sums.antt =====
-- Families indexed by rank: update at one rank, and sums over the first ranks.
use meldtools.Common.{
  ℕ, zero, suc, ◌+◌, ◌≤◌, ◌<◌, ◌≡◌, refl, ap, ◌∙◌, ◌≢◌, inl, inr, true, false, arith, ◌==◌,
  if◌then◌else◌, Bool-cases, sym,
}

abbrev pub update {ℓ} : {A : Type ℓ} → ℕ → A → (ℕ → A) → ℕ → A
update p x f i = if i == p then x else f i

pub update-same {ℓ} : {A : Type ℓ} (p : ℕ) (x : A) (f : ℕ → A) → update p x f p ≡ x
update-same p x f = let e : (p == p) ≡ true = ground arith in rw e refl

pub update-other {ℓ} : {A : Type ℓ} (p i : ℕ) (x : A) (f : ℕ → A) → i ≢ p → update p x f i ≡ f i
update-other p i x f n = let e : (i == p) ≡ false = ground arith in rw e refl

-- A part in which the new value is as the old one is kept at every rank.
pub update-kept {ℓ κ} :
    {A : Type ℓ} {B : Type κ} (part : A → B) (f : ℕ → A) (p i : ℕ) (x : A)
    → part x ≡ part (f p)
    → part (update p x f i) ≡ part (f i)
update-kept part f p i x same = elim (Bool-cases (i == p)) [
  | inl b ↦ let here : i ≡ p = ground arith in rw b (same ∙ sym (ap (λ j. part (f j)) here))
  | inr b ↦ rw b refl
]

unfoldable pub sum : (ℕ → ℕ) → ℕ → ℕ
sum f zero = 0
sum f (suc m) = sum f m + f m

pub sum-same : (f g : ℕ → ℕ) (m : ℕ) → ((i : ℕ) → i < m → f i ≡ g i) → sum f m ≡ sum g m
unfolding sum
sum-same f g zero e = refl
sum-same f g (suc m) e = omega (arith, sum-same f g m (λ i l. e i (omega arith)), e m (omega arith))

-- Families that differ at one rank only.
pub sum-changed :
    (f g : ℕ → ℕ) (p m : ℕ) → p < m → ((i : ℕ) → i ≢ p → f i ≡ g i) → sum g m + f p ≡ sum f m + g p
unfolding sum
sum-changed f g p zero l e = absurd (omega arith)
sum-changed f g p (suc m) l e = elim (Bool-cases (p == m)) [
  | inl b ↦
      let here : p ≡ m = ground arith in
      let below = sum-same f g m (λ i k. e i (λ q. omega arith)) in
      let fs : f p ≡ f m = ap f here in
      let gs : g p ≡ g m = ap g here in omega (arith, below, fs, gs)
  | inr b ↦
      let away : m ≢ p = ground arith in
      omega (arith, sum-changed f g p m (ground arith) e, e m away)
]

pub sum-kept : (f g : ℕ → ℕ) (p m : ℕ) → m ≤ p → ((i : ℕ) → i ≢ p → f i ≡ g i) → sum f m ≡ sum g m
sum-kept f g p m l e = sum-same f g m (λ i k. e i (λ q. omega arith))

pub sum-zero : (f : ℕ → ℕ) (m i : ℕ) → sum f m ≡ 0 → i < m → f i ≡ 0
unfolding sum
sum-zero f zero i h l = absurd (omega arith)
sum-zero f (suc m) i h l = elim (Bool-cases (i == m)) [
  | inl b ↦ let here : i ≡ m = ground arith in ap f here ∙ omega arith
  | inr b ↦ sum-zero f m i (omega arith) (ground arith)
]

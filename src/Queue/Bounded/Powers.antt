-- ===== src/Queue/Bounded/Powers.antt =====
-- The powers of two of the constructor: predicates/utils/utils.hpp.
use meldtools.Common.{
  ℕ, zero, suc, ◌+◌, ◌^◌, ◌≡◌, arith, ◌≤◌, ◌<◌, ap, inl, inr, false, some, ltb, ltb→lt, Bool-cases,
  ◌*◌, ◌%◌, u64_mod, refl, true, leb,
}
use meldtools.Queue.Bounded.{double_up, count_up, next_power2, upper_log2}

pub pow_twice : (h : ℕ) → 2 ^ suc h ≡ 2 ^ h + 2 ^ h
pow_twice h = omega arith

pub pow_positive : (h : ℕ) → 0 < 2 ^ h
pow_positive zero = omega arith
pow_positive (suc h) = omega (arith, pow_twice h, pow_positive h)

same : (j k : ℕ) → j < suc k → ltb j k ≡ false → j ≡ k
same j k = ground arith

pub pow_lt : (i h : ℕ) → i < h → 2 ^ i < 2 ^ h
pow_lt i zero below = absurd (omega arith)
pow_lt i (suc h) below = elim (Bool-cases (ltb i h)) [
  | inl l ↦ omega (arith, pow_twice h, pow_lt i h (ltb→lt i h l), pow_positive h)
  | inr l ↦ omega (arith, pow_twice h, ap (λ k. 2 ^ k) (same i h below l), pow_positive h)
]

-- The largest power of two that a 64-bit word holds.
abbrev pub max_range : ℕ
max_range = 9223372036854775808

pub pow_bound : (h : ℕ) → h ≤ 63 → 2 ^ h ≤ max_range
pow_bound h le = elim (Bool-cases (ltb h 63)) [
  | inl l ↦ omega (arith, pow_lt h 63 (ltb→lt h 63 l))
  | inr l ↦ omega (arith, ap (λ k. 2 ^ k) (same h 63 (omega arith) l))
]

abbrev pub IsLeast : ℕ → ℕ → Type 0
IsLeast val h = (val ≤ 2 ^ h) × (h ≤ 63) × ((j : ℕ) → j < h → 2 ^ j < val)

doubled : (k : ℕ) → 2 ^ k < max_range → 2 ^ k * 2 % u64_mod ≡ 2 ^ suc k
doubled k h = omega (arith, pow_twice k)

double_up-pow :
    (fuel k val : ℕ)
    → k + fuel ≡ 64
    → k ≤ 63
    → val ≤ max_range
    → ((j : ℕ) → j < k → 2 ^ j < val)
    → (h : ℕ) × (double_up fuel val (2 ^ k) ≡ some (2 ^ h)) × IsLeast val h
unfolding double_up
double_up-pow zero k val e le m below = absurd (omega arith)
double_up-pow (suc fuel) k val e le m below = elim (Bool-cases (ltb (2 ^ k) val)) [
  | inr l ↦ (k, rw l, (ground arith, le, below))
  | inl l ↦
      let more =
        double_up-pow fuel (suc k) val (omega arith) (not_last k le (ground arith) m) m (λ j before.
          elim (Bool-cases (ltb j k)) [
            | inl b ↦ below j (ltb→lt j k b)
            | inr b ↦ omega (arith, ap (λ n. 2 ^ n) (same j k before b), ltb→lt (2 ^ k) val l)
          ]) in
      (more.0, rw (l, doubled k (omega (arith, ltb→lt (2 ^ k) val l)), more.1), more.2)
]
  where
    not_last : (k : ℕ) → k ≤ 63 → 2 ^ k < val → val ≤ max_range → suc k ≤ 63
    not_last k le lt m = elim (Bool-cases (ltb k 63)) [
      | inl l ↦ omega (arith, ltb→lt k 63 l)
      | inr l ↦ omega (arith, ap (λ n. 2 ^ n) (same k 63 (omega arith) l))
    ]

-- next_power2 of a value up to 2 ^ 63 ends within its 64 rounds at the least power of two that is
-- not below the value.
pub next_power2_lem :
    (val : ℕ) → val ≤ max_range → (h : ℕ) × (next_power2 val ≡ some (2 ^ h)) × IsLeast val h
unfolding next_power2
next_power2_lem val m =
    double_up-pow 64 0 val refl (omega arith) m (λ j below. absurd (omega arith))

count_up-pow :
    (fuel i h : ℕ) → i + fuel ≡ 64 → i ≤ h → h ≤ 63 → count_up fuel (2 ^ h) i (2 ^ i) ≡ some h
unfolding count_up
count_up-pow zero i h e le m = absurd (omega arith)
count_up-pow (suc fuel) i h e le m = elim (Bool-cases (ltb i h)) [
  | inl l ↦
      let small = pow_lt i h (ltb→lt i h l) in
      ground (
        arith,
        small,
        doubled i (omega (arith, small, pow_bound h m)),
        count_up-pow fuel (suc i) h (omega arith) (omega (arith, ltb→lt i h l)) m,
      )
  | inr l ↦ ground (arith, same i h (omega arith) l)
]

-- upper_log2 of a power of two ends within its 64 rounds at the exponent.
pub upper_log2-pow : (h : ℕ) → h ≤ 63 → upper_log2 (2 ^ h) ≡ some h
unfolding upper_log2
upper_log2-pow h m = ground (arith, pow_positive h, count_up-pow 64 0 h refl (omega arith) m)

beyond : (k c val : ℕ) → k ≤ c → 2 ^ k < val → val ≤ 2 ^ c → suc k ≤ c
beyond k c val le above fits = elim (Bool-cases (ltb k c)) [
  | inl b ↦ ground arith
  | inr b ↦ let e : k ≡ c = ground arith in absurd (omega (arith, ap (λ i. 2 ^ i) e))
]

count_up_total :
    (fuel k val : ℕ)
    → k + fuel ≡ 64
    → k ≤ 63
    → val ≤ max_range
    → (h : ℕ) × (count_up fuel val k (2 ^ k) ≡ some h)
      × (val ≤ 2 ^ h)
      × ((b : ℕ) → k ≤ b → val ≤ 2 ^ b → h ≤ b)
unfolding count_up
count_up_total zero k val e l m = absurd (omega arith)
count_up_total (suc fuel) k val e l m = elim (Bool-cases (leb val (2 ^ k))) [
  | inl b ↦ (k, rw b refl, ground arith, λ c le fits. le)
  | inr b ↦
      let small : 2 ^ k < max_range = ground arith in
      let next : k < 63 = elim (Bool-cases (ltb k 63)) [
        | inl below ↦ ground arith
        | inr last ↦ omega (arith, ap (λ n. 2 ^ n) (same k 63 (omega arith) last))
      ] in
      let up : k + 1 ≡ suc k = omega arith in
      let more = count_up_total fuel (suc k) val (omega arith) (omega arith) m in
      (
        more.0,
        rw (b, doubled k small, up) more.1,
        more.2,
        λ c le fits. more.3 c (beyond k c val le (ground arith) fits) fits,
      )
]

-- upper_log2 of a positive value up to 2 ^ 63 ends at the least exponent whose power is not
-- below it.
pub upper_log2_total :
    (val : ℕ)
    → 0 < val
    → val ≤ max_range
    → (h : ℕ) × (upper_log2 val ≡ some h) × (val ≤ 2 ^ h) × ((b : ℕ) → val ≤ 2 ^ b → h ≤ b)
unfolding upper_log2
upper_log2_total val l m =
    let t : ltb 0 val ≡ true = ground arith in
    let e = count_up_total 64 0 val refl (omega arith) m in
    (e.0, rw t e.1, e.2, λ b. e.3 b (omega arith))

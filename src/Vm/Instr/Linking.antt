-- ===== src/Vm/Instr/Linking.antt =====
-- The writes of the linker into byte code: rule and predicate numbers.
use meldtools.Vm.Instr.{◌>>=◌, Decoded, byte_get, jump_get, ok}
use meldtools.Common.{
  ℕ, ◌+◌, ◌*◌, ◌/◌, ◌%◌, ◌<◌, ◌≡◌, inl, inr, List, [], ◌∷◌, arith, ◌==◌, if◌then◌else◌,
  Option-cases, get_elem?, set, get_elem?-set, All,
}

-- `rule_get_id`
unfoldable pub rule_get_id : List ℕ → Decoded ℕ
rule_get_id pc = jump_get pc 1

-- `rule_set_id`: an assignment to the one byte at pc + 1.
unfoldable pub rule_set_id : List ℕ → ℕ → List ℕ
rule_set_id pc id = set pc 1 (id % 256)

-- `predicate_get`
unfoldable pub predicate_get : List ℕ → ℕ → Decoded ℕ
predicate_get pc off = do b ← byte_get pc off; ok (b % 128)

-- `predicate_set`
unfoldable pub predicate_set : List ℕ → ℕ → ℕ → List ℕ
predicate_set pc off id = set pc off (id % 256)

-- The number of a rule that is read back after the linker wrote one: only the low byte is the one
-- that was written, the rest is the old number's.
pub rule_get_id-rule_set_id :
    (pc : List ℕ) (id old : ℕ)
    → All (λ b. b < 256) pc
    → rule_get_id pc ≡ ok old
    → rule_get_id (rule_set_id pc id) ≡ ok (id % 256 + 256 * (old / 256))
unfolding rule_get_id rule_set_id jump_get
rule_get_id-rule_set_id (c ∷ b₀ ∷ b₁ ∷ b₂ ∷ b₃ ∷ rest) id old bytes e = ground arith
rule_get_id-rule_set_id (c ∷ b₀ ∷ b₁ ∷ b₂ ∷ []) id old bytes e = cc
rule_get_id-rule_set_id (c ∷ b₀ ∷ b₁ ∷ []) id old bytes e = cc
rule_get_id-rule_set_id (c ∷ b₀ ∷ []) id old bytes e = cc
rule_get_id-rule_set_id (c ∷ []) id old bytes e = cc
rule_get_id-rule_set_id [] id old bytes e = cc

-- A predicate number that the linker writes is read back modulo 128, and reads elsewhere are as
-- before.
pub predicate_get-predicate_set :
    (pc : List ℕ) (off at id old : ℕ)
    → predicate_get pc off ≡ ok old
    → predicate_get (predicate_set pc off id) at
      ≡ (if off == at then ok (id % 128) else predicate_get pc at)
unfolding predicate_get predicate_set
predicate_get-predicate_set pc off at id old e = elim (Option-cases (get_elem? pc off)) [
  | inl none_there ↦ absurd (ground arith)
  | inr (b, found) ↦ ground (arith, get_elem?-set pc off at (id % 256) found)
]

-- ===== src/Vm/Exec/Meaning/Operations.antt =====
-- execute_op does the operation that its number means.
use meldtools.Common.{
  ℕ, zero, suc, ◌≤◌, [], ◌∷◌, length, get_elem?, ◌≡◌, refl, ap, ◌∙◌, ◌%◌, Option, none, some, List,
  ◌++◌, arith, not,
}
use meldtools.Vm.Exec.{Floats, ◌>>=◌, Run, State, thrown}
use meldtools.Vm.Exec.Arithmetic.{
  InstrOp, instr_op, ops, int_div, int_mod, less_int, op_neqf, op_neqi, op_eqf, op_eqi, op_lessf,
  op_lessi, op_lesseqf, op_lesseqi, op_greaterf, op_greateri, op_greatereqf, op_greatereqi, op_modf,
  op_modi, op_plusf, op_plusi, op_minusf, op_minusi, op_timesf, op_timesi, op_divf, op_divi,
  op_neqa, op_eqa, op_greatera, op_orb,
}
use meldtools.Vm.Exec.Meaning.{
  signed_less, intended, left_at, meant, on_ints, quotient, remainder, test_ints,
}
use meldtools.Vm.Exec.Meaning.Operands.{value-meant}
use meldtools.Vm.Exec.Meaning.Results.{stored-left_at}
use meldtools.Vm.Exec.Operate.{>>=-cong, execute_op-encode, operated}
use meldtools.Vm.Exec.Ops.{execute_op, operation}
use meldtools.Vm.Instr.Encoding.{Arg, IsInstruction, encode, op}

get_elem?_past : (xs : List InstrOp) (n : ℕ) → length xs ≤ n → get_elem? xs n ≡ none
get_elem?_past [] n le = refl
get_elem?_past (x ∷ xs) zero le = absurd (omega arith)
get_elem?_past (x ∷ xs) (suc n) le = get_elem?_past xs n (omega arith)

less_int-signed_less : (a b : ℕ) → less_int a b ≡ signed_less a b
less_int-signed_less a b = ground arith

int_div-quotient : (a b : ℕ) → int_div a b ≡ quotient a b
unfolding int_div
int_div-quotient a b = ground arith

int_mod-remainder : (a b : ℕ) → int_mod a b ≡ remainder a b
unfolding int_mod
int_mod-remainder a b = ground arith

-- The number that each operation has in the byte code.
abbrev pub op_number : InstrOp → ℕ
op_number op_neqf = 0x00
op_number op_neqi = 0x01
op_number op_eqf = 0x02
op_number op_eqi = 0x03
op_number op_lessf = 0x04
op_number op_lessi = 0x05
op_number op_lesseqf = 0x06
op_number op_lesseqi = 0x07
op_number op_greaterf = 0x08
op_number op_greateri = 0x09
op_number op_greatereqf = 0x0a
op_number op_greatereqi = 0x0b
op_number op_modf = 0x0c
op_number op_modi = 0x0d
op_number op_plusf = 0x0e
op_number op_plusi = 0x0f
op_number op_minusf = 0x10
op_number op_minusi = 0x11
op_number op_timesf = 0x12
op_number op_timesi = 0x13
op_number op_divf = 0x14
op_number op_divi = 0x15
op_number op_neqa = 0x16
op_number op_eqa = 0x17
op_number op_greatera = 0x18
op_number op_orb = 0x19

pub data Numbers : ℕ → Option InstrOp → Type 0 where
  numbered : (o : InstrOp) → Numbers (op_number o) (some o)
  beyond : (n : ℕ) → 26 ≤ n → Numbers n none

instr_op-op_number : (o : InstrOp) → instr_op (op_number o) ≡ some o
unfolding instr_op
instr_op-op_number op_neqf = refl
instr_op-op_number op_neqi = refl
instr_op-op_number op_eqf = refl
instr_op-op_number op_eqi = refl
instr_op-op_number op_lessf = refl
instr_op-op_number op_lessi = refl
instr_op-op_number op_lesseqf = refl
instr_op-op_number op_lesseqi = refl
instr_op-op_number op_greaterf = refl
instr_op-op_number op_greateri = refl
instr_op-op_number op_greatereqf = refl
instr_op-op_number op_greatereqi = refl
instr_op-op_number op_modf = refl
instr_op-op_number op_modi = refl
instr_op-op_number op_plusf = refl
instr_op-op_number op_plusi = refl
instr_op-op_number op_minusf = refl
instr_op-op_number op_minusi = refl
instr_op-op_number op_timesf = refl
instr_op-op_number op_timesi = refl
instr_op-op_number op_divf = refl
instr_op-op_number op_divi = refl
instr_op-op_number op_neqa = refl
instr_op-op_number op_eqa = refl
instr_op-op_number op_greatera = refl
instr_op-op_number op_orb = refl

instr_op-beyond : (n : ℕ) → 26 ≤ n → instr_op n ≡ none
unfolding instr_op ops
instr_op-beyond n le = get_elem?_past ops n le

instr_op-Numbers : (n : ℕ) (o : Option InstrOp) → Numbers n o → instr_op n ≡ o
instr_op-Numbers _ _ (numbered o) = instr_op-op_number o
instr_op-Numbers _ _ (beyond n le) = instr_op-beyond n le

module _ (F : Floats) where
  operation-intended : (o : InstrOp) → operation F o ≡ intended F o
  unfolding operation
  operation-intended op_lessi = ap (test_ints F) (λ i a b. less_int-signed_less a b i)
  operation-intended op_lesseqi = ap (test_ints F) (λ i a b. not (less_int-signed_less b a i))
  operation-intended op_greateri = ap (test_ints F) (λ i a b. less_int-signed_less b a i)
  operation-intended op_greatereqi = ap (test_ints F) (λ i a b. not (less_int-signed_less a b i))
  operation-intended op_modi = ap (on_ints F) (λ i a b. int_mod-remainder a b i)
  operation-intended op_divi = ap (on_ints F) (λ i a b. int_div-quotient a b i)
  operation-intended o = refl

  -- The operands as they are before, the operation, and the result at the destination.
  abbrev pub performed : Option InstrOp → Arg → Arg → Arg → State F → Run (State F)
  performed none a b c s = thrown
  performed (some which) a b c s =
      let o = intended F which in
      meant F o.from a s >>= λ x.
      meant F o.from b s >>= λ y. o.run x y >>= λ v. left_at F o.to c v s

  operated-performed :
      (o : Option InstrOp) (a b c : Arg) (n : ℕ) (s : State F)
      → IsInstruction (op a b c n)
      → operated F o a b c s ≡ performed o a b c s
  operated-performed none a b c n s h = refl
  operated-performed (some which) a b c n s (ha, hb, hc) =
      let o = intended F which in
      rw (operation-intended which, value-meant F o.from a s ha.2, value-meant F o.from b s hb.2)
        (>>=-cong (meant F o.from a s) (λ x.
          >>=-cong (meant F o.from b s)
            (λ y. >>=-cong (o.run x y) (λ v. stored-left_at F o.to c v s hc.2))))

  -- On a well-formed operation instruction, execute_op reads both operands in the state before it,
  -- does the operation of the number on them, and leaves the result where the destination means and
  -- all else as it was; a number that no operation has throws.
  pub execute_op-performed :
      (a b c : Arg) (o : ℕ) (which : Option InstrOp) (rest : List ℕ) (s : State F)
      → IsInstruction (op a b c o)
      → Numbers (o % 32) which
      → execute_op F (encode (op a b c o) ++ rest) s ≡ performed which a b c s
  execute_op-performed a b c o which rest s h n =
      execute_op-encode F a b c o rest s h
      ∙ rw (instr_op-Numbers (o % 32) which n) (operated-performed which a b c o s h)

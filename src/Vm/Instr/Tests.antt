-- ===== src/Vm/Instr/Tests.antt =====
-- The byte code of single instructions.
use meldtools.Common.{ℕ, ◌≡◌, refl, ◌≢◌, List, [], ◌∷◌, ◌++◌, arith}
use meldtools.Vm.Instr.Encoding.{Instruction, encode, iterate, op}
use meldtools.Vm.Instr.Advance.{advance, fetch, instr_size}
use meldtools.Vm.Instr.Stepping.{advance-encode}
use meldtools.Vm.Instr.{anything_size, malformed, ok, out_of_fuel, outside, writable_size}
use meldtools.Vm.Instr.Operands.{
  arg_size, arg_size-code, arg_size_lem, field, host, int, list, operand_code, operand_of, reg,
  sized, writable,
}
use meldtools.Vm.Instr.Loops.{iter_matches_size, iter_matches_size_total}

-- `OP reg 1 + field 0.2 TO reg 3` on integers.
abbrev sum_code : List ℕ
sum_code = 0xc0 ∷ 0x21 ∷ 0x02 ∷ 0x23 ∷ 0x0f ∷ 2 ∷ 0 ∷ 0xf0 ∷ []

abbrev sum : Instruction
sum =
    op (record { kind = reg 1; payload = [] }) (record { kind = field; payload = 2 ∷ 0 ∷ [] })
      (record { kind = reg 3; payload = [] }) 0x0f

encode-sum : encode sum ++ 0xf0 ∷ [] ≡ sum_code
encode-sum = refl

advance-sum : advance sum_code ≡ ok 7
unfolding advance fetch instr_size anything_size writable_size
advance-sum = refl

advance-else : advance (0x02 ∷ []) ≡ malformed
unfolding advance fetch
advance-else = refl

advance-cut : advance (0xc0 ∷ 0x21 ∷ []) ≡ outside
unfolding advance fetch instr_size anything_size
advance-cut = refl

-- `ITERATE pred 5 MATCHING 1 = reg 2, 0 = INT 7`
abbrev scan : Instruction
scan =
    iterate (5 ∷ 0 ∷ 0 ∷ 30 ∷ 0 ∷ 0 ∷ 0 ∷ []) ((1, record { kind = reg 2; payload = [] }) ∷ [])
      (0, record { kind = int; payload = 7 ∷ 0 ∷ 0 ∷ 0 ∷ [] })

advance-encode_example : advance (encode scan ++ 0x00 ∷ []) ≡ ok 16
advance-encode_example = advance-encode scan (0x00 ∷ []) (ground arith)

arg_size-code_example : arg_size writable (operand_code host) ≡ malformed
arg_size-code_example = arg_size-code writable host tt

arg_size_lem_example : arg_size list 0x29 ≡ sized list (operand_of 0x29)
arg_size_lem_example = arg_size_lem list 0x29 (omega arith)

iter_matches_size_total_example : iter_matches_size (1 ∷ 0x22 ∷ 1 ∷ []) ≢ out_of_fuel
iter_matches_size_total_example = iter_matches_size_total (1 ∷ 0x22 ∷ 1 ∷ [])

-- ===== src/Vm/Instr/Encoding.antt =====
-- An independent description of the byte code: abstract instructions, and the bytes of each.
use meldtools.Common.{
  ℕ, ◌+◌, ◌*◌, ◌/◌, ◌%◌, ◌<◌, ◌≡◌, true, Option, none, some, List, [], ◌∷◌, ◌++◌, length, u32_mod,
}
use meldtools.Vm.Instr.Operands.{
  ArgType, IsOperand, Operand, admits, anything, anything_not_nil, bool_arg, int_arg, list,
  node_arg, non_list, operand_code, operand_size, writable,
}
use meldtools.Vm.Instr.Advance.{
  InstrType, alloc_instr, call_instr, calle_instr, callf_instr, colocated_instr, cons_instr,
  delete_instr, end_linear_instr, float_instr, head_instr, if_instr, iter_instr, move_instr,
  move_nil_instr, new_axioms_instr, new_node_instr, next_instr, not_instr, op_instr, pop_instr,
  pop_regs_instr, push_instr, push_regs_instr, remove_instr, reset_linear_instr,
  return_derived_instr, return_instr, return_linear_instr, return_select_instr, rule_done_instr,
  rule_instr, select_instr, send_delay_instr, send_instr, tail_instr, test_nil_instr,
}

-- An operand with the bytes that follow for it.
pub record Arg : Type 0 where
  pub kind : Operand
  pub payload : List ℕ

abbrev pub IsArg : ArgType → Arg → Type 0
IsArg t a = IsOperand a.kind × (admits t a.kind ≡ true) × (length a.payload ≡ operand_size a.kind)

abbrev pub mark : Arg → ℕ
mark a = operand_code a.kind

-- A number as four bytes.
unfoldable pub word : ℕ → List ℕ
word n = n % 256 ∷ n / 256 % 256 ∷ n / 65536 % 256 ∷ n / 16777216 % 256 ∷ []

pub data Instruction : Type 0 where
  fixed : InstrType → List ℕ → Instruction
  float_to : Arg → Arg → Instruction
  op : Arg → Arg → Arg → ℕ → Instruction
  move : Arg → Arg → Instruction
  move_nil : Arg → Instruction
  test_nil : Arg → Arg → Instruction
  cons : ℕ → Arg → Arg → Arg → Instruction
  head : ℕ → Arg → Arg → Instruction
  tail : ℕ → Arg → Arg → Instruction
  negate : Arg → Arg → Instruction
  colocated : Arg → Arg → ℕ → Instruction
  call : ℕ → ℕ → List Arg → Instruction
  calle : ℕ → ℕ → List Arg → Instruction
  delete : ℕ → List (ℕ × Arg) → Instruction
  iterate_all : List ℕ → ℕ → ℕ → Instruction
  iterate : List ℕ → List (ℕ × Arg) → ℕ × Arg → Instruction
  select : List ℕ → ℕ → List ℕ → Instruction
  new_axioms : List ℕ → Instruction

-- The size of the instructions without operands of variable size.
abbrev pub fixed_size : InstrType → Option ℕ
fixed_size return_instr = some 1
fixed_size next_instr = some 1
fixed_size send_instr = some 3
fixed_size return_select_instr = some 5
fixed_size reset_linear_instr = some 5
fixed_size end_linear_instr = some 1
fixed_size rule_instr = some 5
fixed_size rule_done_instr = some 1
fixed_size new_node_instr = some 2
fixed_size send_delay_instr = some 7
fixed_size push_instr = some 1
fixed_size pop_instr = some 1
fixed_size push_regs_instr = some 1
fixed_size pop_regs_instr = some 1
fixed_size callf_instr = some 2
fixed_size alloc_instr = some 3
fixed_size if_instr = some 6
fixed_size remove_instr = some 2
fixed_size return_linear_instr = some 1
fixed_size return_derived_instr = some 1
fixed_size _ = none

abbrev pub opcode : InstrType → ℕ
opcode return_instr = 0x00
opcode next_instr = 0x01
opcode test_nil_instr = 0x03
opcode cons_instr = 0x04
opcode head_instr = 0x05
opcode tail_instr = 0x06
opcode not_instr = 0x07
opcode send_instr = 0x08
opcode float_instr = 0x09
opcode select_instr = 0x0a
opcode return_select_instr = 0x0b
opcode colocated_instr = 0x0c
opcode delete_instr = 0x0d
opcode reset_linear_instr = 0x0e
opcode end_linear_instr = 0x0f
opcode rule_instr = 0x10
opcode rule_done_instr = 0x11
opcode new_node_instr = 0x13
opcode new_axioms_instr = 0x14
opcode send_delay_instr = 0x15
opcode push_instr = 0x16
opcode pop_instr = 0x17
opcode push_regs_instr = 0x18
opcode pop_regs_instr = 0x19
opcode callf_instr = 0x1a
opcode calle_instr = 0x1b
opcode call_instr = 0x20
opcode move_instr = 0x30
opcode alloc_instr = 0x40
opcode if_instr = 0x60
opcode move_nil_instr = 0x70
opcode remove_instr = 0x80
opcode iter_instr = 0xa0
opcode op_instr = 0xc0
opcode return_linear_instr = 0xd0
opcode return_derived_instr = 0xf0

abbrev pub encode_args : List Arg → List ℕ
encode_args [] = []
encode_args (a ∷ as') = mark a ∷ a.payload ++ encode_args as'

abbrev pub encode_indexed : List (ℕ × Arg) → List ℕ
encode_indexed [] = []
encode_indexed ((i, a) ∷ as') = i ∷ mark a ∷ a.payload ++ encode_indexed as'

-- A match on a field; the last of an iteration has the bit 0x40 set.
abbrev pub encode_last : ℕ × Arg → List ℕ
encode_last (f, a) = f ∷ (64 + mark a) ∷ a.payload

abbrev pub encode : Instruction → List ℕ
encode (fixed t bytes) = opcode t ∷ bytes
encode (float_to a b) = 0x09 ∷ mark a ∷ mark b ∷ a.payload ++ b.payload
encode (op a b c o) = 0xc0 ∷ mark a ∷ mark b ∷ mark c ∷ o ∷ a.payload ++ b.payload ++ c.payload
encode (move a b) = 0x30 ∷ mark a ∷ mark b ∷ a.payload ++ b.payload
encode (move_nil a) = 0x70 ∷ mark a ∷ a.payload
encode (test_nil a b) = 0x03 ∷ mark a ∷ mark b ∷ a.payload ++ b.payload
encode (cons t a b c) = 0x04 ∷ t ∷ mark a ∷ mark b ∷ mark c ∷ a.payload ++ b.payload ++ c.payload
encode (head t a b) = 0x05 ∷ t ∷ mark a ∷ mark b ∷ a.payload ++ b.payload
encode (tail t a b) = 0x06 ∷ t ∷ mark a ∷ mark b ∷ a.payload ++ b.payload
encode (negate a b) = 0x07 ∷ mark a ∷ mark b ∷ a.payload ++ b.payload
encode (colocated a b r) = 0x0c ∷ mark a ∷ mark b ∷ r ∷ a.payload ++ b.payload
encode (call f r as') = 0x20 ∷ f ∷ length as' ∷ r ∷ encode_args as'
encode (calle f r as') = 0x1b ∷ f ∷ length as' ∷ r ∷ encode_args as'
encode (delete p as') = 0x0d ∷ p ∷ length as' ∷ encode_indexed as'
encode (iterate_all header f b) = 0xa0 ∷ header ++ f ∷ (192 + b) ∷ []
encode (iterate header ms m) = 0xa0 ∷ header ++ (encode_indexed ms ++ encode_last m)
encode (select size h table) = 0x0a ∷ size ++ (word h ++ table)
encode (new_axioms bytes) = 0x14 ∷ word (5 + length bytes) ++ bytes

abbrev pub AllArgs : List Arg → Type 0
AllArgs [] = Unit {0}
AllArgs (a ∷ as') = IsArg anything a × AllArgs as'

abbrev pub AllIndexed : List (ℕ × Arg) → Type 0
AllIndexed [] = Unit {0}
AllIndexed ((i, a) ∷ as') = IsArg anything a × AllIndexed as'

-- Operands are of the kinds that the instruction takes, and the parts have their sizes.
abbrev pub IsInstruction : Instruction → Type 0
IsInstruction (fixed t bytes) = fixed_size t ≡ some (1 + length bytes)
IsInstruction (float_to a b) = IsArg int_arg a × IsArg writable b
IsInstruction (op a b c o) = IsArg anything a × IsArg anything b × IsArg writable c
IsInstruction (move a b) = IsArg anything_not_nil a × IsArg writable b
IsInstruction (move_nil a) = IsArg writable a
IsInstruction (test_nil a b) = IsArg list a × IsArg writable b
IsInstruction (cons t a b c) = IsArg non_list a × IsArg list b × IsArg writable c
IsInstruction (head t a b) = IsArg list a × IsArg writable b
IsInstruction (tail t a b) = IsArg list a × IsArg writable b
IsInstruction (negate a b) = IsArg bool_arg a × IsArg writable b
IsInstruction (colocated a b r) = IsArg node_arg a × IsArg node_arg b
IsInstruction (call f r as') = AllArgs as'
IsInstruction (calle f r as') = AllArgs as'
IsInstruction (delete p as') = AllIndexed as'
IsInstruction (iterate_all header f b) = (length header ≡ 7) × (b < 64)
IsInstruction (iterate header ms m) = (length header ≡ 7) × AllIndexed ms × IsArg anything m.1
IsInstruction (select size h table) = (length size ≡ 4) × (h < u32_mod) × (length table ≡ h * 4)
IsInstruction (new_axioms bytes) = 5 + length bytes < u32_mod

-- ===== src/Vm/Instr/Advance.antt =====
-- `advance` of predicates/vm/instr.hpp.
use meldtools.Common.{ℕ, ◌+◌, ◌*◌, Option, none, some, List, [], ◌∷◌, ◌==◌, if◌then◌else◌, drop}
use meldtools.Vm.Instr.{
  Decoded, anything_not_nil_size, anything_size, bool_size, byte_get, int_arg_size, jump_get,
  list_size, malformed, node_arg_size, non_list_size, ok, val_get, writable_size, ◌>>=◌,
}
use meldtools.Vm.Instr.Loops.{instr_call_args_size, instr_delete_args_size, iter_matches_size}

pub data InstrType : Type 0 where
  return_instr next_instr test_nil_instr cons_instr head_instr tail_instr not_instr : InstrType
  send_instr float_instr select_instr return_select_instr colocated_instr : InstrType
  delete_instr reset_linear_instr end_linear_instr rule_instr rule_done_instr : InstrType
  new_node_instr new_axioms_instr send_delay_instr push_instr pop_instr : InstrType
  push_regs_instr pop_regs_instr callf_instr calle_instr call_instr move_instr : InstrType
  alloc_instr if_instr move_nil_instr remove_instr iter_instr op_instr : InstrType
  return_linear_instr return_derived_instr : InstrType

-- The codes of `instr_type` that `advance` has a case for; ELSE_INSTR has none.
opcodes : List (ℕ × InstrType)
opcodes =
    (0x00, return_instr)
    ∷ (0x01, next_instr)
    ∷ (0x03, test_nil_instr)
    ∷ (0x04, cons_instr)
    ∷ (0x05, head_instr)
    ∷ (0x06, tail_instr)
    ∷ (0x07, not_instr)
    ∷ (0x08, send_instr)
    ∷ (0x09, float_instr)
    ∷ (0x0a, select_instr)
    ∷ (0x0b, return_select_instr)
    ∷ (0x0c, colocated_instr)
    ∷ (0x0d, delete_instr)
    ∷ (0x0e, reset_linear_instr)
    ∷ (0x0f, end_linear_instr)
    ∷ (0x10, rule_instr)
    ∷ (0x11, rule_done_instr)
    ∷ (0x13, new_node_instr)
    ∷ (0x14, new_axioms_instr)
    ∷ (0x15, send_delay_instr)
    ∷ (0x16, push_instr)
    ∷ (0x17, pop_instr)
    ∷ (0x18, push_regs_instr)
    ∷ (0x19, pop_regs_instr)
    ∷ (0x1a, callf_instr)
    ∷ (0x1b, calle_instr)
    ∷ (0x20, call_instr)
    ∷ (0x30, move_instr)
    ∷ (0x40, alloc_instr)
    ∷ (0x60, if_instr)
    ∷ (0x70, move_nil_instr)
    ∷ (0x80, remove_instr)
    ∷ (0xa0, iter_instr)
    ∷ (0xc0, op_instr)
    ∷ (0xd0, return_linear_instr)
    ∷ (0xf0, return_derived_instr)
    ∷ []

lookup : ℕ → List (ℕ × InstrType) → Option InstrType
lookup c [] = none
lookup c ((k, t) ∷ rest) = if c == k then some t else lookup c rest

-- `fetch`, with `none` for a code that the `switch` does not know.
unfoldable pub fetch : ℕ → Option InstrType
unfolding opcodes lookup
fetch c = lookup c opcodes

-- An instruction whose operands follow its `base` bytes: the code of each stands at an offset.
pub sized_at : List ℕ → ℕ → (ℕ → Decoded ℕ) → ℕ → Decoded ℕ
sized_at pc off size total = do v ← val_get pc off; a ← size v; ok (total + a)

-- The bytes that an instruction takes.
unfoldable pub instr_size : InstrType → List ℕ → Decoded ℕ
unfolding sized_at
instr_size send_instr pc = ok 3
instr_size float_instr pc = sized_at pc 1 int_arg_size 3 >>= sized_at pc 2 writable_size
instr_size op_instr pc =
    sized_at pc 1 anything_size 5 >>= sized_at pc 2 anything_size >>= sized_at pc 3 writable_size
instr_size move_instr pc = sized_at pc 1 anything_not_nil_size 3 >>= sized_at pc 2 writable_size
instr_size iter_instr pc = do n ← iter_matches_size (drop 8 pc); ok (8 + n)
instr_size alloc_instr pc = ok 3
instr_size call_instr pc = do
  args ← byte_get pc 2
  n ← instr_call_args_size args (drop 4 pc)
  ok (4 + n)
instr_size calle_instr pc = do
  args ← byte_get pc 2
  n ← instr_call_args_size args (drop 4 pc)
  ok (4 + n)
instr_size delete_instr pc = do
  args ← byte_get pc 2
  n ← instr_delete_args_size args (drop 3 pc)
  ok (3 + n)
instr_size if_instr pc = ok 6
instr_size move_nil_instr pc = sized_at pc 1 writable_size 2
instr_size test_nil_instr pc = sized_at pc 1 list_size 3 >>= sized_at pc 2 writable_size
instr_size cons_instr pc =
    sized_at pc 2 non_list_size 5 >>= sized_at pc 3 list_size >>= sized_at pc 4 writable_size
instr_size head_instr pc = sized_at pc 2 list_size 4 >>= sized_at pc 3 writable_size
instr_size tail_instr pc = sized_at pc 2 list_size 4 >>= sized_at pc 3 writable_size
instr_size not_instr pc = sized_at pc 1 bool_size 3 >>= sized_at pc 2 writable_size
instr_size return_instr pc = ok 1
instr_size return_linear_instr pc = ok 1
instr_size return_derived_instr pc = ok 1
instr_size next_instr pc = ok 1
instr_size return_select_instr pc = ok 5
instr_size select_instr pc = do hash_size ← jump_get pc 5; ok (9 + hash_size * 4)
instr_size colocated_instr pc = sized_at pc 1 node_arg_size 4 >>= sized_at pc 2 node_arg_size
instr_size remove_instr pc = ok 2
instr_size reset_linear_instr pc = ok 5
instr_size end_linear_instr pc = ok 1
instr_size rule_instr pc = ok 5
instr_size rule_done_instr pc = ok 1
instr_size new_node_instr pc = ok 2
instr_size new_axioms_instr pc = jump_get pc 1
instr_size send_delay_instr pc = ok 7
instr_size push_instr pc = ok 1
instr_size pop_instr pc = ok 1
instr_size push_regs_instr pc = ok 1
instr_size pop_regs_instr pc = ok 1
instr_size callf_instr pc = ok 2

or_malformed : Option InstrType → Decoded InstrType
or_malformed none = malformed
or_malformed (some t) = ok t

-- How far `advance` moves the program counter.
unfoldable pub advance : List ℕ → Decoded ℕ
unfolding or_malformed
advance pc = do c ← byte_get pc 0; t ← or_malformed (fetch c); instr_size t pc

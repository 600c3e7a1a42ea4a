-- ===== src/Vm/Exec/Tests.antt =====
-- Runs of the operations of exec.cpp on a small state.
use meldtools.Vm.Instr.Operands.{reg, field, int, stack}
use meldtools.Vm.Instr.Encoding.{
  encode, float_to, test_nil, op, head, tail, Arg, encode_indexed, encode_last,
}
use meldtools.Vm.Exec.Get.{int_op, get_op}
use meldtools.Common.{
  [], ◌∷◌, ℕ, ◌+◌, ◌-◌, ◌*◌, ◌≡◌, refl, none, some, ◌++◌, arith, ltb, leb, ◌==◌, length,
  if◌then◌else◌, true,
}
use meldtools.Vm.Exec.{
  Floats, State, TupleField, done, failed, field_at, float_field, int_cell, int_field, pcounter_int,
  ptr_field, tuple_at, get_tuple,
}
use meldtools.Vm.Exec.Cells.{execute_head-encode, execute_tail-encode}
use meldtools.Vm.Exec.Unary.{execute_float-encode, execute_test_nil-encode}
use meldtools.Vm.Exec.Meaning.Operations.{execute_op-performed, numbered}
use meldtools.Vm.Exec.Meaning.Operands.{get_op-meant}
use meldtools.Vm.Exec.Meaning.Results.{set_op-meant}
use meldtools.Vm.Exec.Meaning.Fields.{do_matches-meant}
use meldtools.Vm.Exec.Set.{set_field, set_op, set_reg, set_stack, store_int}
use meldtools.Vm.Instr.{jump_get}
use meldtools.Vm.Exec.Ops.{
  execute_float, execute_head, execute_op, execute_tail, execute_test_nil, operation,
}
use meldtools.Vm.Exec.Arithmetic.{op_plusi, get_list_type, instr_op, int_div, int_mod}
use meldtools.Vm.Exec.Matches.{Tuple, do_matches, type_int}

-- Whole numbers in the place of `double`.
abbrev whole_numbers : Floats
whole_numbers = record {
  Double = ℕ;
  of_bytes = λ bytes. length bytes;
  of_int = λ n. n;
  eq = ◌==◌;
  lt = ltb;
  le = leb;
  add = ◌+◌;
  sub = ◌-◌;
  mul = ◌*◌;
  div = ◌+◌;
  fmod = ◌+◌;
}

-- Register 1 has a list, register 2 a tuple, and the others zero.
abbrev regs_before : ℕ → TupleField whole_numbers
regs_before r =
    if r == 1
    then ptr_field (int_cell 8 (9 ∷ []))
    else if r == 2
    then ptr_field (tuple_at 0)
    else int_field 0

abbrev state_before : State whole_numbers
state_before = record {
  regs = regs_before;
  stack = int_field 4 ∷ [];
  tuples = λ _. some (int_field 7 ∷ int_field 1 ∷ []);
  consts = λ _. int_field 0;
  node_id = 3;
  max_id = 10;
}

abbrev at_reg : ℕ → Arg
at_reg n = record { kind = reg n; payload = [] }

abbrev five : Arg
five = record { kind = int; payload = 5 ∷ 0 ∷ 0 ∷ 0 ∷ [] }

-- The field 0 of the tuple in register 2.
abbrev first_field : Arg
first_field = record { kind = field; payload = 0 ∷ 2 ∷ [] }

get_op-meant_example :
    get_op whole_numbers int_op 2 ((0 ∷ 2 ∷ []) ++ 1 ∷ []) state_before ≡ done (7, 1 ∷ [])
unfolding field_at get_tuple
get_op-meant_example =
    get_op-meant whole_numbers int_op field (0 ∷ 2 ∷ []) (1 ∷ []) state_before tt refl

set_op-meant_example :
    set_op whole_numbers store_int ((0 ∷ []) ++ []) 9 6 state_before
    ≡ done (record state_before { stack = int_field 6 ∷ [] })
unfolding set_stack
set_op-meant_example = set_op-meant whole_numbers store_int stack (0 ∷ []) [] 6 state_before tt refl

-- `OP field 0.2 + INT 5 TO reg 3`
execute_op-performed_example :
    execute_op whole_numbers (encode (op first_field five (at_reg 3) 0x0f) ++ []) state_before
    ≡ done (set_reg whole_numbers 3 (int_field 12) state_before)
unfolding instr_op operation field_at get_tuple pcounter_int jump_get
execute_op-performed_example =
    execute_op-performed whole_numbers first_field five (at_reg 3) 0x0f (some op_plusi) []
      state_before ((tt, refl, refl), (tt, refl, refl), (omega arith, refl, refl))
      (numbered op_plusi)

execute_head-encode_example :
    execute_head whole_numbers (encode (head 0 (at_reg 1) (at_reg 4)) ++ []) state_before
    ≡ done (set_reg whole_numbers 4 (int_field 8) state_before)
unfolding get_list_type
execute_head-encode_example =
    execute_head-encode whole_numbers 0 (at_reg 1) (at_reg 4) [] state_before
      ((omega arith, refl, refl), (omega arith, refl, refl))

execute_tail-encode_example :
    execute_tail whole_numbers (encode (tail 0 (at_reg 1) first_field) ++ []) state_before
    ≡ set_field whole_numbers (0 ∷ 2 ∷ []) (ptr_field (int_cell 9 [])) state_before
unfolding get_list_type
execute_tail-encode_example =
    execute_tail-encode whole_numbers 0 (at_reg 1) first_field [] state_before
      ((omega arith, refl, refl), (tt, refl, refl))

execute_test_nil-encode_example :
    execute_test_nil whole_numbers (encode (test_nil (at_reg 1) (at_reg 5)) ++ []) state_before
    ≡ done (set_reg whole_numbers 5 (int_field 0) state_before)
execute_test_nil-encode_example =
    execute_test_nil-encode whole_numbers (at_reg 1) (at_reg 5) [] state_before
      ((omega arith, refl, refl), (omega arith, refl, refl))

execute_float-encode_example :
    execute_float whole_numbers (encode (float_to five (at_reg 5)) ++ []) state_before
    ≡ done (set_reg whole_numbers 5 (float_field 5) state_before)
unfolding pcounter_int jump_get
execute_float-encode_example =
    execute_float-encode whole_numbers five (at_reg 5) [] state_before
      ((tt, refl, refl), (omega arith, refl, refl))

int_div-negative : int_div 4294967289 2 ≡ done 4294967293
unfolding int_div
int_div-negative = refl

int_div-overflow : int_div 2147483648 4294967295 ≡ failed
unfolding int_div
int_div-overflow = refl

int_mod-negative : int_mod 4294967289 2 ≡ done 4294967295
unfolding int_mod
int_mod-negative = refl

no_operation : instr_op 26 ≡ none
unfolding instr_op
no_operation = refl

abbrev pair : Tuple whole_numbers
pair = record { types = type_int ∷ type_int ∷ []; fields = int_field 5 ∷ int_field 0 ∷ [] }

-- `MATCHING 0 = INT 5, 1 = reg 3`
do_matches-meant_example :
    do_matches whole_numbers
      (encode_indexed ((0, five) ∷ []) ++ (encode_last (1, at_reg 3) ++ 0xf0 ∷ []))
      pair
      state_before
    ≡ done true
unfolding pcounter_int jump_get
do_matches-meant_example =
    do_matches-meant whole_numbers pair ((0, five) ∷ []) 1 (at_reg 3) (0xf0 ∷ []) state_before
      ((tt, refl, refl), tt) (omega arith, refl, refl)

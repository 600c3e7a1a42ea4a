-- ===== src/Vm/Exec/Unary.antt =====
-- What `not`, `float`, and the instructions on nil do with their encoded operands.
use meldtools.Vm.Instr.Operands.{
  Operand, reg, field, writable, bool_arg, int_arg, list, IsOperand, operand_code, operand_size,
}
use meldtools.Vm.Instr.Encoding.{
  encode, negate, float_to, move_nil, test_nil, Arg, IsInstruction, mark,
}
use meldtools.Vm.Exec.{
  ◌>>=◌, Floats, Run, State, TupleField, done, null, ptr_field, set_bool, thrown, val_reg,
}
use meldtools.Common.{
  ℕ, ◌+◌, ◌%◌, ◌≡◌, refl, ap, ◌∙◌, not, List, ◌∷◌, ◌++◌, append_assoc, arith, if◌then◌else◌, length,
}
use meldtools.Vm.Exec.Get.{bool_op, get_op_bool, int_op, ptr_op}
use meldtools.Vm.Exec.Operate.{reading, storing}
use meldtools.Vm.Exec.Set.{set_field, set_reg, store_bool, store_float}
use meldtools.Vm.Exec.Stores.{set_field-append, stored}
use meldtools.Vm.Instr.{val_is_field, val_is_reg}
use meldtools.Vm.Exec.Operands.{value}
use meldtools.Vm.Exec.Ops.{execute_float, execute_move_nil, execute_not, execute_test_nil, is_null}
use meldtools.Vm.Instr.RoundTrip.{mark-mod}

module _ (F : Floats) where
  -- A register or a field as a destination.
  abbrev pub placed : Arg → TupleField F → State F → Run (State F)
  placed a x s = elim a.kind [
    | reg n ↦ done (set_reg F n x s)
    | field ↦ set_field F a.payload x s
    | _ ↦ thrown
  ]

  -- The ladder of `not` and of moves of nil.
  abbrev ladder : ℕ → List ℕ → TupleField F → State F → Run (State F)
  ladder v m x s =
      if val_is_reg v
      then done (set_reg F (val_reg F v) x s)
      else if val_is_field v
      then set_field F m x s
      else thrown

  ladder-Arg :
      (k : Operand) (p rest : List ℕ) (x : TupleField F) (s : State F)
      → IsOperand k
      → length p ≡ operand_size k
      → ladder (operand_code k) (p ++ rest) x s ≡ placed (record { kind = k; payload = p }) x s
  ladder-Arg (reg n) p rest x s i h = let e : (32 + n) % 32 ≡ n = omega arith in ground (arith, e)
  ladder-Arg field p rest x s i h = set_field-append F p rest x s h
  ladder-Arg k p rest x s i h = refl

  -- On a well-formed not instruction, execute_not puts the negation of its first operand into the
  -- register or the field of its second, and throws at any other destination.
  pub execute_not-encode :
      (a b : Arg) (rest : List ℕ) (s : State F)
      → IsInstruction (negate a b)
      → execute_not F (encode (negate a b) ++ rest) s
        ≡ (value F bool_op a s >>= λ x. placed b (set_bool F (not x)) s)
  unfolding execute_not get_op_bool
  execute_not-encode a b rest s (ha, hb) =
      ap (λ l. execute_not F (0x07 ∷ mark a ∷ mark b ∷ l) s) (append_assoc a.payload b.payload rest)
      ∙ rw (mark-mod a bool_arg ha, mark-mod b writable hb)
          (reading F bool_op bool_arg a _ s _ _ ha
            (λ x. ladder-Arg b.kind b.payload rest (set_bool F (not x)) s hb.0 hb.2))

  -- On a well-formed move-nil instruction, execute_move_nil puts the null pointer into the register
  -- or the field that it names, and throws at any other destination.
  pub execute_move_nil-encode :
      (a : Arg) (rest : List ℕ) (s : State F)
      → IsInstruction (move_nil a)
      → execute_move_nil F (encode (move_nil a) ++ rest) s ≡ placed a (ptr_field null) s
  unfolding execute_move_nil
  execute_move_nil-encode a rest s h =
      rw (mark-mod a writable h) (ladder-Arg a.kind a.payload rest (ptr_field null) s h.0 h.2)

  -- On a well-formed float instruction, execute_float stores the conversion of its first operand.
  pub execute_float-encode :
      (a b : Arg) (rest : List ℕ) (s : State F)
      → IsInstruction (float_to a b)
      → execute_float F (encode (float_to a b) ++ rest) s
        ≡ (value F int_op a s >>= λ x. stored F store_float b (F.of_int x) s)
  unfolding execute_float
  execute_float-encode a b rest s (ha, hb) =
      ap (λ l. execute_float F (0x09 ∷ mark a ∷ mark b ∷ l) s)
        (append_assoc a.payload b.payload rest)
      ∙ rw (mark-mod a int_arg ha, mark-mod b writable hb)
          (reading F int_op int_arg a _ s _ _ ha
            (λ x. storing F store_float writable b rest (F.of_int x) s hb))

  -- On a well-formed test-nil instruction, execute_test_nil stores whether its first operand is the
  -- null pointer.
  pub execute_test_nil-encode :
      (a b : Arg) (rest : List ℕ) (s : State F)
      → IsInstruction (test_nil a b)
      → execute_test_nil F (encode (test_nil a b) ++ rest) s
        ≡ (value F ptr_op a s >>= λ x. stored F store_bool b (is_null F x) s)
  unfolding execute_test_nil
  execute_test_nil-encode a b rest s (ha, hb) =
      ap (λ l. execute_test_nil F (0x03 ∷ mark a ∷ mark b ∷ l) s)
        (append_assoc a.payload b.payload rest)
      ∙ rw (mark-mod a list ha, mark-mod b writable hb)
          (reading F ptr_op list a _ s _ _ ha
            (λ x. storing F store_bool writable b rest (is_null F x) s hb))

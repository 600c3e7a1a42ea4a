-- ===== src/Vm/Exec/Meaning/Results.antt =====
-- set_op_function leaves a value where its operand means.
use meldtools.Common.{ℕ, ◌≡◌, refl, ap, ◌∙◌, List, [], ◌∷◌, ◌++◌, arith, length, if◌then◌else◌, ◌%◌}
use meldtools.Vm.Exec.{Floats, State, TupleField, thrown}
use meldtools.Vm.Exec.Meaning.{kept, laid, left_at}
use meldtools.Vm.Exec.Meaning.Operands.{get_tuple-in}
use meldtools.Vm.Exec.Set.{
  StoreType, Stored, set_field, set_op, set_stack, store_bool, store_float, store_float_list,
  store_int, store_int_list, store_node, store_node_list,
}
use meldtools.Vm.Exec.Stores.{put, set_op-Arg, stored, takes, written}
use meldtools.Vm.Instr.Encoding.{Arg}
use meldtools.Vm.Instr.Operands.{IsOperand, Operand, field, operand_code, operand_size, reg, stack}

module _ (F : Floats) where
  written-kept : (T : StoreType) (v : Stored F T) → written F T v ≡ kept F T v
  written-kept store_bool v = refl
  written-kept store_float v = refl
  written-kept store_int v = refl
  written-kept store_node v = refl
  written-kept store_int_list [] = refl
  written-kept store_int_list (x ∷ xs) = refl
  written-kept store_float_list [] = refl
  written-kept store_float_list (x ∷ xs) = refl
  written-kept store_node_list [] = refl
  written-kept store_node_list (x ∷ xs) = refl

  put-laid :
      (k : Operand) (p : List ℕ) (x : TupleField F) (s : State F)
      → length p ≡ operand_size k
      → put F k p x s ≡ laid F k p x s
  unfolding set_field set_stack
  put-laid (reg n) p x s h = refl
  put-laid field (num ∷ r ∷ []) x s h = rw (get_tuple-in F s (r % 32)) refl
  put-laid field p x s h = absurd (omega arith)
  put-laid stack (off ∷ []) x s h = refl
  put-laid stack p x s h = absurd (omega arith)
  put-laid k p x s h = refl

  pub stored-left_at :
      (T : StoreType) (a : Arg) (v : Stored F T) (s : State F)
      → length a.payload ≡ operand_size a.kind
      → stored F T a v s ≡ left_at F T a v s
  stored-left_at T a v s h =
      rw (written-kept T v) (
        ap (λ m. if takes T a.kind then m else thrown) (put-laid a.kind a.payload (kept F T v) s h))

  -- Each instance of set_op_function leaves the value in the register, the field of a tuple or the
  -- place of the stack that the operand with its bytes means, and all else as it was, and throws at
  -- an operand that it cannot write.
  pub set_op-meant :
      (T : StoreType) (k : Operand) (p rest : List ℕ) (v : Stored F T) (s : State F)
      → IsOperand k
      → length p ≡ operand_size k
      → set_op F T (p ++ rest) (operand_code k) v s
        ≡ left_at F T (record { kind = k; payload = p }) v s
  set_op-meant T k p rest v s i h =
      set_op-Arg F T k p rest v s i h ∙ stored-left_at T (record { kind = k; payload = p }) v s h

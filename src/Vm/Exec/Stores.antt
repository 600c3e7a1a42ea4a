-- ===== src/Vm/Exec/Stores.antt =====
-- What set_op_function makes of an operand that an instruction names as its destination.
use meldtools.Vm.Instr.Operands.{stack, IsOperand, Operand, field, operand_code, operand_size, reg}
use meldtools.Common.{
  ℕ, ◌+◌, ◌%◌, ◌<◌, ◌≡◌, refl, Bool, true, false, List, [], ◌∷◌, ◌++◌, arith, if◌then◌else◌, length,
}
use meldtools.Vm.Instr.Encoding.{Arg}
use meldtools.Vm.Exec.{
  Floats, Run, State, TupleField, done, failed, float_field, int_field, node_field, set_bool,
  set_float_list, set_int_list, set_node_list, thrown,
}
use meldtools.Vm.Exec.Set.{
  StoreType, Stored, set_field, set_op, set_op_bool, set_op_float, set_op_float_list, set_op_int,
  set_op_int_list, set_op_node, set_op_node_list, set_reg, set_stack, store_bool, store_float,
  store_float_list, store_int, store_int_list, store_node, store_node_list,
}

-- Which operands each can write.
abbrev pub takes : StoreType → Operand → Bool
takes _ (reg n) = true
takes store_bool _ = false
takes _ field = true
takes store_int stack = true
takes store_float stack = true
takes _ _ = false

module _ (F : Floats) where
  -- The field that each writes.
  abbrev pub written : (T : StoreType) → Stored F T → TupleField F
  written store_bool v = set_bool F v
  written store_float v = float_field v
  written store_int v = int_field v
  written store_node v = node_field v
  written store_int_list v = set_int_list F v
  written store_float_list v = set_float_list F v
  written store_node_list v = set_node_list F v

  -- Where an operand with its own bytes puts it.
  abbrev pub put : Operand → List ℕ → TupleField F → State F → Run (State F)
  put (reg n) p x s = done (set_reg F n x s)
  put field p x s = set_field F p x s
  put stack p x s = set_stack F p x s
  put _ p x s = failed

  abbrev pub stored : (T : StoreType) → Arg → Stored F T → State F → Run (State F)
  stored T a v s = if takes T a.kind then put a.kind a.payload (written T v) s else thrown

  pub set_field-append :
      (p rest : List ℕ) (x : TupleField F) (s : State F)
      → length p ≡ 2
      → set_field F (p ++ rest) x s ≡ set_field F p x s
  unfolding set_field
  set_field-append (a ∷ b ∷ []) rest x s h = refl
  set_field-append p rest x s h = absurd (omega arith)

  set_stack-append :
      (p rest : List ℕ) (x : TupleField F) (s : State F)
      → length p ≡ 1
      → set_stack F (p ++ rest) x s ≡ set_stack F p x s
  unfolding set_stack
  set_stack-append (a ∷ []) rest x s h = refl
  set_stack-append p rest x s h = absurd (omega arith)

  set_op-reg :
      (T : StoreType) (n : ℕ) (m : List ℕ) (v : Stored F T) (s : State F)
      → n < 32
      → set_op F T m (32 + n) v s ≡ done (set_reg F n (written T v) s)
  unfolding set_op_bool set_op_float set_op_int set_op_node set_op_int_list set_op_float_list
      set_op_node_list
  set_op-reg store_bool n m v s h = let e : (32 + n) % 32 ≡ n = omega arith in ground (arith, e)
  set_op-reg store_float n m v s h = let e : (32 + n) % 32 ≡ n = omega arith in ground (arith, e)
  set_op-reg store_int n m v s h = let e : (32 + n) % 32 ≡ n = omega arith in ground (arith, e)
  set_op-reg store_node n m v s h = let e : (32 + n) % 32 ≡ n = omega arith in ground (arith, e)
  set_op-reg store_int_list n m v s h = let e : (32 + n) % 32 ≡ n = omega arith in ground (arith, e)
  set_op-reg store_float_list n m v s h =
      let e : (32 + n) % 32 ≡ n = omega arith in ground (arith, e)
  set_op-reg store_node_list n m v s h =
      let e : (32 + n) % 32 ≡ n = omega arith in ground (arith, e)

  -- Each instance of set_op_function puts the value where the operand with its bytes says, and
  -- throws at an operand that it cannot write.
  pub set_op-Arg :
      (T : StoreType) (k : Operand) (p rest : List ℕ) (v : Stored F T) (s : State F)
      → IsOperand k
      → length p ≡ operand_size k
      → set_op F T (p ++ rest) (operand_code k) v s
        ≡ stored T (record { kind = k; payload = p }) v s
  unfolding set_op_bool set_op_float set_op_int set_op_node set_op_int_list set_op_float_list
      set_op_node_list
  set_op-Arg T (reg n) p rest v s i h = set_op-reg T n (p ++ rest) v s i
  set_op-Arg store_float field p rest v s i h = set_field-append p rest _ s h
  set_op-Arg store_int field p rest v s i h = set_field-append p rest _ s h
  set_op-Arg store_node field p rest v s i h = set_field-append p rest _ s h
  set_op-Arg store_int_list field p rest v s i h = set_field-append p rest _ s h
  set_op-Arg store_float_list field p rest v s i h = set_field-append p rest _ s h
  set_op-Arg store_node_list field p rest v s i h = set_field-append p rest _ s h
  set_op-Arg store_float stack p rest v s i h = set_stack-append p rest _ s h
  set_op-Arg store_int stack p rest v s i h = set_stack-append p rest _ s h
  set_op-Arg store_bool k p rest v s i h = refl
  set_op-Arg store_float k p rest v s i h = refl
  set_op-Arg store_int k p rest v s i h = refl
  set_op-Arg store_node k p rest v s i h = refl
  set_op-Arg store_int_list k p rest v s i h = refl
  set_op-Arg store_float_list k p rest v s i h = refl
  set_op-Arg store_node_list k p rest v s i h = refl

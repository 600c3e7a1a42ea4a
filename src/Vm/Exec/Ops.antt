-- ===== src/Vm/Exec/Ops.antt =====
-- execute_op, execute_not, execute_float and the instructions on lists.
use meldtools.Vm.Exec.{
  Floats, ◌>>=◌, Run, State, done, failed, or_failed, byte_at, get_bool, null, ptr_field, set_bool,
  thrown, val_reg, Pointer,
}
use meldtools.Common.{
  ℕ, ◌-◌, ◌%◌, Bool, not, Option, List, [], ◌∷◌, ◌==◌, if◌then◌else◌, get_elem?, u32_mod, ◌+◌, ◌*◌,
  true, false, ◌||◌, none, some, ltb, drop,
}
use meldtools.Vm.Exec.Get.{
  from_field, from_reg, get_op_float, get_op_float_list, get_op_int, get_op_int_list, get_op_node,
  get_op_node_list, get_op_ptr, Element, OpType, bool_op, float_op, get_op, int_op, node_op,
}
use meldtools.Vm.Exec.Set.{
  set_field, set_op_bool, set_op_float, set_op_float_list, set_op_int, set_op_int_list, set_op_node,
  set_op_node_list, set_reg, StoreType, Stored, set_op, store_bool, store_float, store_int,
}
use meldtools.Vm.Instr.{val_is_field, val_is_reg}
use meldtools.Vm.Exec.Arithmetic.{
  InstrOp, ListType, get_list_type, instr_op, int_div, int_mod, less_int, list_float, list_int,
  list_node, op_neqf, op_neqi, op_eqf, op_eqi, op_lessf, op_lessi, op_lesseqf, op_lesseqi,
  op_greaterf, op_greateri, op_greatereqf, op_greatereqi, op_modf, op_modi, op_plusf, op_plusi,
  op_minusf, op_minusi, op_timesf, op_timesi, op_divf, op_divi, op_neqa, op_eqa, op_greatera,
  op_orb,
}

abbrev pub instr_val : List ℕ → ℕ → Run ℕ
instr_val pc off = do v ← or_failed (get_elem? pc off); done (v % 64)

-- The head and the tail of a list, where a null pointer has none.
abbrev pub cell_of {ℓ} : {A : Type ℓ} → List A → Run (A × List A)
cell_of [] = failed
cell_of (x ∷ xs) = done (x, xs)

module _ (F : Floats) where
  abbrev pub pure {ℓ} : {A B : Type 0} {C : Type ℓ} → (A → B → C) → A → B → Run C
  pure f a b = done (f a b)

  -- `TYPE_ARGS`, `TYPE_RET` and `OP` of implement_operation.
  pub record Operation : Type 0 where
    pub from : OpType
    pub to : StoreType
    pub run : Element F from → Element F from → Run (Stored F to)

  -- The cases of the `switch` in execute_op.
  unfoldable pub operation : InstrOp → Operation
  unfolding int_div int_mod
  operation op_neqf = record {
    from = float_op;
    to = store_bool;
    run = pure (λ a b. not (F.eq a b));
  }
  operation op_neqi = record { from = int_op; to = store_bool; run = pure (λ a b. not (a == b)) }
  operation op_eqf = record { from = float_op; to = store_bool; run = pure F.eq }
  operation op_eqi = record { from = int_op; to = store_bool; run = pure ◌==◌ }
  operation op_lessf = record { from = float_op; to = store_bool; run = pure F.lt }
  operation op_lessi = record { from = int_op; to = store_bool; run = pure less_int }
  operation op_lesseqf = record { from = float_op; to = store_bool; run = pure F.le }
  operation op_lesseqi = record {
    from = int_op;
    to = store_bool;
    run = pure (λ a b. not (less_int b a));
  }
  operation op_greaterf = record { from = float_op; to = store_bool; run = pure (λ a b. F.lt b a) }
  operation op_greateri = record {
    from = int_op;
    to = store_bool;
    run = pure (λ a b. less_int b a);
  }
  operation op_greatereqf = record {
    from = float_op;
    to = store_bool;
    run = pure (λ a b. F.le b a);
  }
  operation op_greatereqi = record {
    from = int_op;
    to = store_bool;
    run = pure (λ a b. not (less_int a b));
  }
  operation op_modf = record { from = float_op; to = store_float; run = pure F.fmod }
  operation op_modi = record { from = int_op; to = store_int; run = int_mod }
  operation op_plusf = record { from = float_op; to = store_float; run = pure F.add }
  operation op_plusi = record {
    from = int_op;
    to = store_int;
    run = pure (λ a b. (a + b) % u32_mod);
  }
  operation op_minusf = record { from = float_op; to = store_float; run = pure F.sub }
  operation op_minusi = record {
    from = int_op;
    to = store_int;
    run = pure (λ a b. (a + u32_mod - b) % u32_mod);
  }
  operation op_timesf = record { from = float_op; to = store_float; run = pure F.mul }
  operation op_timesi = record {
    from = int_op;
    to = store_int;
    run = pure (λ a b. a * b % u32_mod);
  }
  operation op_divf = record { from = float_op; to = store_float; run = pure F.div }
  operation op_divi = record { from = int_op; to = store_int; run = int_div }
  operation op_neqa = record { from = node_op; to = store_bool; run = pure (λ a b. not (a == b)) }
  operation op_eqa = record { from = node_op; to = store_bool; run = pure ◌==◌ }
  operation op_greatera = record { from = node_op; to = store_bool; run = pure (λ a b. ltb b a) }
  operation op_orb = record { from = bool_op; to = store_bool; run = pure ◌||◌ }

  unfoldable pub implement_operation : Operation → ℕ → ℕ → ℕ → List ℕ → State F → Run (State F)
  implement_operation o arg1 arg2 dest m s = do
    (v1, m1) ← get_op F o.from arg1 m s
    (v2, m2) ← get_op F o.from arg2 m1 s
    r ← o.run v1 v2
    set_op F o.to m2 dest r s

  -- The `switch` of execute_op, where a number is no operation's in its default.
  unfoldable pub do_operation : Option InstrOp → ℕ → ℕ → ℕ → List ℕ → State F → Run (State F)
  unfolding operation implement_operation
  do_operation (some which) arg1 arg2 dest m s =
      implement_operation (operation which) arg1 arg2 dest m s
  do_operation none arg1 arg2 dest m s = thrown

  unfoldable pub execute_op : List ℕ → State F → Run (State F)
  unfolding instr_op do_operation
  execute_op pc s = do
    arg1 ← instr_val pc 1
    arg2 ← instr_val pc 2
    dest ← instr_val pc 3
    code ← byte_at F pc 4
    do_operation (instr_op (code % 32)) arg1 arg2 dest (drop 5 pc) s

  unfoldable pub execute_not : List ℕ → State F → Run (State F)
  execute_not pc s = do
    origin ← instr_val pc 1
    dest ← instr_val pc 2
    let m = drop 3 pc
    (val, m1) ←
        if val_is_reg origin
        then from_reg F (get_bool F) origin m s
        else if val_is_field origin
        then from_field F (get_bool F) m s
        else thrown
    if val_is_reg dest
        then done (set_reg F (val_reg F dest) (set_bool F (not val)) s)
        else if val_is_field dest
        then set_field F m1 (set_bool F (not val)) s
        else thrown

  unfoldable pub execute_float : List ℕ → State F → Run (State F)
  execute_float pc s = do
    origin ← instr_val pc 1
    dest ← instr_val pc 2
    (val, m) ← get_op_int F origin (drop 3 pc) s
    set_op_float F m dest (F.of_int val) s

  unfoldable pub execute_move_nil : List ℕ → State F → Run (State F)
  execute_move_nil pc s = do
    dest ← instr_val pc 1
    if val_is_reg dest
        then done (set_reg F (val_reg F dest) (ptr_field null) s)
        else if val_is_field dest
        then set_field F (drop 2 pc) (ptr_field null) s
        else thrown

  abbrev pub is_null : Pointer F → Bool
  is_null null = true
  is_null _ = false

  unfoldable pub execute_test_nil : List ℕ → State F → Run (State F)
  execute_test_nil pc s = do
    origin ← instr_val pc 1
    dest ← instr_val pc 2
    (val, m) ← get_op_ptr F origin (drop 3 pc) s
    set_op_bool F m dest (is_null val) s

  module _ {A : Type 0} (get_list : ℕ → List ℕ → State F → Run (List A × List ℕ))
      (set_list : List ℕ → ℕ → List A → State F → Run (State F))
      (get_head : ℕ → List ℕ → State F → Run (A × List ℕ))
      (set_head : List ℕ → ℕ → A → State F → Run (State F)) where
    -- `implement_cons`
    unfoldable pub implement_cons : List ℕ → State F → Run (State F)
    implement_cons pc s = do
      first ← instr_val pc 2
      others ← instr_val pc 3
      dest ← instr_val pc 4
      (head_val, m1) ← get_head first (drop 5 pc) s
      (ls, m2) ← get_list others m1 s
      set_list m2 dest (head_val ∷ ls) s

    -- `implement_tail`
    unfoldable pub implement_tail : List ℕ → State F → Run (State F)
    implement_tail pc s = do
      cell ← instr_val pc 2
      dest ← instr_val pc 3
      (ls, m) ← get_list cell (drop 4 pc) s
      (x, xs) ← cell_of ls
      set_list m dest xs s

    -- `implement_head`
    unfoldable pub implement_head : List ℕ → State F → Run (State F)
    implement_head pc s = do
      cell ← instr_val pc 2
      dest ← instr_val pc 3
      (ls, m) ← get_list cell (drop 4 pc) s
      (x, xs) ← cell_of ls
      set_head m dest x s

  -- The `switch` of execute_cons.
  unfoldable pub do_cons : ListType → List ℕ → State F → Run (State F)
  unfolding implement_cons
  do_cons list_int =
      implement_cons (get_op_int_list F) (set_op_int_list F) (get_op_int F) (set_op_int F)
  do_cons list_float =
      implement_cons (get_op_float_list F) (set_op_float_list F) (get_op_float F) (set_op_float F)
  do_cons list_node =
      implement_cons (get_op_node_list F) (set_op_node_list F) (get_op_node F) (set_op_node F)

  unfoldable pub execute_cons : List ℕ → State F → Run (State F)
  unfolding get_list_type do_cons
  execute_cons pc s = do typ ← byte_at F pc 1; do_cons (get_list_type typ) pc s

  -- The `switch` of execute_tail.
  unfoldable pub do_tail : ListType → List ℕ → State F → Run (State F)
  unfolding implement_tail
  do_tail list_int =
      implement_tail (get_op_int_list F) (set_op_int_list F) (get_op_int F) (set_op_int F)
  do_tail list_float =
      implement_tail (get_op_float_list F) (set_op_float_list F) (get_op_float F) (set_op_float F)
  do_tail list_node =
      implement_tail (get_op_node_list F) (set_op_node_list F) (get_op_node F) (set_op_node F)

  unfoldable pub execute_tail : List ℕ → State F → Run (State F)
  unfolding get_list_type do_tail
  execute_tail pc s = do typ ← byte_at F pc 1; do_tail (get_list_type typ) pc s

  -- The `switch` of execute_head.
  unfoldable pub do_head : ListType → List ℕ → State F → Run (State F)
  unfolding implement_head
  do_head list_int =
      implement_head (get_op_int_list F) (set_op_int_list F) (get_op_int F) (set_op_int F)
  do_head list_float =
      implement_head (get_op_float_list F) (set_op_float_list F) (get_op_float F) (set_op_float F)
  do_head list_node =
      implement_head (get_op_node_list F) (set_op_node_list F) (get_op_node F) (set_op_node F)

  unfoldable pub execute_head : List ℕ → State F → Run (State F)
  unfolding get_list_type do_head
  execute_head pc s = do typ ← byte_at F pc 1; do_head (get_list_type typ) pc s

-- ===== src/Vm/Exec/Set.antt =====
-- `set_op_function`: a value goes to a register, to a field of a tuple or to the stack.
use meldtools.Vm.Exec.{
  Floats, ◌>>=◌, Run, State, TupleField, byte_at, done, failed, float_field, get_tuple, int_field,
  node_field, set_bool, set_float_list, set_int_list, set_node_list, thrown, val_reg,
}
use meldtools.Common.{ℕ, ◌-◌, ◌%◌, Bool, some, List, ltb, ◌==◌, if◌then◌else◌, length, set}
use meldtools.Vm.Instr.{val_is_field, val_is_reg, val_is_stack}

-- The instances of set_op_function.
pub data StoreType : Type 0 where
  store_bool store_float store_int store_node : StoreType
  store_int_list store_float_list store_node_list : StoreType

module _ (F : Floats) where
  abbrev pub set_reg : ℕ → TupleField F → State F → State F
  set_reg r x s = record s { regs = λ q. if q == r then x else s.regs q }

  -- The field that `val_field_num` and `val_field_reg` name. A field that the tuple does not have
  -- lies outside its memory.
  unfoldable pub set_field : List ℕ → TupleField F → State F → Run (State F)
  unfolding get_tuple
  set_field m x s = do
    num ← byte_at F m 0
    r ← byte_at F m 1
    (t, fields) ← get_tuple F s (r % 32)
    if ltb num (length fields)
        then done
            (record s { tuples = λ u. if u == t then some (set fields num x) else s.tuples u })
        else failed

  -- `get_stack_at`, from the end of the stack.
  unfoldable pub set_stack : List ℕ → TupleField F → State F → Run (State F)
  set_stack m x s = do
    off ← byte_at F m 0
    if ltb off (length s.stack)
        then done (record s { stack = set s.stack (length s.stack - 1 - off) x })
        else failed

  unfoldable pub set_op_bool : List ℕ → ℕ → Bool → State F → Run (State F)
  set_op_bool m dest val s =
      if val_is_reg dest then done (set_reg (val_reg F dest) (set_bool F val) s) else thrown

  unfoldable pub set_op_int : List ℕ → ℕ → ℕ → State F → Run (State F)
  set_op_int m dest val s =
      if val_is_reg dest
      then done (set_reg (val_reg F dest) (int_field val) s)
      else if val_is_field dest
      then set_field m (int_field val) s
      else if val_is_stack dest
      then set_stack m (int_field val) s
      else thrown

  unfoldable pub set_op_float : List ℕ → ℕ → F.Double → State F → Run (State F)
  set_op_float m dest val s =
      if val_is_reg dest
      then done (set_reg (val_reg F dest) (float_field val) s)
      else if val_is_field dest
      then set_field m (float_field val) s
      else if val_is_stack dest
      then set_stack m (float_field val) s
      else thrown

  unfoldable pub set_op_node : List ℕ → ℕ → ℕ → State F → Run (State F)
  set_op_node m dest val s =
      if val_is_reg dest
      then done (set_reg (val_reg F dest) (node_field val) s)
      else if val_is_field dest
      then set_field m (node_field val) s
      else thrown

  unfoldable pub set_op_int_list : List ℕ → ℕ → List ℕ → State F → Run (State F)
  set_op_int_list m dest val s =
      if val_is_reg dest
      then done (set_reg (val_reg F dest) (set_int_list F val) s)
      else if val_is_field dest
      then set_field m (set_int_list F val) s
      else thrown

  unfoldable pub set_op_float_list : List ℕ → ℕ → List F.Double → State F → Run (State F)
  set_op_float_list m dest val s =
      if val_is_reg dest
      then done (set_reg (val_reg F dest) (set_float_list F val) s)
      else if val_is_field dest
      then set_field m (set_float_list F val) s
      else thrown

  unfoldable pub set_op_node_list : List ℕ → ℕ → List ℕ → State F → Run (State F)
  set_op_node_list m dest val s =
      if val_is_reg dest
      then done (set_reg (val_reg F dest) (set_node_list F val) s)
      else if val_is_field dest
      then set_field m (set_node_list F val) s
      else thrown

  -- What each takes.
  abbrev pub Stored : StoreType → Type 0
  Stored store_bool = Bool
  Stored store_float = F.Double
  Stored store_int = ℕ
  Stored store_node = ℕ
  Stored store_int_list = List ℕ
  Stored store_float_list = List F.Double
  Stored store_node_list = List ℕ

  abbrev pub set_op : (T : StoreType) → List ℕ → ℕ → Stored T → State F → Run (State F)
  set_op store_bool = set_op_bool
  set_op store_float = set_op_float
  set_op store_int = set_op_int
  set_op store_node = set_op_node
  set_op store_int_list = set_op_int_list
  set_op store_float_list = set_op_float_list
  set_op store_node_list = set_op_node_list

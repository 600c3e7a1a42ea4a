-- ===== src/Vm/Exec/Get.antt =====
-- `get_op_function`: an operand is read, and the cursor goes behind it.
use meldtools.Vm.Exec.{
  Floats, ◌>>=◌, Pointer, Run, State, TupleField, done, failed, field_at, get_bool, get_float,
  get_float_list, get_int, get_int_list, get_node, get_node_list, get_ptr, pcounter_float,
  pcounter_int, thrown, val_reg,
}
use meldtools.Common.{ℕ, Bool, List, [], leb, if◌then◌else◌, drop}
use meldtools.Vm.Instr.{
  val_is_const, val_is_field, val_is_float, val_is_host, val_is_int, val_is_nil, val_is_node,
  val_is_reg,
}

-- The instances of get_op_function.
pub data OpType : Type 0 where
  bool_op float_op int_op node_op ptr_op int_list_op float_list_op node_list_op : OpType

module _ (F : Floats) where
  module _ {A : Type 0} (read : TupleField F → Run A) where
    -- The branches that all types share: a register, a field and a constant.
    abbrev pub from_reg : ℕ → List ℕ → State F → Run (A × List ℕ)
    from_reg v m s = do x ← read (s.regs (val_reg F v)); done (x, m)

    abbrev pub from_field : List ℕ → State F → Run (A × List ℕ)
    from_field m s = do f ← field_at F m s; x ← read f; done (x, drop 2 m)

    abbrev pub from_const : List ℕ → State F → Run (A × List ℕ)
    from_const m s = do cid ← pcounter_int F m; x ← read (s.consts cid); done (x, drop 4 m)

  -- `get_node_val`, which moves the cursor.
  abbrev pub get_node_val : List ℕ → State F → Run (ℕ × List ℕ)
  get_node_val m s = do
    ret ← pcounter_int F m
    if leb ret s.max_id then done (ret, drop 4 m) else failed

  unfoldable pub get_op_bool : ℕ → List ℕ → State F → Run (Bool × List ℕ)
  get_op_bool v m s =
      if val_is_reg v
      then from_reg (get_bool F) v m s
      else if val_is_field v
      then from_field (get_bool F) m s
      else thrown

  unfoldable pub get_op_float : ℕ → List ℕ → State F → Run (F.Double × List ℕ)
  get_op_float v m s =
      if val_is_float v
      then (pcounter_float F m >>= λ x. done (x, drop 8 m))
      else if val_is_reg v
      then from_reg (get_float F) v m s
      else if val_is_field v
      then from_field (get_float F) m s
      else if val_is_const v
      then from_const (get_float F) m s
      else thrown

  unfoldable pub get_op_int : ℕ → List ℕ → State F → Run (ℕ × List ℕ)
  get_op_int v m s =
      if val_is_int v
      then (pcounter_int F m >>= λ x. done (x, drop 4 m))
      else if val_is_reg v
      then from_reg (get_int F) v m s
      else if val_is_field v
      then from_field (get_int F) m s
      else if val_is_const v
      then from_const (get_int F) m s
      else thrown

  unfoldable pub get_op_node : ℕ → List ℕ → State F → Run (ℕ × List ℕ)
  get_op_node v m s =
      if val_is_host v
      then done (s.node_id, m)
      else if val_is_node v
      then get_node_val m s
      else if val_is_reg v
      then from_reg (get_node F) v m s
      else if val_is_field v
      then from_field (get_node F) m s
      else if val_is_const v
      then from_const (get_node F) m s
      else thrown

  unfoldable pub get_op_ptr : ℕ → List ℕ → State F → Run (Pointer F × List ℕ)
  get_op_ptr v m s =
      if val_is_reg v
      then from_reg (get_ptr F) v m s
      else if val_is_field v
      then from_field (get_ptr F) m s
      else thrown

  unfoldable pub get_op_int_list : ℕ → List ℕ → State F → Run (List ℕ × List ℕ)
  get_op_int_list v m s =
      if val_is_reg v
      then from_reg (get_int_list F) v m s
      else if val_is_field v
      then from_field (get_int_list F) m s
      else if val_is_nil v
      then done ([], m)
      else if val_is_const v
      then from_const (get_int_list F) m s
      else thrown

  unfoldable pub get_op_float_list : ℕ → List ℕ → State F → Run (List F.Double × List ℕ)
  get_op_float_list v m s =
      if val_is_reg v
      then from_reg (get_float_list F) v m s
      else if val_is_field v
      then from_field (get_float_list F) m s
      else if val_is_nil v
      then done ([], m)
      else if val_is_const v
      then from_const (get_float_list F) m s
      else thrown

  unfoldable pub get_op_node_list : ℕ → List ℕ → State F → Run (List ℕ × List ℕ)
  get_op_node_list v m s =
      if val_is_reg v
      then from_reg (get_node_list F) v m s
      else if val_is_field v
      then from_field (get_node_list F) m s
      else if val_is_nil v
      then done ([], m)
      else thrown

  -- What each yields.
  abbrev pub Element : OpType → Type 0
  Element bool_op = Bool
  Element float_op = F.Double
  Element int_op = ℕ
  Element node_op = ℕ
  Element ptr_op = Pointer F
  Element int_list_op = List ℕ
  Element float_list_op = List F.Double
  Element node_list_op = List ℕ

  abbrev pub get_op : (T : OpType) → ℕ → List ℕ → State F → Run (Element T × List ℕ)
  get_op bool_op = get_op_bool
  get_op float_op = get_op_float
  get_op int_op = get_op_int
  get_op node_op = get_op_node
  get_op ptr_op = get_op_ptr
  get_op int_list_op = get_op_int_list
  get_op float_list_op = get_op_float_list
  get_op node_list_op = get_op_node_list

-- ===== src/Vm/Exec.antt =====
-- predicates/vm/exec.cpp over the registers of predicates/vm/state.hpp: what instructions read and
-- write. Code is the list of the bytes from a position on. Tuples are shared objects in a store, and
-- a register holds the place of one. Lists and strings never change here: a list is its elements, a
-- string a number.
pub mod Get
pub mod Set
pub mod Arithmetic
pub mod Ops
pub mod Operands
pub mod Stores
pub mod Operate
pub mod Cells
pub mod Unary
pub mod Matches
pub mod Meaning
mod Tests
use meldtools.Common.{
  ℕ, ◌%◌, Bool, not, Option, none, some, List, [], ◌∷◌, ltb, ◌==◌, if◌then◌else◌, length, get_elem?,
  take,
}
use meldtools.Vm.Instr.{jump_get, ok}

-- The exception vm_exec_error, and a failed assertion or behaviour that C++ leaves undefined.
pub data Run {ℓ} (A : Type ℓ) : Type ℓ where
  done : A → Run A
  thrown failed : Run A

infixl 5 ◌>>=◌
abbrev pub ◌>>=◌ {ℓ κ} : {A : Type ℓ} {B : Type κ} → Run A → (A → Run B) → Run B
done a >>= f = f a
thrown >>= f = thrown
failed >>= f = failed

abbrev pub or_failed {ℓ} : {A : Type ℓ} → Option A → Run A
or_failed (some a) = done a
or_failed none = failed

-- What the code takes of `double`.
pub record Floats : Type 1 where
  pub Double : Type 0
  pub of_bytes : List ℕ → Double
  pub of_int : ℕ → Double
  pub eq : Double → Double → Bool
  pub lt : Double → Double → Bool
  pub le : Double → Double → Bool
  pub add : Double → Double → Double
  pub sub : Double → Double → Double
  pub mul : Double → Double → Double
  pub div : Double → Double → Double
  pub fmod : Double → Double → Double

module _ (F : Floats) where
  open F use {Double, of_bytes}

  -- What a `ptr_field` may hold.
  pub data Pointer : Type 0 where
    null : Pointer
    tuple_at string_at : ℕ → Pointer
    int_cell node_cell : ℕ → List ℕ → Pointer
    float_cell : Double → List Double → Pointer

  -- `tuple_field`, with the member of the union that was written last.
  pub data TupleField : Type 0 where
    int_field node_field : ℕ → TupleField
    float_field : Double → TupleField
    ptr_field : Pointer → TupleField

  pub record State : Type 0 where
    pub regs : ℕ → TupleField
    pub stack : List TupleField
    pub tuples : ℕ → Option (List TupleField)
    pub consts : ℕ → TupleField
    pub node_id : ℕ
    pub max_id : ℕ

  -- The getters of state.hpp and tuple.hpp.
  abbrev pub get_int : TupleField → Run ℕ
  get_int (int_field n) = done n
  get_int _ = failed

  abbrev pub get_bool : TupleField → Run Bool
  get_bool (int_field n) = done (not (n == 0))
  get_bool _ = failed

  abbrev pub get_node : TupleField → Run ℕ
  get_node (node_field n) = done n
  get_node _ = failed

  abbrev pub get_float : TupleField → Run Double
  get_float (float_field d) = done d
  get_float _ = failed

  abbrev pub get_ptr : TupleField → Run Pointer
  get_ptr (ptr_field p) = done p
  get_ptr _ = failed

  abbrev pub get_int_list : TupleField → Run (List ℕ)
  get_int_list (ptr_field null) = done []
  get_int_list (ptr_field (int_cell x xs)) = done (x ∷ xs)
  get_int_list _ = failed

  abbrev pub get_node_list : TupleField → Run (List ℕ)
  get_node_list (ptr_field null) = done []
  get_node_list (ptr_field (node_cell x xs)) = done (x ∷ xs)
  get_node_list _ = failed

  abbrev pub get_float_list : TupleField → Run (List Double)
  get_float_list (ptr_field null) = done []
  get_float_list (ptr_field (float_cell x xs)) = done (x ∷ xs)
  get_float_list _ = failed

  -- What the setters write.
  abbrev pub set_bool : Bool → TupleField
  set_bool b = int_field (if b then 1 else 0)

  abbrev pub set_int_list : List ℕ → TupleField
  set_int_list [] = ptr_field null
  set_int_list (x ∷ xs) = ptr_field (int_cell x xs)

  abbrev pub set_node_list : List ℕ → TupleField
  set_node_list [] = ptr_field null
  set_node_list (x ∷ xs) = ptr_field (node_cell x xs)

  abbrev pub set_float_list : List Double → TupleField
  set_float_list [] = ptr_field null
  set_float_list (x ∷ xs) = ptr_field (float_cell x xs)

  -- `get_tuple` of a register, with its place.
  unfoldable pub get_tuple : State → ℕ → Run (ℕ × List TupleField)
  get_tuple s r = do
    p ← get_ptr (s.regs r)
    elim p [ tuple_at t ↦ or_failed (s.tuples t) >>= λ fields. done (t, fields) | _ ↦ failed ]

  -- `pcounter_int`, `pcounter_uint`, `pcounter_node`
  unfoldable pub pcounter_int : List ℕ → Run ℕ
  pcounter_int m = elim (jump_get m 0) [ ok n ↦ done n | _ ↦ failed ]

  unfoldable pub pcounter_float : List ℕ → Run Double
  pcounter_float m = if ltb (length m) 8 then failed else done (of_bytes (take 8 m))

  abbrev pub byte_at : List ℕ → ℕ → Run ℕ
  byte_at m i = or_failed (get_elem? m i)

  -- The field that `val_field_num` and `val_field_reg` name.
  unfoldable pub field_at : List ℕ → State → Run TupleField
  unfolding get_tuple
  field_at m s = do
    num ← byte_at m 0
    r ← byte_at m 1
    (t, fields) ← get_tuple s (r % 32)
    or_failed (get_elem? fields num)

  abbrev pub val_reg : ℕ → ℕ
  val_reg v = v % 32

-- ===== src/Vm/Exec/Meaning.antt =====
-- What the operands, the operations and the matches of the instructions mean, said without the
-- functions that read and write them.
pub mod Operands
pub mod Results
pub mod Operations
pub mod Fields
use meldtools.Common.{
  ℕ, ◌+◌, ◌-◌, ◌*◌, ◌/◌, ◌%◌, Bool, true, false, not, ◌&&◌, ◌||◌, none, some, List, [], ◌∷◌, ltb,
  leb, ◌==◌, if◌then◌else◌, length, get_elem?, set, u32_mod,
}
use meldtools.Vm.Exec.{
  Floats, ◌>>=◌, Pointer, Run, State, TupleField, done, failed, float_cell, float_field, int_cell,
  int_field, node_cell, node_field, null, or_failed, ptr_field, thrown, tuple_at,
}
use meldtools.Vm.Exec.Arithmetic.{
  InstrOp, op_neqf, op_neqi, op_eqf, op_eqi, op_lessf, op_lessi, op_lesseqf, op_lesseqi,
  op_greaterf, op_greateri, op_greatereqf, op_greatereqi, op_modf, op_modi, op_plusf, op_plusi,
  op_minusf, op_minusi, op_timesf, op_timesi, op_divf, op_divi, op_neqa, op_eqa, op_greatera,
  op_orb,
}
use meldtools.Vm.Exec.Get.{
  Element, OpType, bool_op, float_list_op, float_op, int_list_op, int_op, node_list_op, node_op,
  ptr_op,
}
use meldtools.Vm.Exec.Matches.{FieldType, Tuple, type_float, type_int, type_node}
use meldtools.Vm.Exec.Operands.{readable}
use meldtools.Vm.Exec.Ops.{Operation}
use meldtools.Vm.Exec.Set.{
  StoreType, Stored, store_bool, store_float, store_float_list, store_int, store_int_list,
  store_node, store_node_list,
}
use meldtools.Vm.Exec.Stores.{takes}
use meldtools.Vm.Instr.Encoding.{Arg}
use meldtools.Vm.Instr.Operands.{Operand, constant, field, float, host, int, nil, node, reg, stack}

-- Four bytes, low byte first.
abbrev pub number : List ℕ → Run ℕ
number (a ∷ b ∷ c ∷ d ∷ []) = done (a + 256 * b + 65536 * c + 16777216 * d)
number _ = failed

-- An integer of 32 bits less than another: a negative one before one that is not, and by size where
-- both have a sign.
abbrev pub signed_less : ℕ → ℕ → Bool
signed_less a b =
    let x = a % u32_mod in
    let y = b % u32_mod in
    if leb 2147483648 x
    then (if leb 2147483648 y then ltb x y else true)
    else (if leb 2147483648 y then false else ltb x y)

abbrev pub minus : ℕ → ℕ
minus n = (u32_mod - n) % u32_mod

-- A quotient or a remainder of the sizes, with the sign that it has for each two signs.
abbrev pub undefined_quotient : ℕ → ℕ → Bool
undefined_quotient a b = b == 0 || (a == 2147483648 && b == 4294967295)

abbrev pub quotient : ℕ → ℕ → Run ℕ
quotient a b =
    if undefined_quotient a b
    then failed
    else if leb 2147483648 a
    then done
        (if leb 2147483648 b then (u32_mod - a) / (u32_mod - b) else minus ((u32_mod - a) / b))
    else done (if leb 2147483648 b then minus (a / (u32_mod - b)) else a / b)

abbrev pub remainder : ℕ → ℕ → Run ℕ
remainder a b =
    if undefined_quotient a b
    then failed
    else if leb 2147483648 a
    then done
        (minus (if leb 2147483648 b then (u32_mod - a) % (u32_mod - b) else (u32_mod - a) % b))
    else done (if leb 2147483648 b then a % (u32_mod - b) else a % b)

module _ (F : Floats) where
  abbrev pub double : List ℕ → Run F.Double
  double p = if length p == 8 then done (F.of_bytes p) else failed

  -- What a field holds as a value of a type.
  abbrev pub held : (T : OpType) → TupleField F → Run (Element F T)
  held bool_op (int_field n) = done (not (n == 0))
  held float_op (float_field d) = done d
  held int_op (int_field n) = done n
  held node_op (node_field n) = done n
  held ptr_op (ptr_field p) = done p
  held int_list_op (ptr_field null) = done []
  held int_list_op (ptr_field (int_cell x xs)) = done (x ∷ xs)
  held float_list_op (ptr_field null) = done []
  held float_list_op (ptr_field (float_cell x xs)) = done (x ∷ xs)
  held node_list_op (ptr_field null) = done []
  held node_list_op (ptr_field (node_cell x xs)) = done (x ∷ xs)
  held _ _ = failed

  -- The tuple in a register, with its place.
  abbrev pub tuple_in : TupleField F → State F → Run (ℕ × List (TupleField F))
  tuple_in (ptr_field (tuple_at t)) s = or_failed (s.tuples t) >>= λ fields. done (t, fields)
  tuple_in _ s = failed

  abbrev pub nth_field : List (TupleField F) → ℕ → Run (TupleField F)
  nth_field fields num = elim (get_elem? fields num) [ some x ↦ done x | none ↦ failed ]

  -- A byte with the number of a field, and one with a register in its low five bits.
  abbrev pub named : List ℕ → State F → Run (TupleField F)
  named (num ∷ r ∷ []) s = tuple_in (s.regs (r % 32)) s >>= λ p. nth_field p.1 num
  named _ s = failed

  abbrev pub origin : Operand → List ℕ → State F → Run (TupleField F)
  origin float p s = double p >>= λ x. done (float_field x)
  origin int p s = number p >>= λ x. done (int_field x)
  origin field p s = named p s
  origin host p s = done (node_field s.node_id)
  origin nil p s = done (ptr_field null)
  origin node p s = number p >>= λ x. if leb x s.max_id then done (node_field x) else failed
  origin constant p s = number p >>= λ x. done (s.consts x)
  origin (reg n) p s = done (s.regs n)
  origin _ p s = failed

  abbrev pub meant : (T : OpType) → Arg → State F → Run (Element F T)
  meant T a s = if readable T a.kind then (origin a.kind a.payload s >>= held T) else thrown

  -- The field that a value is kept in.
  abbrev pub kept : (T : StoreType) → Stored F T → TupleField F
  kept store_bool v = int_field (if v then 1 else 0)
  kept store_float v = float_field v
  kept store_int v = int_field v
  kept store_node v = node_field v
  kept store_int_list [] = ptr_field null
  kept store_int_list (x ∷ xs) = ptr_field (int_cell x xs)
  kept store_float_list [] = ptr_field null
  kept store_float_list (x ∷ xs) = ptr_field (float_cell x xs)
  kept store_node_list [] = ptr_field null
  kept store_node_list (x ∷ xs) = ptr_field (node_cell x xs)

  -- The state with a field in the place of an operand, and all else as it was.
  abbrev pub laid : Operand → List ℕ → TupleField F → State F → Run (State F)
  laid (reg n) p x s = done (record s { regs = λ q. if q == n then x else s.regs q })
  laid field (num ∷ r ∷ []) x s = tuple_in (s.regs (r % 32)) s >>= λ p.
      if ltb num (length p.1)
      then done (record s { tuples = λ u. if u == p.0 then some (set p.1 num x) else s.tuples u })
      else failed
  laid stack (off ∷ []) x s =
      if ltb off (length s.stack)
      then done (record s { stack = set s.stack (length s.stack - 1 - off) x })
      else failed
  laid _ p x s = failed

  abbrev pub left_at : (T : StoreType) → Arg → Stored F T → State F → Run (State F)
  left_at T a v s = if takes T a.kind then laid a.kind a.payload (kept T v) s else thrown

  -- An operation on two floats, integers or nodes.
  abbrev pub test_floats : (F.Double → F.Double → Bool) → Operation F
  test_floats f = record { from = float_op; to = store_bool; run = λ a b. done (f a b) }

  abbrev pub test_ints : (ℕ → ℕ → Bool) → Operation F
  test_ints f = record { from = int_op; to = store_bool; run = λ a b. done (f a b) }

  abbrev pub test_nodes : (ℕ → ℕ → Bool) → Operation F
  test_nodes f = record { from = node_op; to = store_bool; run = λ a b. done (f a b) }

  abbrev pub on_floats : (F.Double → F.Double → F.Double) → Operation F
  on_floats f = record { from = float_op; to = store_float; run = λ a b. done (f a b) }

  abbrev pub on_ints : (ℕ → ℕ → Run ℕ) → Operation F
  on_ints f = record { from = int_op; to = store_int; run = f }

  abbrev pub intended : InstrOp → Operation F
  intended op_neqf = test_floats (λ a b. not (F.eq a b))
  intended op_eqf = test_floats F.eq
  intended op_lessf = test_floats F.lt
  intended op_lesseqf = test_floats F.le
  intended op_greaterf = test_floats (λ a b. F.lt b a)
  intended op_greatereqf = test_floats (λ a b. F.le b a)
  intended op_neqi = test_ints (λ a b. not (a == b))
  intended op_eqi = test_ints ◌==◌
  intended op_lessi = test_ints signed_less
  intended op_lesseqi = test_ints (λ a b. not (signed_less b a))
  intended op_greateri = test_ints (λ a b. signed_less b a)
  intended op_greatereqi = test_ints (λ a b. not (signed_less a b))
  intended op_modf = on_floats F.fmod
  intended op_plusf = on_floats F.add
  intended op_minusf = on_floats F.sub
  intended op_timesf = on_floats F.mul
  intended op_divf = on_floats F.div
  intended op_modi = on_ints remainder
  intended op_divi = on_ints quotient
  intended op_plusi = on_ints (λ a b. done ((a + b) % u32_mod))
  intended op_minusi = on_ints (λ a b. done ((a + u32_mod - b) % u32_mod))
  intended op_timesi = on_ints (λ a b. done (a * b % u32_mod))
  intended op_neqa = test_nodes (λ a b. not (a == b))
  intended op_eqa = test_nodes ◌==◌
  intended op_greatera = test_nodes (λ a b. ltb b a)
  intended op_orb = record { from = bool_op; to = store_bool; run = λ a b. done (a || b) }

  -- Whether a field of a type is the same as another.
  abbrev pub agrees : FieldType → Run (TupleField F) → Run (TupleField F) → Run Bool
  agrees type_int a b = a >>= held int_op >>= λ x. b >>= held int_op >>= λ y. done (x == y)
  agrees type_float a b = a >>= held float_op >>= λ x. b >>= held float_op >>= λ y. done (F.eq x y)
  agrees type_node a b = a >>= held node_op >>= λ x. b >>= held node_op >>= λ y. done (x == y)
  agrees _ a b = thrown

  abbrev pub agrees_at : Tuple F → ℕ → Run (TupleField F) → Run Bool
  agrees_at t num other =
      or_failed (get_elem? t.types num) >>= λ typ. agrees typ (nth_field t.fields num) other

  -- Whether a field of a tuple is what an operand stands for.
  abbrev pub is_meant : Tuple F → ℕ × Arg → State F → Run Bool
  is_meant t (num, a) s = elim a.kind [
    | reg n ↦ agrees_at t num (done (s.regs n))
    | field ↦ agrees_at t num (named a.payload s)
    | host ↦ nth_field t.fields num >>= held node_op >>= λ x. done (x == s.node_id)
    | int ↦ number a.payload >>= λ i. nth_field t.fields num >>= held int_op >>= λ x. done (x == i)
    | float ↦
        double a.payload >>= λ d. nth_field t.fields num >>= held float_op >>= λ x. done (F.eq x d)
    | _ ↦ thrown
  ]

  -- Each in order, up to the first that is not.
  abbrev pub all_meant : Tuple F → List (ℕ × Arg) → State F → Run Bool
  all_meant t [] s = done true
  all_meant t (m ∷ ms) s = is_meant t m s >>= λ b. if b then all_meant t ms s else done false

-- ===== src/Vm/Exec/Meaning/Operands.antt =====
-- get_op_function reads what an operand means.
use meldtools.Common.{
  ℕ, ◌≡◌, refl, ap, ◌∙◌, List, [], ◌∷◌, ◌++◌, arith, length, get_elem?, if◌then◌else◌, ◌%◌,
  append-nil, take-append,
}
use meldtools.Vm.Exec.{
  Floats, ◌>>=◌, State, TupleField, done, failed, thrown, field_at, get_ptr, get_tuple, null,
  pcounter_float, pcounter_int, ptr_field, tuple_at, string_at, int_cell, node_cell, float_cell,
  or_failed,
}
use meldtools.Vm.Exec.Get.{
  OpType, get_op, bool_op, float_list_op, float_op, int_list_op, int_op, node_list_op, node_op,
  ptr_op,
}
use meldtools.Vm.Exec.Meaning.{double, held, meant, named, nth_field, number, origin, tuple_in}
use meldtools.Vm.Exec.Operands.{get_op-Arg, member, readable, source, value}
use meldtools.Vm.Exec.Operate.{>>=-cong}
use meldtools.Vm.Instr.{jump_get}
use meldtools.Vm.Instr.Encoding.{Arg}
use meldtools.Vm.Instr.Operands.{
  IsOperand, Operand, constant, field, float, int, node, operand_code, operand_size,
}

module _ (F : Floats) where
  pub member-held : (T : OpType) (x : TupleField F) → member F T x ≡ held F T x
  member-held bool_op x = refl
  member-held float_op x = refl
  member-held int_op x = refl
  member-held node_op x = refl
  member-held ptr_op x = refl
  member-held int_list_op (ptr_field p) = refl
  member-held int_list_op x = refl
  member-held float_list_op (ptr_field p) = refl
  member-held float_list_op x = refl
  member-held node_list_op (ptr_field p) = refl
  member-held node_list_op x = refl

  pub pcounter_int-number : (p : List ℕ) → length p ≡ 4 → pcounter_int F p ≡ number p
  unfolding pcounter_int jump_get
  pcounter_int-number (a ∷ b ∷ c ∷ d ∷ []) h = ap done (omega arith)
  pcounter_int-number p h = absurd (omega arith)

  pub pcounter_float-double : (p : List ℕ) → length p ≡ 8 → pcounter_float F p ≡ double F p
  unfolding pcounter_float
  pcounter_float-double p h = ground (arith, take-append 8 p [], append-nil p)

  pub or_failed-nth :
      (fields : List (TupleField F)) (num : ℕ)
      → or_failed (get_elem? fields num) ≡ nth_field F fields num
  or_failed-nth fields num = refl

  pointed :
      (x : TupleField F) (s : State F)
      → ◌>>=◌ {B = ℕ × List (TupleField F)} (get_ptr F x) (λ p. elim p [
        | tuple_at t ↦ or_failed (s.tuples t) >>= λ fields. done (t, fields)
        | _ ↦ failed
      ])
        ≡ tuple_in F x s
  pointed (ptr_field null) s = refl
  pointed (ptr_field (tuple_at t)) s = refl
  pointed (ptr_field (string_at t)) s = refl
  pointed (ptr_field (int_cell x xs)) s = refl
  pointed (ptr_field (node_cell x xs)) s = refl
  pointed (ptr_field (float_cell x xs)) s = refl
  pointed x s = refl

  pub get_tuple-in : (s : State F) (r : ℕ) → get_tuple F s r ≡ tuple_in F (s.regs r) s
  unfolding get_tuple
  get_tuple-in s r = pointed (s.regs r) s

  pub field_at-named : (p : List ℕ) (s : State F) → length p ≡ 2 → field_at F p s ≡ named F p s
  unfolding field_at
  field_at-named (num ∷ r ∷ []) s h =
      rw (get_tuple-in s (r % 32))
        (>>=-cong (tuple_in F (s.regs (r % 32)) s) (λ q. or_failed-nth q.1 num))
  field_at-named p s h = absurd (omega arith)

  source-origin :
      (k : Operand) (p : List ℕ) (s : State F)
      → length p ≡ operand_size k
      → source F k p s ≡ origin F k p s
  source-origin float p s h = rw (pcounter_float-double p h) refl
  source-origin int p s h = rw (pcounter_int-number p h) refl
  source-origin field p s h = field_at-named p s h
  source-origin node p s h = rw (pcounter_int-number p h) refl
  source-origin constant p s h = rw (pcounter_int-number p h) refl
  source-origin k p s h = refl

  pub value-meant :
      (T : OpType) (a : Arg) (s : State F)
      → length a.payload ≡ operand_size a.kind
      → value F T a s ≡ meant F T a s
  value-meant T a s h =
      ap (λ m. if readable T a.kind then m else thrown)
        (rw (source-origin a.kind a.payload s h)
          (>>=-cong (origin F a.kind a.payload s) (member-held T)))

  -- Each instance of get_op_function reads from the bytes of an operand what the operand means, leaves
  -- the cursor behind them, and throws at an operand that it cannot read.
  pub get_op-meant :
      (T : OpType) (k : Operand) (p rest : List ℕ) (s : State F)
      → IsOperand k
      → length p ≡ operand_size k
      → get_op F T (operand_code k) (p ++ rest) s
        ≡ (meant F T (record { kind = k; payload = p }) s >>= λ x. done (x, rest))
  get_op-meant T k p rest s i h =
      get_op-Arg F T k p rest s i h
      ∙ ap (λ m. m >>= λ x. done (x, rest)) (value-meant T (record { kind = k; payload = p }) s h)

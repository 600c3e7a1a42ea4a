-- ===== src/Vm/Exec/Operands.antt =====
-- What operands stand for, described by kind, and that get_op_function reads it.
use meldtools.Vm.Exec.{
  Floats, ◌>>=◌, Run, State, TupleField, done, failed, field_at, float_field, get_bool, get_float,
  get_float_list, get_int, get_int_list, get_node, get_node_list, get_ptr, int_field, node_field,
  null, pcounter_float, pcounter_int, ptr_field, thrown,
}
use meldtools.Common.{
  ℕ, ◌+◌, ◌<◌, ◌≡◌, refl, Bool, true, false, List, [], ◌∷◌, ◌++◌, append-nil, arith, leb,
  if◌then◌else◌, length, length-append, take-append, ◌%◌, sym, drop-append, inl, inr, Bool-cases,
}
use meldtools.Vm.Instr.Encoding.{Arg}
use meldtools.Vm.Instr.Operands.{
  IsOperand, Operand, constant, field, float, host, int, nil, node, operand_code, operand_size, reg,
}
use meldtools.Vm.Exec.Get.{
  get_op_bool, get_op_float, get_op_float_list, get_op_int, get_op_int_list, get_op_node,
  get_op_node_list, get_op_ptr, from_const, from_field, Element, OpType, bool_op, float_list_op,
  float_op, get_op, int_list_op, int_op, node_list_op, node_op, ptr_op,
}
use meldtools.Vm.Instr.{jump_get}

-- Which operands each can read.
abbrev pub readable : OpType → Operand → Bool
readable _ (reg n) = true
readable _ field = true
readable float_op float = true
readable float_op constant = true
readable int_op int = true
readable int_op constant = true
readable node_op host = true
readable node_op node = true
readable node_op constant = true
readable int_list_op nil = true
readable int_list_op constant = true
readable float_list_op nil = true
readable float_list_op constant = true
readable node_list_op nil = true
readable _ _ = false

>>=-assoc {ℓ κ μ} :
    {A : Type ℓ} {B : Type κ} {C : Type μ} (m : Run A) (f : A → Run B) (g : B → Run C)
    → (m >>= f >>= g) ≡ (m >>= λ a. f a >>= g)
>>=-assoc (done a) f g = refl
>>=-assoc thrown f g = refl
>>=-assoc failed f g = refl

>>=-done {ℓ κ μ ν} :
    {A : Type ℓ} {B : Type κ} {C : Type μ} {E : Type ν} (m : Run A) (f : A → B) (g : B → Run C)
    (k : C → Run E)
    → (((m >>= λ a. done (f a)) >>= g) >>= k) ≡ (m >>= λ a. g (f a) >>= k)
>>=-done (done a) f g k = refl
>>=-done thrown f g k = refl
>>=-done failed f g k = refl

pub nil_of_length {ℓ} : {A : Type ℓ} (p : List A) → length p ≡ 0 → p ≡ []
nil_of_length [] h = refl
nil_of_length (x ∷ p) h = absurd (omega arith)

module _ (F : Floats) where
  -- The member of the union that each reads.
  abbrev pub member : (T : OpType) → TupleField F → Run (Element F T)
  member bool_op = get_bool F
  member float_op = get_float F
  member int_op = get_int F
  member node_op = get_node F
  member ptr_op = get_ptr F
  member int_list_op = get_int_list F
  member float_list_op = get_float_list F
  member node_list_op = get_node_list F

  -- What an operand with its own bytes stands for.
  abbrev pub source : Operand → List ℕ → State F → Run (TupleField F)
  source float p s = pcounter_float F p >>= λ x. done (float_field x)
  source int p s = pcounter_int F p >>= λ x. done (int_field x)
  source field p s = field_at F p s
  source host p s = done (node_field s.node_id)
  source nil p s = done (ptr_field null)
  source node p s = pcounter_int F p >>= λ x. if leb x s.max_id then done (node_field x) else failed
  source constant p s = pcounter_int F p >>= λ x. done (s.consts x)
  source (reg n) p s = done (s.regs n)
  source _ p s = failed

  abbrev pub value : (T : OpType) → Arg → State F → Run (Element F T)
  value T a s = if readable T a.kind then (source a.kind a.payload s >>= member T) else thrown

  get_op-reg :
      (T : OpType) (n : ℕ) (m : List ℕ) (s : State F)
      → n < 32
      → get_op F T (32 + n) m s ≡ (member T (s.regs n) >>= λ x. done (x, m))
  unfolding get_op_bool get_op_float get_op_int get_op_node get_op_ptr get_op_int_list
      get_op_float_list get_op_node_list
  get_op-reg bool_op n m s h = let e : (32 + n) % 32 ≡ n = omega arith in ground (arith, e)
  get_op-reg float_op n m s h = let e : (32 + n) % 32 ≡ n = omega arith in ground (arith, e)
  get_op-reg int_op n m s h = let e : (32 + n) % 32 ≡ n = omega arith in ground (arith, e)
  get_op-reg node_op n m s h = let e : (32 + n) % 32 ≡ n = omega arith in ground (arith, e)
  get_op-reg ptr_op n m s h = let e : (32 + n) % 32 ≡ n = omega arith in ground (arith, e)
  get_op-reg int_list_op n m s h = let e : (32 + n) % 32 ≡ n = omega arith in ground (arith, e)
  get_op-reg float_list_op n m s h = let e : (32 + n) % 32 ≡ n = omega arith in ground (arith, e)
  get_op-reg node_list_op n m s h = let e : (32 + n) % 32 ≡ n = omega arith in ground (arith, e)

  pub field_at-append :
      (p rest : List ℕ) (s : State F) → length p ≡ 2 → field_at F (p ++ rest) s ≡ field_at F p s
  unfolding field_at
  field_at-append (a ∷ b ∷ []) rest s h = refl
  field_at-append p rest s h = absurd (omega arith)

  pub pcounter_int-append :
      (p rest : List ℕ) → length p ≡ 4 → pcounter_int F (p ++ rest) ≡ pcounter_int F p
  unfolding pcounter_int jump_get
  pcounter_int-append (a ∷ b ∷ c ∷ d ∷ []) rest h = refl
  pcounter_int-append p rest h = absurd (omega arith)

  pub pcounter_float-append :
      (p rest : List ℕ) → length p ≡ 8 → pcounter_float F (p ++ rest) ≡ pcounter_float F p
  unfolding pcounter_float
  pcounter_float-append p rest h =
      ground (arith, length-append p rest, take-append 8 p rest, take-append 8 p [], append-nil p)

  -- A field and a constant, for each type.
  from_field-append :
      (T : OpType) (p rest : List ℕ) (s : State F)
      → length p ≡ 2
      → from_field F (member T) (p ++ rest) s
        ≡ ((field_at F p s >>= member T) >>= λ x. done (x, rest))
  from_field-append T p rest s h =
      rw (field_at-append p rest s h, drop-append 2 p rest h)
        (sym (>>=-assoc (field_at F p s) (member T) (λ x. done (x, rest))))

  from_const-append :
      (T : OpType) (p rest : List ℕ) (s : State F)
      → length p ≡ 4
      → from_const F (member T) (p ++ rest) s
        ≡ ((source constant p s >>= member T) >>= λ x. done (x, rest))
  from_const-append T p rest s h =
      rw (pcounter_int-append p rest h, drop-append 4 p rest h)
        (sym (>>=-done (pcounter_int F p) s.consts (member T) (λ x. done (x, rest))))

  abbrev checked_node : Run ℕ → State F → Run (TupleField F)
  checked_node m s = m >>= λ x. if leb x s.max_id then done (node_field x) else failed

  node_checked :
      (m : Run ℕ) (s : State F) (rest : List ℕ)
      → ◌>>=◌ {B = ℕ × List ℕ} m (λ x. if leb x s.max_id then done (x, rest) else failed)
        ≡ ((checked_node m s >>= get_node F) >>= λ x. done (x, rest))
  node_checked (done x) s rest = elim (Bool-cases (leb x s.max_id)) [
    | inl b ↦ rw b refl
    | inr b ↦ rw b refl
  ]
  node_checked thrown s rest = refl
  node_checked failed s rest = refl

  -- Each instance of get_op_function reads from the bytes of an operand what the operand stands for,
  -- leaves the cursor behind them, and throws at an operand that it cannot read.
  pub get_op-Arg :
      (T : OpType) (k : Operand) (p rest : List ℕ) (s : State F)
      → IsOperand k
      → length p ≡ operand_size k
      → get_op F T (operand_code k) (p ++ rest) s
        ≡ (value T (record { kind = k; payload = p }) s >>= λ x. done (x, rest))
  unfolding get_op_bool get_op_float get_op_int get_op_node get_op_ptr get_op_int_list
      get_op_float_list get_op_node_list
  get_op-Arg T (reg n) p rest s i h = rw (nil_of_length p h) (get_op-reg T n rest s i)
  get_op-Arg bool_op field p rest s i h = from_field-append bool_op p rest s h
  get_op-Arg float_op field p rest s i h = from_field-append float_op p rest s h
  get_op-Arg int_op field p rest s i h = from_field-append int_op p rest s h
  get_op-Arg node_op field p rest s i h = from_field-append node_op p rest s h
  get_op-Arg ptr_op field p rest s i h = from_field-append ptr_op p rest s h
  get_op-Arg int_list_op field p rest s i h = from_field-append int_list_op p rest s h
  get_op-Arg float_list_op field p rest s i h = from_field-append float_list_op p rest s h
  get_op-Arg node_list_op field p rest s i h = from_field-append node_list_op p rest s h
  get_op-Arg float_op constant p rest s i h = from_const-append float_op p rest s h
  get_op-Arg int_op constant p rest s i h = from_const-append int_op p rest s h
  get_op-Arg node_op constant p rest s i h = from_const-append node_op p rest s h
  get_op-Arg int_list_op constant p rest s i h = from_const-append int_list_op p rest s h
  get_op-Arg float_list_op constant p rest s i h = from_const-append float_list_op p rest s h
  get_op-Arg float_op float p rest s i h =
      rw (pcounter_float-append p rest h, drop-append 8 p rest h)
        (sym (>>=-done (pcounter_float F p) float_field (get_float F) (λ x. done (x, rest))))
  get_op-Arg int_op int p rest s i h =
      rw (pcounter_int-append p rest h, drop-append 4 p rest h)
        (sym (>>=-done (pcounter_int F p) int_field (get_int F) (λ x. done (x, rest))))
  get_op-Arg node_op node p rest s i h =
      rw (pcounter_int-append p rest h, drop-append 4 p rest h)
        (node_checked (pcounter_int F p) s rest)
  get_op-Arg node_op host p rest s i h = rw (nil_of_length p h)
  get_op-Arg int_list_op nil p rest s i h = rw (nil_of_length p h)
  get_op-Arg float_list_op nil p rest s i h = rw (nil_of_length p h)
  get_op-Arg node_list_op nil p rest s i h = rw (nil_of_length p h)
  get_op-Arg bool_op k p rest s i h = refl
  get_op-Arg float_op k p rest s i h = refl
  get_op-Arg int_op k p rest s i h = refl
  get_op-Arg node_op k p rest s i h = refl
  get_op-Arg ptr_op k p rest s i h = refl
  get_op-Arg int_list_op k p rest s i h = refl
  get_op-Arg float_list_op k p rest s i h = refl
  get_op-Arg node_list_op k p rest s i h = refl

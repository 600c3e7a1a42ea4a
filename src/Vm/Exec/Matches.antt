-- ===== src/Vm/Exec/Matches.antt =====
-- do_match and do_matches of exec.cpp: the matches of an iteration against the fields of a tuple.
use meldtools.Vm.Instr.Operands.{
  Operand, reg, field, host, int, float, anything, IsOperand, operand_code, operand_size,
}
use meldtools.Vm.Exec.Operate.{then_read}
use meldtools.Vm.Instr.Loops.{iter_match_end, iter_match_none}
use meldtools.Vm.Exec.{
  ◌>>=◌, Floats, Run, State, TupleField, byte_at, done, failed, field_at, get_float, get_int,
  get_node, or_failed, pcounter_float, pcounter_int, thrown, val_reg,
}
use meldtools.Common.{
  ℕ, zero, suc, ◌+◌, ◌%◌, ◌<◌, ◌≡◌, refl, Bool, true, false, not, List, [], ◌∷◌, ◌++◌, append_assoc,
  arith, ◌==◌, if◌then◌else◌, length, get_elem?, drop, drop-append, ◌≤◌, length-append,
}
use meldtools.Vm.Instr.Encoding.{AllIndexed, Arg, IsArg, encode_indexed, encode_last, mark}
use meldtools.Vm.Instr.RoundTrip.{code-lt, mark-mod}
use meldtools.Vm.Instr.{val_is_field, val_is_float, val_is_host, val_is_int, val_is_nil, val_is_reg}
use meldtools.Vm.Exec.Operands.{
  field_at-append, nil_of_length, pcounter_float-append, pcounter_int-append,
}

after_match :
    (b : Bool) {x y : Run Bool}
    → x ≡ y
    → (if not b then done false else x) ≡ (if b then y else done false)
after_match true e = e
after_match false e = refl

-- `field_type`
pub data FieldType : Type 0 where
  type_int type_float type_node type_list_int type_list_float type_list_node type_string : FieldType

module _ (F : Floats) where
  -- A tuple, with the types of its predicate.
  pub record Tuple : Type 0 where
    pub types : List FieldType
    pub fields : List (TupleField F)

  abbrev pub get_field_type : Tuple → ℕ → Run FieldType
  get_field_type t num = or_failed (get_elem? t.types num)

  abbrev pub field_of : Tuple → ℕ → Run (TupleField F)
  field_of t num = or_failed (get_elem? t.fields num)

  -- The `switch` on the type of a field; fields are read in its cases only.
  abbrev pub same_field : FieldType → Run (TupleField F) → Run (TupleField F) → Run Bool
  same_field type_int a b = a >>= get_int F >>= λ x. b >>= get_int F >>= λ y. done (x == y)
  same_field type_float a b = a >>= get_float F >>= λ x. b >>= get_float F >>= λ y. done (F.eq x y)
  same_field type_node a b = a >>= get_node F >>= λ x. b >>= get_node F >>= λ y. done (x == y)
  same_field _ a b = thrown

  -- The branches on a register or a field, on the node, and on a number in the code.
  abbrev pub match_field : Tuple → ℕ → Run (TupleField F) → Run Bool
  match_field t num other = get_field_type t num >>= λ typ. same_field typ (field_of t num) other

  abbrev pub match_host : Tuple → ℕ → State F → Run Bool
  match_host t num s = field_of t num >>= get_node F >>= λ x. done (x == s.node_id)

  abbrev pub match_int : Tuple → ℕ → List ℕ → Run Bool
  match_int t num m = pcounter_int F m >>= λ i. field_of t num >>= get_int F >>= λ x. done (x == i)

  abbrev pub match_float : Tuple → ℕ → List ℕ → Run Bool
  match_float t num m =
      pcounter_float F m >>= λ d. field_of t num >>= get_float F >>= λ x. done (F.eq x d)

  -- The cursor goes behind what was read.
  abbrev pub moved : List ℕ → Run Bool → Run (Bool × List ℕ)
  moved m b = b >>= λ x. done (x, m)

  unfoldable pub do_match : Tuple → ℕ → ℕ → List ℕ → State F → Run (Bool × List ℕ)
  do_match t num val m s =
      if val_is_reg val
      then moved m (match_field t num (done (s.regs (val_reg F val))))
      else if val_is_field val
      then moved (drop 2 m) (match_field t num (field_at F m s))
      else if val_is_nil val
      then thrown
      else if val_is_host val
      then moved m (match_host t num s)
      else if val_is_int val
      then moved (drop 4 m) (match_int t num m)
      else if val_is_float val
      then moved (drop 8 m) (match_float t num m)
      else thrown

  -- The `do … while`; each round takes two bytes or more, so fuel above the length is enough.
  unfoldable pub matches_loop : ℕ → Tuple → List ℕ → State F → Run Bool
  unfolding do_match
  matches_loop zero t pc s = failed
  matches_loop (suc fuel) t pc s = do
    num ← byte_at F pc 0
    v ← byte_at F pc 1
    (b, m) ← do_match t num (v % 64) (drop 2 pc) s
    let rest = matches_loop fuel t m s
    if not b then done false else if iter_match_end v then done true else rest

  unfoldable pub do_matches : List ℕ → Tuple → State F → Run Bool
  unfolding matches_loop
  do_matches pc t s = do
    v ← byte_at F pc 1
    if iter_match_none v then done true else matches_loop (suc (length pc)) t pc s

  -- Whether a field is what an operand stands for.
  abbrev pub matched : Tuple → ℕ × Arg → State F → Run Bool
  matched t (num, a) s = elim a.kind [
    | reg n ↦ match_field t num (done (s.regs n))
    | field ↦ match_field t num (field_at F a.payload s)
    | host ↦ match_host t num s
    | int ↦ match_int t num a.payload
    | float ↦ match_float t num a.payload
    | _ ↦ thrown
  ]

  -- Matches are tried in order until one fails.
  abbrev pub all_matched : Tuple → List (ℕ × Arg) → State F → Run Bool
  all_matched t [] s = done true
  all_matched t (m ∷ ms) s = matched t m s >>= λ b. if b then all_matched t ms s else done false

  do_match-reg :
      (t : Tuple) (num n : ℕ) (m : List ℕ) (s : State F)
      → n < 32
      → do_match t num (32 + n) m s ≡ moved m (match_field t num (done (s.regs n)))
  unfolding do_match
  do_match-reg t num n m s h = let e : (32 + n) % 32 ≡ n = omega arith in ground (arith, e)

  do_match-Arg :
      (t : Tuple) (num : ℕ) (k : Operand) (p rest : List ℕ) (s : State F)
      → IsOperand k
      → length p ≡ operand_size k
      → do_match t num (operand_code k) (p ++ rest) s
        ≡ moved rest (matched t (num, record { kind = k; payload = p }) s)
  unfolding do_match
  do_match-Arg t num (reg n) p rest s i h = rw (nil_of_length p h) (do_match-reg t num n rest s i)
  do_match-Arg t num field p rest s i h = rw (field_at-append F p rest s h, drop-append 2 p rest h)
  do_match-Arg t num host p rest s i h = rw (nil_of_length p h)
  do_match-Arg t num int p rest s i h = rw (pcounter_int-append F p rest h, drop-append 4 p rest h)
  do_match-Arg t num float p rest s i h =
      rw (pcounter_float-append F p rest h, drop-append 8 p rest h)
  do_match-Arg t num k p rest s i h = refl

  matches_loop-encode :
      (t : Tuple) (ms : List (ℕ × Arg)) (num : ℕ) (a : Arg) (rest : List ℕ) (s : State F) (fuel : ℕ)
      → AllIndexed ms
      → IsArg anything a
      → length ms < fuel
      → matches_loop fuel t (encode_indexed ms ++ (encode_last (num, a) ++ rest)) s
        ≡ all_matched t (ms ++ (num, a) ∷ []) s
  unfolding matches_loop
  matches_loop-encode t ms num a rest s zero hs h room = absurd (omega arith)
  matches_loop-encode t [] num a rest s (suc fuel) hs h room =
      let low : (64 + mark a) % 64 ≡ mark a = omega (arith, code-lt a.kind h.0) in
      let ends : iter_match_end (64 + mark a) ≡ true = ground (arith, code-lt a.kind h.0) in
      rw (low, do_match-Arg t num a.kind a.payload rest s h.0 h.2, ends)
        (then_read (matched t (num, a) s) rest _ _ (λ b. after_match b refl))
  matches_loop-encode t ((g, b) ∷ ms) num a rest s (suc fuel) (h', hs) h room =
      let goes_on : iter_match_end (mark b) ≡ false = ground (arith, code-lt b.kind h'.0) in
      let more = encode_indexed ms ++ (encode_last (num, a) ++ rest) in
      rw
        (
          append_assoc,
          mark-mod b anything h',
          do_match-Arg t g b.kind b.payload more s h'.0 h'.2,
          goes_on,
        )
        (then_read (matched t (g, b) s) more _ _
          (λ x. after_match x (matches_loop-encode t ms num a rest s fuel hs h (omega arith))))

  indexed-length : (ms : List (ℕ × Arg)) → length ms ≤ length (encode_indexed ms)
  indexed-length [] = omega arith
  indexed-length ((g, a) ∷ ms) =
      omega (arith, indexed-length ms, length-append a.payload (encode_indexed ms))

  -- Of well-formed matches of an iteration, whatever bytes follow them, do_matches tries each in
  -- order on the tuple and the state, and is true if all hold; the first that does not hold, throws
  -- or has no defined behaviour decides.
  pub do_matches-encode :
      (t : Tuple) (ms : List (ℕ × Arg)) (num : ℕ) (a : Arg) (rest : List ℕ) (s : State F)
      → AllIndexed ms
      → IsArg anything a
      → do_matches (encode_indexed ms ++ (encode_last (num, a) ++ rest)) t s
        ≡ all_matched t (ms ++ (num, a) ∷ []) s
  unfolding do_matches
  do_matches-encode t [] num a rest s hs h =
      let some_match : iter_match_none (64 + mark a) ≡ false = ground (arith, code-lt a.kind h.0) in
      rw some_match (
        matches_loop-encode t [] num a rest s (suc (length (encode_last (num, a) ++ rest))) hs h
          (omega arith))
  do_matches-encode t ((g, b) ∷ ms) num a rest s (h', hs) h =
      let some_match : iter_match_none (mark b) ≡ false = ground (arith, code-lt b.kind h'.0) in
      let long = length-append (encode_indexed ((g, b) ∷ ms)) (encode_last (num, a) ++ rest) in
      rw some_match (
        matches_loop-encode t ((g, b) ∷ ms) num a rest s
          (suc (length (encode_indexed ((g, b) ∷ ms) ++ (encode_last (num, a) ++ rest)))) (h', hs) h
          (omega (arith, indexed-length ((g, b) ∷ ms), long)))

-- ===== src/Vm/Instr/Stepping.antt =====
-- `advance` steps over exactly the bytes of an instruction.
use meldtools.Common.{
  ℕ, ◌+◌, ◌*◌, ◌/◌, ◌%◌, ◌<◌, ◌≡◌, refl, ap, ◌∙◌, some, List, [], ◌∷◌, ◌++◌, arith, length,
  length-append, u32_mod, suc, append_assoc, drop-append, ◌≤◌, false,
}
use meldtools.Vm.Instr.Encoding.{
  Arg, Instruction, IsArg, IsInstruction, call, calle, colocated, cons, delete, encode, fixed,
  fixed_size, float_to, head, iterate, iterate_all, mark, move, move_nil, negate, new_axioms, op,
  opcode, select, tail, test_nil, word, AllIndexed, encode_indexed, encode_last,
}
use meldtools.Vm.Instr.Advance.{
  InstrType, advance, call_instr, calle_instr, colocated_instr, cons_instr, delete_instr, fetch,
  float_instr, head_instr, instr_size, move_instr, move_nil_instr, new_axioms_instr, not_instr,
  op_instr, return_instr, tail_instr, test_nil_instr, iter_instr, select_instr,
}
use meldtools.Vm.Instr.Operands.{
  anything, anything_not_nil, arg_size, bool_arg, int_arg, list, node_arg, non_list, writable,
}
use meldtools.Vm.Instr.{
  anything_not_nil_size, anything_size, bool_size, int_arg_size, jump_get, list_size, node_arg_size,
  non_list_size, ok, writable_size, byte_get,
}
use meldtools.Vm.Instr.RoundTrip.{
  arg_size-mark, call_args-encode, delete_args-encode, mark-mod, iter_loop-encode, code-lt,
}
use meldtools.Vm.Instr.Loops.{iter_matches_size, iter_loop, iter_match_none}

fetch-opcode : (t : InstrType) → fetch (opcode t) ≡ some t
unfolding fetch
fetch-opcode return_instr = refl
fetch-opcode t = refl

advance-opcode :
    (t : InstrType) (bytes : List ℕ) → advance (opcode t ∷ bytes) ≡ instr_size t (opcode t ∷ bytes)
unfolding advance
advance-opcode t bytes = rw (fetch-opcode t)

advance-fixed :
    (t : InstrType) (n : ℕ) (pc : List ℕ) → fixed_size t ≡ some n → instr_size t pc ≡ ok n
unfolding instr_size
advance-fixed return_instr n pc h = ground arith
advance-fixed t n pc h = ground arith

word_value :
    (n : ℕ)
    → n < u32_mod
    → n % 256 + 256 * (n / 256 % 256) + 65536 * (n / 65536 % 256) + 16777216 * (n / 16777216 % 256)
      ≡ n
word_value n h = omega arith

-- One byte, and nine bytes, into an instruction.
jump_get-new_axioms :
    (n : ℕ) (rest : List ℕ) → n < u32_mod → jump_get (0x14 ∷ word n ++ rest) 1 ≡ ok n
unfolding jump_get word
jump_get-new_axioms n rest h = ap ok (word_value n h)

jump_get-select :
    (size : List ℕ) (n : ℕ) (rest : List ℕ)
    → length size ≡ 4
    → n < u32_mod
    → jump_get (0x0a ∷ size ++ (word n ++ rest)) 5 ≡ ok n
unfolding jump_get word
jump_get-select (a ∷ b ∷ c ∷ d ∷ []) n rest l h = ap ok (word_value n h)
jump_get-select size n rest l h = absurd (omega arith)

module _ (a : Arg) where
  not_nil-mark : IsArg anything_not_nil a → anything_not_nil_size (mark a) ≡ ok (length a.payload)
  not_nil-mark h = rw h.2 (unfold arg_size in arg_size-mark anything_not_nil a h)

  any-mark : IsArg anything a → anything_size (mark a) ≡ ok (length a.payload)
  any-mark h = rw h.2 (unfold arg_size in arg_size-mark anything a h)

  int-mark : IsArg int_arg a → int_arg_size (mark a) ≡ ok (length a.payload)
  int-mark h = rw h.2 (unfold arg_size in arg_size-mark int_arg a h)

  writable-mark : IsArg writable a → writable_size (mark a) ≡ ok (length a.payload)
  writable-mark h = rw h.2 (unfold arg_size in arg_size-mark writable a h)

  list-mark : IsArg list a → list_size (mark a) ≡ ok (length a.payload)
  list-mark h = rw h.2 (unfold arg_size in arg_size-mark list a h)

  non_list-mark : IsArg non_list a → non_list_size (mark a) ≡ ok (length a.payload)
  non_list-mark h = rw h.2 (unfold arg_size in arg_size-mark non_list a h)

  bool-mark : IsArg bool_arg a → bool_size (mark a) ≡ ok (length a.payload)
  bool-mark h = rw h.2 (unfold arg_size in arg_size-mark bool_arg a h)

  node-mark : IsArg node_arg a → node_arg_size (mark a) ≡ ok (length a.payload)
  node-mark h = rw h.2 (unfold arg_size in arg_size-mark node_arg a h)

two_payloads :
    (a b : Arg) (n : ℕ)
    → n + length a.payload + length b.payload ≡ n + length (a.payload ++ b.payload)
two_payloads a b n = omega (arith, length-append a.payload b.payload)

three_payloads :
    (a b c : Arg) (n : ℕ)
    → n + length a.payload + length b.payload + length c.payload
      ≡ n + length (a.payload ++ b.payload ++ c.payload)
three_payloads a b c n = omega (
  arith,
  length-append a.payload (b.payload ++ c.payload),
  length-append (a.payload ++ b.payload) c.payload,
  length-append a.payload b.payload,
  length-append b.payload c.payload,
)

length-word : (n : ℕ) (rest : List ℕ) → length (word n ++ rest) ≡ 4 + length rest
unfolding word
length-word n rest = omega arith

-- `iter_match_none`: the two bytes of a match on nothing.
matches_all : (f b : ℕ) (rest : List ℕ) → b < 64 → iter_matches_size (f ∷ (192 + b) ∷ rest) ≡ ok 2
unfolding iter_matches_size
matches_all f b rest h = ground arith

matches_start :
    (pc : List ℕ) (b : ℕ)
    → byte_get pc 1 ≡ ok b
    → iter_match_none b ≡ false
    → iter_matches_size pc ≡ iter_loop (suc (length pc)) pc 0
unfolding iter_matches_size
matches_start pc b read some_match = rw (read, some_match)

-- The byte after the field of the first match.
first_mark :
    (ms : List (ℕ × Arg)) (f : ℕ) (m : Arg) (rest : List ℕ)
    → AllIndexed ms
    → IsArg anything m
    → (b : ℕ) × (byte_get (encode_indexed ms ++ (encode_last (f, m) ++ rest)) 1 ≡ ok b)
      × (iter_match_none b ≡ false)
first_mark [] f m rest hs h = (64 + mark m, refl, ground (arith, code-lt m.kind h.0))
first_mark ((g, a) ∷ ms) f m rest (h', hs) h = (mark a, refl, ground (arith, code-lt a.kind h'.0))

length-encode_indexed : (ms : List (ℕ × Arg)) → length ms ≤ length (encode_indexed ms)
length-encode_indexed [] = omega arith
length-encode_indexed ((g, a) ∷ ms) =
    omega (arith, length-encode_indexed ms, length-append a.payload (encode_indexed ms))

matches-encode :
    (ms : List (ℕ × Arg)) (f : ℕ) (m : Arg) (rest : List ℕ)
    → AllIndexed ms
    → IsArg anything m
    → iter_matches_size ((encode_indexed ms ++ encode_last (f, m)) ++ rest)
      ≡ ok (length (encode_indexed ms ++ encode_last (f, m)))
matches-encode ms f m rest hs h =
    let pc = encode_indexed ms ++ (encode_last (f, m) ++ rest) in
    let (b, read, some_match) = first_mark ms f m rest hs h in
    let room : length ms < suc (length pc) = omega (
      arith,
      length-encode_indexed ms,
      length-append (encode_indexed ms) (encode_last (f, m) ++ rest),
    ) in
    let matches = iter_loop-encode ms f m rest (suc (length pc)) 0 hs h room in
    rw append_assoc (matches_start pc b read some_match ∙ matches ∙ ap ok (omega arith))

-- `advance` steps over exactly the bytes of a well-formed instruction, whatever follows it.
pub advance-encode :
    (i : Instruction) (rest : List ℕ)
    → IsInstruction i
    → advance (encode i ++ rest) ≡ ok (length (encode i))
unfolding instr_size
advance-encode (fixed t bytes) rest h =
    advance-opcode t (bytes ++ rest)
    ∙ advance-fixed t (1 + length bytes) (opcode t ∷ bytes ++ rest) h
    ∙ ap ok (omega arith)
advance-encode (float_to a b) rest (h, k) =
    advance-opcode float_instr _
    ∙ rw (mark-mod a int_arg h, int-mark a h, mark-mod b writable k, writable-mark b k)
        (ap ok (omega (arith, two_payloads a b 3)))
advance-encode (op a b c o) rest (h, k, l) =
    advance-opcode op_instr _
    ∙ rw
        (
          mark-mod a anything h,
          any-mark a h,
          mark-mod b anything k,
          any-mark b k,
          mark-mod c writable l,
          writable-mark c l,
        )
        (ap ok (omega (arith, three_payloads a b c 5)))
advance-encode (move a b) rest (h, k) =
    advance-opcode move_instr _
    ∙ rw (mark-mod a anything_not_nil h, not_nil-mark a h, mark-mod b writable k, writable-mark b k)
        (ap ok (omega (arith, two_payloads a b 3)))
advance-encode (move_nil a) rest h =
    advance-opcode move_nil_instr _
    ∙ rw (mark-mod a writable h, writable-mark a h) (ap ok (omega arith))
advance-encode (test_nil a b) rest (h, k) =
    advance-opcode test_nil_instr _
    ∙ rw (mark-mod a list h, list-mark a h, mark-mod b writable k, writable-mark b k)
        (ap ok (omega (arith, two_payloads a b 3)))
advance-encode (cons t a b c) rest (h, k, l) =
    advance-opcode cons_instr _
    ∙ rw
        (
          mark-mod a non_list h,
          non_list-mark a h,
          mark-mod b list k,
          list-mark b k,
          mark-mod c writable l,
          writable-mark c l,
        )
        (ap ok (omega (arith, three_payloads a b c 5)))
advance-encode (head t a b) rest (h, k) =
    advance-opcode head_instr _
    ∙ rw (mark-mod a list h, list-mark a h, mark-mod b writable k, writable-mark b k)
        (ap ok (omega (arith, two_payloads a b 4)))
advance-encode (tail t a b) rest (h, k) =
    advance-opcode tail_instr _
    ∙ rw (mark-mod a list h, list-mark a h, mark-mod b writable k, writable-mark b k)
        (ap ok (omega (arith, two_payloads a b 4)))
advance-encode (negate a b) rest (h, k) =
    advance-opcode not_instr _
    ∙ rw (mark-mod a bool_arg h, bool-mark a h, mark-mod b writable k, writable-mark b k)
        (ap ok (omega (arith, two_payloads a b 3)))
advance-encode (colocated a b r) rest (h, k) =
    advance-opcode colocated_instr _
    ∙ rw (mark-mod a node_arg h, node-mark a h, mark-mod b node_arg k, node-mark b k)
        (ap ok (omega (arith, two_payloads a b 4)))
advance-encode (call f r as') rest h =
    advance-opcode call_instr _ ∙ rw (call_args-encode as' rest h) (ap ok (omega arith))
advance-encode (calle f r as') rest h =
    advance-opcode calle_instr _ ∙ rw (call_args-encode as' rest h) (ap ok (omega arith))
advance-encode (delete p as') rest h =
    advance-opcode delete_instr _ ∙ rw (delete_args-encode as' rest h) (ap ok (omega arith))
advance-encode (iterate_all header f b) rest (l, h) =
    advance-opcode iter_instr _
    ∙ rw (append_assoc, drop-append 7 header (f ∷ (192 + b) ∷ rest) l, matches_all f b rest h)
        (ap ok (omega (arith, length-append header (f ∷ (192 + b) ∷ []))))
advance-encode (iterate header ms (f, m)) rest (l, hs, h) =
    let matches = encode_indexed ms ++ encode_last (f, m) in
    advance-opcode iter_instr _
    ∙ rw (append_assoc, drop-append 7 header (matches ++ rest) l, matches-encode ms f m rest hs h)
        (ap ok (omega (arith, length-append header matches)))
advance-encode (select size h table) rest (l, k, e) =
    let words : size ++ (word h ++ table) ++ rest ≡ size ++ (word h ++ (table ++ rest)) =
      simp append_assoc in
    advance-opcode select_instr _
    ∙ rw (words, jump_get-select size h (table ++ rest) l k)
        (ap ok (omega (arith, length-append size (word h ++ table), length-word h table)))
advance-encode (new_axioms bytes) rest h =
    advance-opcode new_axioms_instr _
    ∙ rw append_assoc (
        jump_get-new_axioms (5 + length bytes) (bytes ++ rest) h
        ∙ ap ok (omega (arith, length-word (5 + length bytes) bytes)))

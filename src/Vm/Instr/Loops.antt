-- ===== src/Vm/Instr/Loops.antt =====
-- The sizes of the parts of an instruction that repeat: the arguments of a call or a deletion, and
-- the matches of an iteration.
use meldtools.Common.{
  ℕ, zero, suc, ◌+◌, ◌/◌, ◌%◌, ◌<◌, ◌≢◌, Bool, List, arith, ◌==◌, if◌then◌else◌, length, drop,
  length-drop, get_elem?_bound, ◌≡◌, refl, inl, inr, Option-cases, get_elem?,
}
use meldtools.Vm.Instr.{
  Decoded, anything_size, byte_get, ok, out_of_fuel, val_get, ◌>>=◌, malformed, outside,
}

-- One round of `instr_call_args_size`, and the rounds left.
unfoldable pub instr_call_args_size : ℕ → List ℕ → Decoded ℕ
instr_call_args_size zero pc = ok 0
instr_call_args_size (suc num) pc = do
  v ← val_get pc 0
  a ← anything_size v
  let size = 1 + a
  total ← instr_call_args_size num (drop size pc)
  ok (size + total)

unfoldable pub instr_delete_args_size : ℕ → List ℕ → Decoded ℕ
instr_delete_args_size zero pc = ok 0
instr_delete_args_size (suc num) pc = do
  v ← val_get pc 1
  a ← anything_size v
  let size = 1 + 1 + a
  total ← instr_delete_args_size num (drop size pc)
  ok (size + total)

-- The tests of the two high bits of a match.
abbrev pub iter_match_end : ℕ → Bool
iter_match_end b = b / 64 % 4 == 1

abbrev pub iter_match_none : ℕ → Bool
iter_match_none b = b / 64 % 4 == 3

-- The `while(true)`; each round takes two bytes or more, so fuel above the length is enough.
unfoldable pub iter_loop : ℕ → List ℕ → ℕ → Decoded ℕ
iter_loop zero pc size = out_of_fuel
iter_loop (suc fuel) pc size = do
  b ← byte_get pc 1
  a ← anything_size (b % 64)
  let match_size = 2 + a
  let rest = iter_loop fuel (drop match_size pc) (size + match_size)
  if iter_match_end b then ok (size + match_size) else rest

unfoldable pub iter_matches_size : List ℕ → Decoded ℕ
unfolding iter_loop
iter_matches_size pc = do
  b ← byte_get pc 1
  if iter_match_none b then ok 2 else iter_loop (suc (length pc)) pc 0

bind_total :
    {A B : Type 0} (m : Decoded A) (f : A → Decoded B)
    → m ≢ out_of_fuel
    → ((a : A) → m ≡ ok a → f a ≢ out_of_fuel)
    → (m >>= f) ≢ out_of_fuel
bind_total (ok a) f h k = k a refl
bind_total malformed f h k = λ e. cc
bind_total outside f h k = λ e. cc
bind_total out_of_fuel f h k = absurd (h refl)

byte_get_total : (pc : List ℕ) (off : ℕ) → byte_get pc off ≢ out_of_fuel
byte_get_total pc off e = ground arith

byte_get_inside : (pc : List ℕ) (off b : ℕ) → byte_get pc off ≡ ok b → off < length pc
byte_get_inside pc off b e = elim (Option-cases (get_elem? pc off)) [
  | inl none_there ↦ absurd (ground arith)
  | inr (c, found) ↦ get_elem?_bound pc off found
]

anything_size_total : (v : ℕ) → anything_size v ≢ out_of_fuel
unfolding anything_size
anything_size_total v e = ground arith

-- The loop of the matches ends, whatever the code: on its end mark, an exception, or a read past
-- the end of the code.
iter_loop_total :
    (fuel : ℕ) (pc : List ℕ) (size : ℕ) → length pc < fuel → iter_loop fuel pc size ≢ out_of_fuel
unfolding iter_loop
iter_loop_total zero pc size h = absurd (omega arith)
iter_loop_total (suc fuel) pc size h = bind_total (byte_get pc 1) _ (byte_get_total pc 1) λ b read.
    bind_total (anything_size (b % 64)) _ (anything_size_total (b % 64)) λ a _.
      let shorter : length (drop (2 + a) pc) < fuel =
        omega (arith, length-drop (2 + a) pc, byte_get_inside pc 1 b read) in
      ground (arith, iter_loop_total fuel (drop (2 + a) pc) (size + (2 + a)) shorter)

-- The endless loop over the matches of an iteration ends on any bytes: at the end mark, by the
-- exception, or at a read past the end of the code; fuel above the length of the code is enough.
pub iter_matches_size_total : (pc : List ℕ) → iter_matches_size pc ≢ out_of_fuel
unfolding iter_matches_size
iter_matches_size_total pc =
    bind_total (byte_get pc 1) _ (byte_get_total pc 1)
      λ b read. ground (arith, iter_loop_total (suc (length pc)) pc 0)

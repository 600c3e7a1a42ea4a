-- ===== src/Vm/Instr/RoundTrip.antt =====
-- The sizes that the byte code yields for operands, arguments and matches are those of their encodings.
use meldtools.Common.{
  ℕ, suc, ◌+◌, ◌<◌, ◌≡◌, refl, List, [], ◌∷◌, ◌++◌, append_assoc, arith, length, drop, drop-append,
  ◌%◌, ap, length-append, zero, true, false,
}
use meldtools.Vm.Instr.Encoding.{
  AllArgs, Arg, IsArg, encode_args, mark, AllIndexed, encode_indexed, encode_last,
}
use meldtools.Vm.Instr.Operands.{
  ArgType, anything, arg_size, operand_size, IsOperand, Operand, arg_size-code, float, operand_code,
  reg,
}
use meldtools.Vm.Instr.{anything_size, ok}
use meldtools.Vm.Instr.Loops.{
  instr_call_args_size, instr_delete_args_size, iter_loop, iter_match_end,
}

pub arg_size-mark :
    (t : ArgType) (a : Arg) → IsArg t a → arg_size t (mark a) ≡ ok (operand_size a.kind)
arg_size-mark t a (i, admitted, _) = rw (arg_size-code t a.kind i, admitted)

anything_size-mark :
    (a : Arg) → IsArg anything a → anything_size (mark a) ≡ ok (operand_size a.kind)
anything_size-mark a h = unfold arg_size in arg_size-mark anything a h

pub code-lt : (o : Operand) → IsOperand o → operand_code o < 64
code-lt float h = omega arith
code-lt (reg n) h = omega arith
code-lt o h = omega arith

-- What `val_get` makes of the code of an operand.
pub mark-mod : (a : Arg) (t : ArgType) → IsArg t a → mark a % 64 ≡ mark a
mark-mod a t h = omega (arith, code-lt a.kind h.0)

drop_one : (k : ℕ) (c : ℕ) (p rest : List ℕ) → length p ≡ k → drop (1 + k) (c ∷ p ++ rest) ≡ rest
drop_one k c p rest h = let e : 1 + k ≡ suc k = omega arith in rw e (drop-append k p rest h)

drop_two :
    (k : ℕ) (i c : ℕ) (p rest : List ℕ) → length p ≡ k → drop (2 + k) (i ∷ c ∷ p ++ rest) ≡ rest
drop_two k i c p rest h = let e : 2 + k ≡ suc (suc k) = omega arith in rw e (drop-append k p rest h)

pub call_args-encode :
    (as' : List Arg) (rest : List ℕ)
    → AllArgs as'
    → instr_call_args_size (length as') (encode_args as' ++ rest) ≡ ok (length (encode_args as'))
unfolding instr_call_args_size
call_args-encode [] rest h = refl
call_args-encode (a ∷ as') rest (h, hs) =
    rw
      (
        append_assoc,
        mark-mod a anything h,
        anything_size-mark a h,
        drop_one (operand_size a.kind) (mark a) a.payload (encode_args as' ++ rest) h.2,
        call_args-encode as' rest hs,
      )
      (ap ok (omega (arith, length-append a.payload (encode_args as'))))

pub delete_args-encode :
    (as' : List (ℕ × Arg)) (rest : List ℕ)
    → AllIndexed as'
    → instr_delete_args_size (length as') (encode_indexed as' ++ rest)
      ≡ ok (length (encode_indexed as'))
unfolding instr_delete_args_size
delete_args-encode [] rest h = refl
delete_args-encode ((i, a) ∷ as') rest (h, hs) =
    rw
      (
        append_assoc,
        mark-mod a anything h,
        anything_size-mark a h,
        drop_two (operand_size a.kind) i (mark a) a.payload (encode_indexed as' ++ rest) h.2,
        delete_args-encode as' rest hs,
      )
      (ap ok (omega (arith, length-append a.payload (encode_indexed as'))))

-- The matches of an iteration end at the mark of the last.
pub iter_loop-encode :
    (ms : List (ℕ × Arg)) (f : ℕ) (m : Arg) (rest : List ℕ) (fuel size : ℕ)
    → AllIndexed ms
    → IsArg anything m
    → length ms < fuel
    → iter_loop fuel (encode_indexed ms ++ (encode_last (f, m) ++ rest)) size
      ≡ ok (size + length (encode_indexed ms ++ encode_last (f, m)))
unfolding iter_loop
iter_loop-encode ms f m rest zero size hs h room = absurd (omega arith)
iter_loop-encode [] f m rest (suc fuel) size hs h room =
    let low : (64 + mark m) % 64 ≡ mark m = omega (arith, code-lt m.kind h.0) in
    let ends : iter_match_end (64 + mark m) ≡ true = ground (arith, code-lt m.kind h.0) in
    rw (low, anything_size-mark m h, ends) (ap ok (omega (arith, h.2)))
iter_loop-encode ((g, a) ∷ ms) f m rest (suc fuel) size (h', hs) h room =
    let goes_on : iter_match_end (mark a) ≡ false = ground (arith, code-lt a.kind h'.0) in
    rw
      (
        append_assoc,
        mark-mod a anything h',
        anything_size-mark a h',
        goes_on,
        drop_two (operand_size a.kind) g (mark a) a.payload _ h'.2,
        iter_loop-encode ms f m rest fuel (size + (2 + operand_size a.kind)) hs h (omega arith),
      )
      (ap ok (
        omega (
          arith,
          length-append a.payload (encode_indexed ms),
          length-append (a.payload ++ encode_indexed ms) (encode_last (f, m)),
          length-append (encode_indexed ms) (encode_last (f, m)),
        )))

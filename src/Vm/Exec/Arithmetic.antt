-- ===== src/Vm/Exec/Arithmetic.antt =====
-- The numbers of the operations, and the arithmetic of `int_val`: predicates/vm/instr.hpp, exec.cpp.
use meldtools.Common.{
  ℕ, ◌+◌, ◌-◌, ◌/◌, ◌%◌, Bool, ◌&&◌, not, Option, List, [], ◌∷◌, ltb, leb, ◌==◌, if◌then◌else◌,
  get_elem?, u32_mod,
}
use meldtools.Vm.Exec.{Run, done, failed}

-- `instr_op`
pub data InstrOp : Type 0 where
  op_neqf op_neqi op_eqf op_eqi op_lessf op_lessi op_lesseqf op_lesseqi op_greaterf op_greateri
        op_greatereqf op_greatereqi op_modf op_modi op_plusf op_plusi op_minusf op_minusi op_timesf
        op_timesi op_divf op_divi op_neqa op_eqa op_greatera op_orb :
      InstrOp

unfoldable pub ops : List InstrOp
ops =
    op_neqf ∷ op_neqi ∷ op_eqf ∷ op_eqi ∷ op_lessf ∷ op_lessi ∷ op_lesseqf ∷ op_lesseqi
    ∷ op_greaterf ∷ op_greateri ∷ op_greatereqf ∷ op_greatereqi ∷ op_modf ∷ op_modi ∷ op_plusf
    ∷ op_plusi ∷ op_minusf ∷ op_minusi ∷ op_timesf ∷ op_timesi ∷ op_divf ∷ op_divi ∷ op_neqa
    ∷ op_eqa ∷ op_greatera ∷ op_orb ∷ []

-- The operation with a number, from 0 on.
unfoldable pub instr_op : ℕ → Option InstrOp
unfolding ops
instr_op n = get_elem? ops n

-- The sign and the magnitude of an `int_val`, which is a 32-bit pattern.
abbrev pub is_negative : ℕ → Bool
is_negative a = leb 2147483648 a

abbrev pub magnitude : ℕ → ℕ
magnitude a = if is_negative a then u32_mod - a else a

abbrev pub with_sign : Bool → ℕ → ℕ
with_sign negative n = if negative then (u32_mod - n) % u32_mod else n

-- `<` on `int_val`.
abbrev pub less_int : ℕ → ℕ → Bool
less_int a b = ltb ((a + 2147483648) % u32_mod) ((b + 2147483648) % u32_mod)

-- `/` and `%` of C++ on `int32_t`: towards zero, and undefined where the divisor is zero or the
-- quotient is 2 ^ 31.
abbrev pub quotient_fits : ℕ → ℕ → Bool
quotient_fits a b = not (b == 0) && not (a == 2147483648 && b == 4294967295)

unfoldable pub int_div : ℕ → ℕ → Run ℕ
int_div a b =
    if quotient_fits a b
    then done (
        with_sign (if is_negative a then not (is_negative b) else is_negative b)
          (magnitude a / magnitude b))
    else failed

unfoldable pub int_mod : ℕ → ℕ → Run ℕ
int_mod a b =
    if quotient_fits a b
    then done (with_sign (is_negative a) (magnitude a % magnitude b))
    else failed

-- `FIELD_LIST_INT`, `FIELD_LIST_FLOAT` and `FIELD_LIST_NODE`
pub data ListType : Type 0 where
  list_int list_float list_node : ListType

unfoldable pub get_list_type : ℕ → ListType
get_list_type b = if b == 1 then list_float else if b == 2 then list_node else list_int

-- ===== src/Vm/Instr/Operands.antt =====
-- The operands of byte operand_code, described by kind instead of by ladders of tests.
use meldtools.Common.{
  refl, ℕ, ◌+◌, ◌<◌, ◌≡◌, Bool, true, false, arith, if◌then◌else◌, ◌-◌, inl, inr, Option, none,
  some, List, [], ◌∷◌, ◌++◌, leb, ◌==◌, Bool-cases, get_or, replicate, holds_under, holds_under-lt,
}
use meldtools.Vm.Instr.{
  Decoded, anything_not_nil_size, anything_size, bool_size, int_arg_size, list_size, malformed,
  node_arg_size, non_list_size, ok, writable_size,
}

-- `instr_argument_type`: what an instruction wants at a place.
pub data ArgType : Type 0 where
  anything anything_not_nil int_arg writable list non_list bool_arg node_arg : ArgType

-- `arg_size<type>`
unfoldable pub arg_size : ArgType → ℕ → Decoded ℕ
unfolding anything_size anything_not_nil_size int_arg_size writable_size list_size non_list_size
    bool_size node_arg_size
arg_size anything v = anything_size v
arg_size anything_not_nil v = anything_not_nil_size v
arg_size int_arg v = int_arg_size v
arg_size writable v = writable_size v
arg_size list v = list_size v
arg_size non_list v = non_list_size v
arg_size bool_arg v = bool_size v
arg_size node_arg v = node_arg_size v

pub data Operand : Type 0 where
  float int field host nil node string arg constant stack pcounter ptr tuple : Operand
  reg : ℕ → Operand

-- The code of an operand in an instruction: registers are 0x20 to 0x3f.
abbrev pub operand_code : Operand → ℕ
operand_code float = 0x00
operand_code int = 0x01
operand_code field = 0x02
operand_code host = 0x03
operand_code nil = 0x04
operand_code node = 0x05
operand_code string = 0x06
operand_code arg = 0x07
operand_code constant = 0x08
operand_code stack = 0x09
operand_code pcounter = 0x0a
operand_code ptr = 0x0b
operand_code tuple = 0x1f
operand_code (reg n) = 32 + n

-- How many bytes follow for it.
abbrev pub operand_size : Operand → ℕ
operand_size float = 8
operand_size int = 4
operand_size field = 2
operand_size host = 0
operand_size nil = 0
operand_size node = 4
operand_size string = 4
operand_size arg = 1
operand_size constant = 4
operand_size stack = 1
operand_size pcounter = 0
operand_size ptr = 8
operand_size tuple = 0
operand_size (reg n) = 0

abbrev pub IsOperand : Operand → Type 0
IsOperand (reg n) = n < 32
IsOperand _ = Unit {0}

-- Which operands may stand where.
abbrev pub admits : ArgType → Operand → Bool
admits _ (reg n) = true
admits _ field = true
admits _ stack = true
admits anything _ = true
admits anything_not_nil nil = false
admits anything_not_nil _ = true
admits int_arg int = true
admits int_arg constant = true
admits int_arg _ = false
admits writable constant = true
admits writable pcounter = true
admits writable _ = false
admits list nil = true
admits list _ = false
admits non_list nil = false
admits non_list tuple = false
admits non_list _ = true
admits bool_arg constant = true
admits bool_arg _ = false
admits node_arg host = true
admits node_arg node = true
admits node_arg constant = true
admits node_arg _ = false

arg_size-reg : (t : ArgType) (n : ℕ) → n < 32 → arg_size t (32 + n) ≡ ok 0
unfolding arg_size
arg_size-reg anything n h = ground arith
arg_size-reg t n h = ground arith

-- At each operand, each `arg_size` gives its size if it may stand there, and throws if not.
pub arg_size-code :
    (t : ArgType) (o : Operand)
    → IsOperand o
    → arg_size t (operand_code o) ≡ (if admits t o then ok (operand_size o) else malformed)
unfolding arg_size
arg_size-code anything (reg n) h = arg_size-reg anything n h
arg_size-code anything o h = refl
arg_size-code t (reg n) h = arg_size-reg t n h
arg_size-code t o h = refl

-- The operand that a code below 64 stands for.
low_operands : List (Option Operand)
low_operands =
    some float
      ∷ some int
      ∷ some field
      ∷ some host
      ∷ some nil
      ∷ some node
      ∷ some string
      ∷ some arg
      ∷ some constant
      ∷ some stack
      ∷ some pcounter
      ∷ some ptr
      ∷ replicate 19 none
    ++ some tuple ∷ []

pub operand_of : ℕ → Option Operand
unfolding low_operands
operand_of v = if leb 32 v then some (reg (v - 32)) else get_or low_operands v none

-- What an `arg_size` makes of a code, by the operand that it stands for.
abbrev pub sized : ArgType → Option Operand → Decoded ℕ
sized t none = malformed
sized t (some o) = if admits t o then ok (operand_size o) else malformed

same : Decoded ℕ → Decoded ℕ → Bool
same (ok a) (ok b) = a == b
same malformed malformed = true
same a b = false

same_sound : (a b : Decoded ℕ) → same a b ≡ true → a ≡ b
unfolding same
same_sound (ok a) (ok b) h = ground arith
same_sound malformed malformed h = refl
same_sound a b h = cc

low_table :
    (t : ArgType) → holds_under (λ v. same (arg_size t v) (sized t (operand_of v))) 32 ≡ true
unfolding arg_size holds_under same operand_of
low_table anything = refl
low_table t = refl

-- Of a code below 64, as `val_get` reads it, each `arg_size` gives the size of the operand that it
-- stands for, and throws if it stands for none or for one that may not stand there.
pub arg_size_lem : (t : ArgType) (v : ℕ) → v < 64 → arg_size t v ≡ sized t (operand_of v)
arg_size_lem t v h = elim (Bool-cases (leb 32 v)) [
  | inl high ↦
      let e : 32 + (v - 32) ≡ v = ground arith in
      let o : operand_of v ≡ some (reg (v - 32)) = unfold operand_of in rw high in
      rw o (rw e at (arg_size-code t (reg (v - 32)) (ground arith)))
  | inr low ↦ same_sound _ _ (
      holds_under-lt (λ v. same (arg_size t v) (sized t (operand_of v))) 32 v (ground arith)
        (low_table t))
]

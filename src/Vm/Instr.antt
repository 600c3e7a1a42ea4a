-- ===== src/Vm/Instr.antt =====
-- predicates/vm/instr.hpp: operands, and how many bytes of the byte code they take. Byte code is
-- the list of the bytes from the program counter on; a word is read in little-endian order.
pub mod Advance
pub mod Operands
pub mod Encoding
pub mod RoundTrip
pub mod Stepping
pub mod Linking
pub mod Loops
mod Tests
use meldtools.Common.{
  ℕ, ◌+◌, ◌*◌, ◌/◌, ◌%◌, Bool, Option, none, some, List, ◌==◌, if◌then◌else◌, get_elem?,
}

-- `malformed` is the exception malformed_instr_error, `outside` a read past the end of the code.
pub data Decoded {ℓ} (A : Type ℓ) : Type ℓ where
  ok : A → Decoded A
  malformed outside out_of_fuel : Decoded A

infixl 5 ◌>>=◌
abbrev pub ◌>>=◌ {ℓ κ} : {A : Type ℓ} {B : Type κ} → Decoded A → (A → Decoded B) → Decoded B
ok a >>= f = f a
malformed >>= f = malformed
outside >>= f = outside
out_of_fuel >>= f = out_of_fuel

abbrev pub or_outside {ℓ} : {A : Type ℓ} → Option A → Decoded A
or_outside (some a) = ok a
or_outside none = outside

abbrev pub byte_get : List ℕ → ℕ → Decoded ℕ
byte_get pc off = or_outside (get_elem? pc off)

abbrev pub val_get : List ℕ → ℕ → Decoded ℕ
val_get pc off = do b ← byte_get pc off; ok (b % 64)

-- `pcounter_code_size(x + off)`
unfoldable pub jump_get : List ℕ → ℕ → Decoded ℕ
jump_get pc off = do
  a ← byte_get pc off
  b ← byte_get pc (off + 1)
  c ← byte_get pc (off + 2)
  d ← byte_get pc (off + 3)
  ok (a + 256 * b + 65536 * c + 16777216 * d)

abbrev pub field_size : ℕ
field_size = 2

abbrev pub int_size : ℕ
int_size = 4

abbrev pub float_size : ℕ
float_size = 8

abbrev pub node_size : ℕ
node_size = 4

abbrev pub string_size : ℕ
string_size = 4

abbrev pub ptr_size : ℕ
ptr_size = 8

abbrev pub argument_size : ℕ
argument_size = 1

abbrev pub stack_val_size : ℕ
stack_val_size = 1

abbrev pub val_is_reg : ℕ → Bool
val_is_reg x = x / 32 % 2 == 1

abbrev pub val_is_tuple : ℕ → Bool
val_is_tuple x = x == 0x1f

abbrev pub val_is_float : ℕ → Bool
val_is_float x = x == 0x00

abbrev pub val_is_int : ℕ → Bool
val_is_int x = x == 0x01

abbrev pub val_is_field : ℕ → Bool
val_is_field x = x == 0x02

abbrev pub val_is_host : ℕ → Bool
val_is_host x = x == 0x03

abbrev pub val_is_nil : ℕ → Bool
val_is_nil x = x == 0x04

abbrev pub val_is_node : ℕ → Bool
val_is_node x = x == 0x05

abbrev pub val_is_string : ℕ → Bool
val_is_string x = x == 0x06

abbrev pub val_is_arg : ℕ → Bool
val_is_arg x = x == 0x07

abbrev pub val_is_const : ℕ → Bool
val_is_const x = x == 0x08

abbrev pub val_is_stack : ℕ → Bool
val_is_stack x = x == 0x09

abbrev pub val_is_pcounter : ℕ → Bool
val_is_pcounter x = x == 0x0a

abbrev pub val_is_ptr : ℕ → Bool
val_is_ptr x = x == 0x0b

unfoldable pub anything_size : ℕ → Decoded ℕ
anything_size v =
    if val_is_float v
    then ok float_size
    else if val_is_int v
    then ok int_size
    else if val_is_field v
    then ok field_size
    else if val_is_nil v
    then ok 0
    else if val_is_reg v
    then ok 0
    else if val_is_host v
    then ok 0
    else if val_is_tuple v
    then ok 0
    else if val_is_node v
    then ok node_size
    else if val_is_string v
    then ok string_size
    else if val_is_arg v
    then ok argument_size
    else if val_is_const v
    then ok int_size
    else if val_is_stack v
    then ok stack_val_size
    else if val_is_pcounter v
    then ok 0
    else if val_is_ptr v
    then ok ptr_size
    else malformed

unfoldable pub anything_not_nil_size : ℕ → Decoded ℕ
anything_not_nil_size v =
    if val_is_float v
    then ok float_size
    else if val_is_int v
    then ok int_size
    else if val_is_field v
    then ok field_size
    else if val_is_reg v
    then ok 0
    else if val_is_host v
    then ok 0
    else if val_is_tuple v
    then ok 0
    else if val_is_node v
    then ok node_size
    else if val_is_string v
    then ok string_size
    else if val_is_arg v
    then ok 1
    else if val_is_const v
    then ok int_size
    else if val_is_stack v
    then ok stack_val_size
    else if val_is_pcounter v
    then ok 0
    else if val_is_ptr v
    then ok ptr_size
    else malformed

unfoldable pub int_arg_size : ℕ → Decoded ℕ
int_arg_size v =
    if val_is_int v
    then ok int_size
    else if val_is_reg v
    then ok 0
    else if val_is_field v
    then ok field_size
    else if val_is_const v
    then ok int_size
    else if val_is_stack v
    then ok stack_val_size
    else malformed

unfoldable pub writable_size : ℕ → Decoded ℕ
writable_size v =
    if val_is_reg v
    then ok 0
    else if val_is_field v
    then ok field_size
    else if val_is_const v
    then ok int_size
    else if val_is_stack v
    then ok stack_val_size
    else if val_is_pcounter v
    then ok 0
    else malformed

unfoldable pub list_size : ℕ → Decoded ℕ
list_size v =
    if val_is_reg v
    then ok 0
    else if val_is_field v
    then ok field_size
    else if val_is_nil v
    then ok 0
    else if val_is_stack v
    then ok stack_val_size
    else malformed

unfoldable pub non_list_size : ℕ → Decoded ℕ
non_list_size v =
    if val_is_float v
    then ok float_size
    else if val_is_int v
    then ok int_size
    else if val_is_field v
    then ok field_size
    else if val_is_reg v
    then ok 0
    else if val_is_host v
    then ok 0
    else if val_is_node v
    then ok node_size
    else if val_is_string v
    then ok string_size
    else if val_is_arg v
    then ok 1
    else if val_is_const v
    then ok int_size
    else if val_is_stack v
    then ok stack_val_size
    else if val_is_pcounter v
    then ok 0
    else if val_is_ptr v
    then ok ptr_size
    else malformed

unfoldable pub bool_size : ℕ → Decoded ℕ
bool_size v =
    if val_is_reg v
    then ok 0
    else if val_is_field v
    then ok field_size
    else if val_is_const v
    then ok int_size
    else if val_is_stack v
    then ok stack_val_size
    else malformed

unfoldable pub node_arg_size : ℕ → Decoded ℕ
node_arg_size v =
    if val_is_reg v
    then ok 0
    else if val_is_field v
    then ok field_size
    else if val_is_host v
    then ok 0
    else if val_is_node v
    then ok node_size
    else if val_is_const v
    then ok int_size
    else if val_is_stack v
    then ok stack_val_size
    else malformed

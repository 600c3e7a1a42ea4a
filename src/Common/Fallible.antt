-- ===== src/Common/Fallible.antt =====
-- Steps that may fail: `none` is a failed assertion or an access outside a vector.
use Prim.Native.Nat.{ℕ}
use mathlib.Core.Bool.{Bool, true, false}
use mathlib.Core.Option.{Option, none, some}

infixl 5 ◌>>=◌ ◌>>◌
abbrev pub ◌>>=◌ {ℓ κ} : {A : Type ℓ} {B : Type κ} → Option A → (A → Option B) → Option B
some a >>= f = f a
none >>= f = none

abbrev pub ◌>>◌ {ℓ} : {B : Type ℓ} → Option (Unit {0}) → Option B → Option B
m >> k = m >>= λ _. k

-- An assertion.
abbrev pub guard : Bool → Option (Unit {0})
guard true = some tt
guard false = none

-- The number of values of a 16-bit, a 32-bit and a 64-bit word.
abbrev pub u16_mod : ℕ
u16_mod = 65536

abbrev pub u32_mod : ℕ
u32_mod = 4294967296

-- The number of values of an `int` that are not negative.
abbrev pub int_bound : ℕ
int_bound = 2147483648

abbrev pub u64_mod : ℕ
u64_mod = 18446744073709551616

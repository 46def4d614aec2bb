-- ===== src/Base/Word.antt =====
-- C++'s fixed-width integers: every word is the number of its bit pattern, and each operation of
-- width w is written with its wrap-around.
use Prim.Native.Nat.{ℕ, ◌+◌, ◌-◌, ◌*◌, ◌/◌, ◌%◌, ◌^◌}
use mathlib.Core.Bool.{Bool, true, false}
use cos375_project.Base.Tests.{ltb, if◌then◌else◌}

abbrev pub u32 : ℕ → ℕ
u32 n = n % 2 ^ 32

abbrev pub u64 : ℕ → ℕ
u64 n = n % 2 ^ 64

infixl 75 ◌>>>◌
abbrev pub ◌>>>◌ : ℕ → ℕ → ℕ
x >>> k = x / 2 ^ k

-- `x << k` on uint64_t and uint32_t.
abbrev pub shl64 : ℕ → ℕ → ℕ
shl64 x k = u64 (x * 2 ^ k)

abbrev pub shl32 : ℕ → ℕ → ℕ
shl32 x k = u32 (x * 2 ^ k)

abbrev pub add64 : ℕ → ℕ → ℕ
add64 a b = u64 (a + b)

-- `-` on ℕ stops at 0, so the modulus is added first; `b` is below it.
abbrev pub sub64 : ℕ → ℕ → ℕ
sub64 a b = u64 (a + 2 ^ 64 - b)

abbrev pub sub32 : ℕ → ℕ → ℕ
sub32 a b = u32 (a + 2 ^ 32 - b)

-- `negsuc n` is -(n + 1).
pub data ℤ : Type 0 where
  pos : ℕ → ℤ
  negsuc : ℕ → ℤ

-- The casts to int64_t and int32_t.
abbrev pub int64 : ℕ → ℤ
int64 w = if ltb w (2 ^ 63) then ℤ.pos w else ℤ.negsuc (2 ^ 64 - w - 1)

abbrev pub int32 : ℕ → ℤ
int32 w = if ltb w (2 ^ 31) then ℤ.pos w else ℤ.negsuc (2 ^ 32 - w - 1)

-- The cast of a signed number to uint64_t.
abbrev pub from_signed : ℤ → ℕ
from_signed (ℤ.pos n) = u64 n
from_signed (ℤ.negsuc n) = 2 ^ 64 - 1 - n % 2 ^ 64

-- `<` on signed numbers.
abbrev pub ltbℤ : ℤ → ℤ → Bool
ltbℤ (ℤ.pos a) (ℤ.pos b) = ltb a b
ltbℤ (ℤ.pos a) (ℤ.negsuc b) = false
ltbℤ (ℤ.negsuc a) (ℤ.pos b) = true
ltbℤ (ℤ.negsuc a) (ℤ.negsuc b) = ltb b a

-- `>>` on signed numbers rounds down: -(n + 1) >> k is -((n >> k) + 1).
abbrev pub sshr : ℤ → ℕ → ℤ
sshr (ℤ.pos n) k = ℤ.pos (n >>> k)
sshr (ℤ.negsuc n) k = ℤ.negsuc (n >>> k)

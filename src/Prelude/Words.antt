-- ===== src/Prelude/Words.antt =====
-- Go's int32 and int64 as bit patterns below 2 ^ w: arithmetic wraps, and the signed order is that
-- of the patterns with the sign bit flipped.
use Prim.Native.Nat.{ℕ, ◌+◌, ◌-◌, ◌%◌, ◌^◌}
use mathlib.Core.Bool.{Bool}
use rulego.Prelude.Tests.{ltb, leb}

-- atomic.AddInt32(&x, 1) and atomic.AddInt32(&x, -1)
abbrev pub inc32 : ℕ → ℕ
inc32 x = (x + 1) % 2 ^ 32

abbrev pub dec32 : ℕ → ℕ
dec32 x = (x + (2 ^ 32 - 1)) % 2 ^ 32

abbrev pub sle32 : ℕ → ℕ → Bool
sle32 x y = leb ((x + 2 ^ 31) % 2 ^ 32) ((y + 2 ^ 31) % 2 ^ 32)

abbrev pub add64 : ℕ → ℕ → ℕ
add64 x y = (x + y) % 2 ^ 64

abbrev pub slt64 : ℕ → ℕ → Bool
slt64 x y = ltb ((x + 2 ^ 63) % 2 ^ 64) ((y + 2 ^ 63) % 2 ^ 64)

abbrev pub sle64 : ℕ → ℕ → Bool
sle64 x y = leb ((x + 2 ^ 63) % 2 ^ 64) ((y + 2 ^ 63) % 2 ^ 64)

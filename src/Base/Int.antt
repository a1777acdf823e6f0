-- ===== src/Base/Int.antt =====
-- Signed integers over the native numbers, and the 32-bit words that stand for them.
use Prim.Native.Nat.{ℕ, suc, ◌+◌, ◌-◌, ◌/◌, ◌%◌, ◌^◌, ◌<◌}
use mathlib.Core.Path.{◌≡◌}
use mathlib.Core.Bool.{Bool}
use native.Mathlib.Omega.{arith}
use phantomshell.Base.Logic.{ltb, if◌then◌else◌}

-- `negsuc n` is -(n + 1).
pub data ℤ : Type 0 where
  pos : ℕ → ℤ
  negsuc : ℕ → ℤ

abbrev pub pos_part : ℤ → ℕ
pos_part (pos n) = n
pos_part (negsuc n) = 0

abbrev pub neg_part : ℤ → ℕ
neg_part (pos n) = 0
neg_part (negsuc n) = suc n

abbrev pub ltb_ℤ : ℤ → ℤ → Bool
ltb_ℤ a b = ltb (pos_part a + neg_part b) (pos_part b + neg_part a)

-- The `int32_t` with this bit pattern, and the bit pattern of an integer.
unfoldable pub signed32 : ℕ → ℤ
signed32 w = if ltb w (2 ^ 31) then pos w else negsuc (2 ^ 32 - 1 - w)

unfoldable pub word32 : ℤ → ℕ
word32 (pos n) = n % 2 ^ 32
word32 (negsuc n) = 2 ^ 32 - 1 - n % 2 ^ 32

-- Division that rounds towards zero.
unfoldable pub tdiv : ℤ → ℤ → ℤ
tdiv (pos a) (pos b) = pos (a / b)
tdiv (pos a) (negsuc b) = let q = a / suc b in if ltb 0 q then negsuc (q - 1) else pos 0
tdiv (negsuc a) (pos b) = let q = suc a / b in if ltb 0 q then negsuc (q - 1) else pos 0
tdiv (negsuc a) (negsuc b) = pos (suc a / suc b)

pub word32-signed32 : (w : ℕ) → w < 2 ^ 32 → word32 (signed32 w) ≡ w
unfolding signed32 word32
word32-signed32 w h = ground arith

pub word32-lt : (a : ℤ) → word32 a < 2 ^ 32
unfolding word32
word32-lt (pos n) = omega arith
word32-lt (negsuc n) = omega arith

-- ===== src/Base/Int.antt =====
-- Go's signed integers: an unbounded ℤ over the native numbers, and the conversions to the
-- machine widths with their wrap-around written out.
use Prim.Native.Nat.{ℕ, suc, ◌+◌, ◌-◌, ◌*◌, ◌%◌, ◌^◌, ◌<◌, ◌≤◌}
use mathlib.Core.Path.{◌≡◌}
use mathlib.Core.Bool.{Bool}
use native.Mathlib.Omega.{arith}
use open_help_desk.Base.Tests.{ltb, leb, if◌then◌else◌}

-- `negsuc n` is -(n + 1).
pub data ℤ : Type 0 where
  pos : ℕ → ℤ
  negsuc : ℕ → ℤ

abbrev pub pos_part : ℤ → ℕ
pos_part (pos n) = n
pos_part (negsuc n) = 0

abbrev pub neg_part : ℤ → ℕ
neg_part (pos n) = 0
neg_part (negsuc n) = suc n

-- a - b, as an integer
abbrev pub sub_ℕ : ℕ → ℕ → ℤ
sub_ℕ a b = if leb b a then pos (a - b) else negsuc (b - a - 1)

abbrev pub ltb_ℤ : ℤ → ℤ → Bool
ltb_ℤ a b = ltb (pos_part a + neg_part b) (pos_part b + neg_part a)

abbrev pub leb_ℤ : ℤ → ℤ → Bool
leb_ℤ a b = leb (pos_part a + neg_part b) (pos_part b + neg_part a)

-- n * k
abbrev pub scale : ℕ → ℤ → ℤ
scale k (pos n) = pos (n * k)
scale k (negsuc n) = sub_ℕ 0 (suc n * k)

-- The representative of `n` modulo `2 * half` in the range from `-half` to `half - 1`.
abbrev pub signed : ℕ → ℕ → ℤ
signed half n = if ltb n half then pos n else sub_ℕ n (2 * half)

-- The residue of an integer modulo m.
abbrev pub residue : ℕ → ℤ → ℕ
residue m (pos n) = n % m
residue m (negsuc n) = m - 1 - n % m

-- `int32(n)` of a wider integer
unfoldable pub to_int32 : ℤ → ℤ
to_int32 n = signed (2 ^ 31) (residue (2 ^ 32) n)

-- An `int64` result
unfoldable pub to_int64 : ℤ → ℤ
to_int64 n = signed (2 ^ 63) (residue (2 ^ 64) n)

-- `int32` keeps what fits.
pub to_int32_fits : (n : ℕ) → n < 2 ^ 31 → to_int32 (pos n) ≡ pos n
unfolding to_int32
to_int32_fits n h = ground arith

pub to_int64_fits : (n : ℕ) → n < 2 ^ 63 → to_int64 (pos n) ≡ pos n
unfolding to_int64
to_int64_fits n h = ground arith

pub to_int64_neg : (n : ℕ) → 0 < n → n ≤ 2 ^ 63 → to_int64 (sub_ℕ 0 n) ≡ negsuc (n - 1)
unfolding to_int64
to_int64_neg n lo hi = ground arith

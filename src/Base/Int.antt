-- ===== src/Base/Int.antt =====
-- C++'s `int` where it may go below 0, over the native numbers: as an integer, and as a word of 32
-- bits in two's complement.
use Prim.Native.Nat.{ℕ, zero, suc, ◌+◌, ◌-◌, ◌%◌, ◌^◌, ◌≤◌, ◌<◌}
use mathlib.Core.Bool.{Bool, true, false}
use mathlib.Core.Path.{◌≡◌}
use native.Mathlib.Omega.{arith}
use my_tcp_cs.Base.Tests.{ltb, leb, if◌then◌else◌}

-- `negsuc n` is -(n + 1).
pub data ℤ : Type 0 where
  pos : ℕ → ℤ
  negsuc : ℕ → ℤ

-- `++` and `--`
unfoldable pub suc_ℤ : ℤ → ℤ
suc_ℤ (pos n) = pos (n + 1)
suc_ℤ (negsuc zero) = pos 0
suc_ℤ (negsuc (suc n)) = negsuc n

unfoldable pub pred_ℤ : ℤ → ℤ
pred_ℤ (pos zero) = negsuc 0
pred_ℤ (pos (suc n)) = pos n
pred_ℤ (negsuc n) = negsuc (n + 1)

-- `n < a`
unfoldable pub exceeds : ℤ → ℕ → Bool
exceeds (pos a) n = ltb n a
exceeds (negsuc a) n = false

-- A number converted to `int`: its word.
abbrev pub int_of : ℕ → ℕ
int_of n = n % 2 ^ 32

-- Whether the `int` with the word `w` is below 0, and whether it is at most 0.
abbrev pub is_negative : ℕ → Bool
is_negative w = leb (2 ^ 31) w

abbrev pub is_used_up : ℕ → Bool
is_used_up zero = true
is_used_up w = is_negative w

-- `a - b` of two words. Like every overflow of an `int` here, it wraps around.
abbrev pub sub_int : (a b : ℕ) → ℕ
sub_int a b = int_of (a + 2 ^ 32 - b)

-- An `int` converted to `size_t`, 64 bits.
abbrev pub size_of : ℕ → ℕ
size_of w = if is_negative w then w + (2 ^ 64 - 2 ^ 32) else w

-- `a - b` of a `size_t` and an `int` that is not below 0.
abbrev pub sub_size : (a b : ℕ) → ℕ
sub_size a b = (a + 2 ^ 64 - b) % 2 ^ 64

pub int_of-small : (n : ℕ) → n < 2 ^ 31 → int_of n ≡ n
int_of-small n h = omega (arith, h)

pub is_negative-small : (n : ℕ) → n < 2 ^ 31 → is_negative n ≡ false
is_negative-small n h = ground (arith, h)

pub size_of-small : (n : ℕ) → n < 2 ^ 31 → size_of n ≡ n
size_of-small n h = ground (arith, h)

pub sub_int-small : (a b : ℕ) → a < 2 ^ 31 → b ≤ a → sub_int a b ≡ a - b
sub_int-small a b h le = omega (arith, h, le)

pub sub_size-small : (a b : ℕ) → a < 2 ^ 31 → b ≤ a → sub_size a b ≡ a - b
sub_size-small a b h le = omega (arith, h, le)

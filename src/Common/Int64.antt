-- ===== src/Common/Int64.antt =====
-- Go's `int64`: integers, and the operations with their wrap-around in two's complement.
use Prim.Native.Nat.{ℕ, ◌+◌, ◌-◌, ◌*◌, ◌/◌, ◌%◌, ◌^◌, min}
use mathlib.Core.Path.{ap}
use native.Mathlib.Decide.{ℕ_discrete}
use mathlib.Core.Bool.{Bool, true, false}
use netobserv_spcg.Common.Tests.{ltb, ◌==◌, if◌then◌else◌}

-- `negsuc n` is -(n + 1).
pub data ℤ : Type 0 where
  pos negsuc : ℕ → ℤ

abbrev int64_mod : ℕ
int64_mod = 2 ^ 64

-- The 64 bits of a number.
unfoldable pub bits_of : ℤ → ℕ
bits_of (pos n) = n % int64_mod
bits_of (negsuc n) = int64_mod - 1 - n % int64_mod

-- The number with the 64 bits.
unfoldable pub of_bits : ℕ → ℤ
of_bits b = if ltb b (2 ^ 63) then pos b else negsuc (int64_mod - 1 - b)

unfoldable pub add_int64 : ℤ → ℤ → ℤ
add_int64 a b = of_bits ((bits_of a + bits_of b) % int64_mod)

unfoldable pub sub_int64 : ℤ → ℤ → ℤ
sub_int64 a b = of_bits ((bits_of a + (int64_mod - bits_of b)) % int64_mod)

unfoldable pub ltb_ℤ : ℤ → ℤ → Bool
ltb_ℤ (pos a) (pos b) = ltb a b
ltb_ℤ (pos a) (negsuc b) = false
ltb_ℤ (negsuc a) (pos b) = true
ltb_ℤ (negsuc a) (negsuc b) = ltb b a

abbrev pub eq_ℤ : ℤ → ℤ → Bool
eq_ℤ (pos a) (pos b) = a == b
eq_ℤ (pos a) (negsuc b) = false
eq_ℤ (negsuc a) (pos b) = false
eq_ℤ (negsuc a) (negsuc b) = a == b

abbrev negated : ℕ → ℤ
negated n = if n == 0 then pos 0 else negsuc (n - 1)

-- `a / int64(n)` for a positive `n`, which rounds towards zero.
unfoldable pub quot_int64 : ℤ → ℕ → ℤ
quot_int64 (pos a) n = pos (a / n)
quot_int64 (negsuc a) n = negated ((a + 1) / n)

-- `uint64(a)` of a positive number, and 0 of any other.
abbrev pub positive_part : ℤ → ℕ
positive_part (pos n) = n
positive_part (negsuc n) = 0

-- `uint16(a)`.
unfoldable pub uint16_of : ℤ → ℕ
uint16_of a = bits_of a % 2 ^ 16

-- `a * n` for a small positive `n`, without wrap-around.
abbrev pub times : ℤ → ℕ → ℤ
times (pos a) n = pos (a * n)
times (negsuc a) n = negated ((a + 1) * n)

-- `t.Sub(u)` in nanoseconds, of times in microseconds: the nearest `int64`.
unfoldable pub time_sub : ℕ → ℕ → ℤ
time_sub t u =
    if ltb t u
    then negated (min (2 ^ 63) ((u - t) * 1000))
    else pos (min (2 ^ 63 - 1) ((t - u) * 1000))

abbrev magnitude : ℤ → ℕ
magnitude (pos a) = a
magnitude (negsuc a) = a

unfoldable pub ℤ-discrete : Discrete ℤ
ℤ-discrete (pos a) (pos b) = elim (ℕ_discrete a b) [
  | yes p ↦ yes (ap pos p)
  | no ne ↦ no (λ e. ne (ap magnitude e))
]
ℤ-discrete (pos a) (negsuc b) = no (λ e. cc)
ℤ-discrete (negsuc a) (pos b) = no (λ e. cc)
ℤ-discrete (negsuc a) (negsuc b) = elim (ℕ_discrete a b) [
  | yes p ↦ yes (ap negsuc p)
  | no ne ↦ no (λ e. ne (ap magnitude e))
]

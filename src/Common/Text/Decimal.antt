-- ===== src/Common/Text/Decimal.antt =====
-- Numbers in decimal are read back.
use Prim.Native.Char.{code}
use Prim.Native.String.{String, char_at}
use Prim.Native.String.append.{nil as append_nil, cons as append_cons}
use Prim.Native.Nat.pow.{suc as pow_suc}
use Prim.Native.Nat.{ℕ, zero, suc, ◌+◌, ◌-◌, ◌*◌, ◌/◌, ◌%◌, ◌^◌, ◌<◌}
use mathlib.Core.Path.{◌≡◌, ◌∙◌, refl, sym, ap}
use mathlib.Core.Logic.{inl, inr}
use native.Mathlib.Omega.{arith}
use netobserv_spcg.Common.Tests.{ltb, Bool-cases, ltb-false}
use netobserv_spcg.Common.Text.{◌+++◌, digit, decimal, decimal_digits}

-- The number that digits stand for, behind those of a first number.
pub read_digits : ℕ → String → ℕ
read_digits acc String.[] = acc
read_digits acc (String.◌∷◌ c s) = read_digits (acc * 10 + (code c - 48)) s

read_digits-append :
    (acc : ℕ) (s t : String) → read_digits acc (s +++ t) ≡ read_digits (read_digits acc s) t
unfolding read_digits
read_digits-append acc String.[] t = λ i. read_digits acc (append_nil t i)
read_digits-append acc (String.◌∷◌ c s) t =
    (λ i. read_digits acc (append_cons c s t i)) ∙ read_digits-append (acc * 10 + (code c - 48)) s t

code-digit : (d : ℕ) → d < 10 → code (char_at "0123456789" d) - 48 ≡ d
code-digit zero h = refl
code-digit (suc zero) h = refl
code-digit (suc (suc zero)) h = refl
code-digit (suc (suc (suc zero))) h = refl
code-digit (suc (suc (suc (suc zero)))) h = refl
code-digit (suc (suc (suc (suc (suc zero))))) h = refl
code-digit (suc (suc (suc (suc (suc (suc zero)))))) h = refl
code-digit (suc (suc (suc (suc (suc (suc (suc zero))))))) h = refl
code-digit (suc (suc (suc (suc (suc (suc (suc (suc zero)))))))) h = refl
code-digit (suc (suc (suc (suc (suc (suc (suc (suc (suc zero))))))))) h = refl
code-digit (suc (suc (suc (suc (suc (suc (suc (suc (suc (suc d)))))))))) h = absurd (omega arith)

read_digits-digit : (acc d : ℕ) → d < 10 → read_digits acc (digit d) ≡ acc * 10 + d
unfolding read_digits
read_digits-digit acc d h = ap (λ n. acc * 10 + n) (code-digit d h)

read_digits-decimal_digits :
    (fuel n : ℕ) → n < 10 ^ fuel → read_digits 0 (decimal_digits fuel n) ≡ n
unfolding decimal_digits read_digits
read_digits-decimal_digits zero n h = omega (arith, h)
read_digits-decimal_digits (suc fuel) n h = elim (Bool-cases (ltb n 10)) [
  | inl one ↦ rw one (read_digits-digit 0 n (ground arith) ∙ omega arith)
  | inr more ↦
      let long = ltb-false n 10 more in
      let power : 10 ^ suc fuel ≡ 10 ^ fuel * 10 = λ i. pow_suc 10 fuel i in
      let rest : read_digits 0 (decimal_digits fuel (n / 10)) ≡ n / 10 =
        read_digits-decimal_digits fuel (n / 10) (omega (arith, power, h)) in
      rw (more, read_digits-append 0 (decimal_digits fuel (n / 10)) (digit (n % 10)), rest)
        (read_digits-digit (n / 10) (n % 10) (omega arith) ∙ omega arith)
]

-- Numbers below 2 ^ 64 are told apart by their decimal texts.
pub decimal-injective : (m n : ℕ) → m < 2 ^ 64 → n < 2 ^ 64 → decimal m ≡ decimal n → m ≡ n
unfolding decimal
decimal-injective m n hm hn e =
    let small : (k : ℕ) → k < 2 ^ 64 → k < 10 ^ 20 = λ k h. omega arith in
    sym (read_digits-decimal_digits 20 m (small m hm))
    ∙ (ap (read_digits 0) e ∙ read_digits-decimal_digits 20 n (small n hn))

-- ===== src/Prelude/Digits.antt =====
-- Digits are read back as the number that they write.
use Prim.Native.String.{◌++◌ as append}
use Prim.Native.Char.{Char, code}
use Prim.Native.String.{String}
use Prim.Native.Nat.{ℕ, zero, suc, ◌+◌, ◌-◌, ◌*◌, ◌/◌, ◌%◌, ◌<◌, ◌≤◌}
use mathlib.Core.Path.{◌≡◌, refl, ◌∙◌}
use mathlib.Core.Bool.{Bool, true, false}
use text.Mathlib.TextLemmas.{nil-append, cons-append}
use native.Mathlib.Omega.{arith}
use gsrr_agent_harness.Prelude.Tests.{◌==◌, nat_eq, if◌then◌else◌, ltb}
use gsrr_agent_harness.Prelude.Text.{digit, decimal_from, decimal}

-- A colon starts the number again.
abbrev with_digit : ℕ → Char → ℕ
with_digit n c = if code c == 58 then 0 else n * 10 + (code c - 48)

-- The number that the digits at the end of a text write.
unfoldable pub read_from : ℕ → String → ℕ
read_from n String.[] = n
read_from n (String.◌∷◌ c s) = read_from (with_digit n c) s

pub read_from-append :
    (n : ℕ) (s t : String) → read_from n (append s t) ≡ read_from (read_from n s) t
unfolding read_from
read_from-append n String.[] t = rw (nil-append t) refl
read_from-append n (String.◌∷◌ c s) t =
    rw (cons-append c s t) (read_from-append (with_digit n c) s t)

read_from-digit : (n d : ℕ) → d < 10 → read_from n (digit d) ≡ n * 10 + d
unfolding read_from
read_from-digit n zero h = omega arith
read_from-digit n (suc zero) h = refl
read_from-digit n (suc (suc zero)) h = refl
read_from-digit n (suc (suc (suc zero))) h = refl
read_from-digit n (suc (suc (suc (suc zero)))) h = refl
read_from-digit n (suc (suc (suc (suc (suc zero))))) h = refl
read_from-digit n (suc (suc (suc (suc (suc (suc zero)))))) h = refl
read_from-digit n (suc (suc (suc (suc (suc (suc (suc zero))))))) h = refl
read_from-digit n (suc (suc (suc (suc (suc (suc (suc (suc zero)))))))) h = refl
read_from-digit n (suc (suc (suc (suc (suc (suc (suc (suc (suc zero))))))))) h = refl
read_from-digit n (suc (suc (suc (suc (suc (suc (suc (suc (suc (suc d)))))))))) h =
    absurd (omega arith)

below_ten : (n : ℕ) → ltb n 10 ≡ true → n < 10
below_ten n h = ground arith

ten_le : (n : ℕ) → ltb n 10 ≡ false → 10 ≤ n
ten_le n h = ground arith

smaller : (n fuel : ℕ) → n < suc fuel → 10 ≤ n → n / 10 < fuel
smaller n fuel h le = omega arith

read_last :
    (b : Bool) (n : ℕ) (rest : String)
    → ltb n 10 ≡ b
    → (b ≡ false → read_from 0 rest ≡ n / 10)
    → read_from 0 (if b then digit n else append rest (digit (n % 10))) ≡ n
read_last true n rest small h = read_from-digit 0 n (below_ten n small) ∙ omega arith
read_last false n rest small h =
    rw
      (
        read_from-append 0 rest (digit (n % 10)),
        h refl,
        read_from-digit (n / 10) (n % 10) (omega arith),
      )
      (omega arith)

read_from-decimal_from : (fuel n : ℕ) → n < fuel → read_from 0 (decimal_from fuel n) ≡ n
unfolding decimal_from
read_from-decimal_from zero n h = absurd (omega arith)
read_from-decimal_from (suc fuel) n h =
    read_last (ltb n 10) n (decimal_from fuel (n / 10)) refl
      λ e. read_from-decimal_from fuel (n / 10) (smaller n fuel h (ten_le n e))

pub read_from-decimal : (n : ℕ) → read_from 0 (decimal n) ≡ n
unfolding decimal
read_from-decimal n = read_from-decimal_from (suc n) n (omega arith)

-- ===== src/Prelude/Text.antt =====
-- The texts that the program builds: the parts of an f-string in a row, and `str` of a number.
use Prim.Native.String.{◌++◌ as append}
use Prim.Native.Nat.{ℕ, zero, suc, ◌/◌, ◌%◌}
use Prim.Native.String.{String}
use mathlib.Core.Path.{◌≡◌, refl}
use mathlib.Core.List.{List, [], ◌∷◌}
use gsrr_agent_harness.Prelude.Tests.{ltb, if◌then◌else◌}

unfoldable pub concat : List String → String
concat [] = ""
concat (s ∷ rest) = append s (concat rest)

abbrev pub digit : ℕ → String
digit zero = "0"
digit (suc zero) = "1"
digit (suc (suc zero)) = "2"
digit (suc (suc (suc zero))) = "3"
digit (suc (suc (suc (suc zero)))) = "4"
digit (suc (suc (suc (suc (suc zero))))) = "5"
digit (suc (suc (suc (suc (suc (suc zero)))))) = "6"
digit (suc (suc (suc (suc (suc (suc (suc zero))))))) = "7"
digit (suc (suc (suc (suc (suc (suc (suc (suc zero)))))))) = "8"
digit n = "9"

-- A number has no more digits than its successor counts, so the fuel of `decimal` is enough.
unfoldable pub decimal_from : ℕ → ℕ → String
decimal_from zero n = ""
decimal_from (suc fuel) n =
    let rest = decimal_from fuel (n / 10) in
    if ltb n 10 then digit n else append rest (digit (n % 10))

-- `str(n)`
unfoldable pub decimal : ℕ → String
unfolding decimal_from
decimal n = decimal_from (suc n) n

decimal_test : concat ("run-1" ∷ ":plan:" ∷ decimal 1207 ∷ []) ≡ "run-1:plan:1207"
unfolding concat decimal
decimal_test = refl

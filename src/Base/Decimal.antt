-- ===== src/Base/Decimal.antt =====
-- `str(n)` for a natural number: its decimal digits.
use Prim.Native.Nat.{ℕ, zero, suc, ◌+◌}
use mathlib.Core.Path.{◌≡◌, refl}
use mathlib.Core.List.{List, [], ◌∷◌, map, reverse}
use pqcensus.Base.Tests.{nat_beq, if◌then◌else◌}
use pqcensus.Base.Characters.{Text, text}

-- The digits of the next number, the units first.
next_digits : List ℕ → List ℕ
next_digits [] = 1 ∷ []
next_digits (d ∷ ds) =
    let carried = next_digits ds in if nat_beq d 9 then 0 ∷ carried else (d + 1) ∷ ds

digits : ℕ → List ℕ
unfolding next_digits
digits zero = 0 ∷ []
digits (suc n) = next_digits (digits n)

unfoldable pub decimal : ℕ → Text
unfolding digits
decimal n = map (λ d. d + b'0') (reverse (digits n))

decimal_test : decimal 1907 ≡ text "1907"
unfolding decimal
decimal_test = refl

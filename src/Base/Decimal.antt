-- ===== src/Base/Decimal.antt =====
-- The decimal digits of a number, as `%d` prints them.
use sandcode.Base.Tests.{ltb, if◌then◌else◌}
use Prim.Native.Nat.{ℕ, zero, suc, ◌+◌, ◌/◌, ◌%◌}
use mathlib.Core.Path.{◌≡◌, refl}
use mathlib.Core.List.{List, [], ◌∷◌}
use sandcode.Base.Lists.{codes}

-- A number below the fuel has fewer digits than the fuel.
digits : ℕ → ℕ → List ℕ → List ℕ
digits zero n acc = acc
digits (suc fuel) n acc =
    let acc' = (48 + n % 10) ∷ acc in
    let rest = digits fuel (n / 10) acc' in if ltb n 10 then acc' else rest

unfoldable pub itoa : ℕ → List ℕ
unfolding digits
itoa n = digits (suc n) n []

itoa_test : itoa 10203 ≡ codes "10203"
unfolding itoa
itoa_test = refl

-- ===== src/Prelude/Decimal.antt =====
-- The decimal digits of an unsigned number, as the source's `format!` writes them.
use Prim.Native.Nat.{ℕ, zero, suc, ◌+◌, ◌/◌, ◌%◌}
use mathlib.Core.List.{List, [], ◌∷◌, ◌++◌}
use nzbd.Prelude.Tests.{ltb, if◌then◌else◌}

-- On fuel, one unit for each digit.
unfoldable pub digits_on : ℕ → ℕ → List ℕ
digits_on zero n = []
digits_on (suc fuel) n =
    let rest = digits_on fuel (n / 10) in
    if ltb n 10 then (48 + n) ∷ [] else rest ++ (48 + n % 10) ∷ []

-- Numbers of the source have at most 64 bits, so at most 20 digits.
unfoldable pub decimal : ℕ → List ℕ
unfolding digits_on
decimal n = digits_on 20 n

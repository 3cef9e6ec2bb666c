-- ===== src/Common/Decimal.antt =====
-- `std::to_string` of an unsigned number, as the list of its bytes.
use Prim.Native.Nat.{ℕ, zero, suc, ◌+◌, ◌/◌, ◌%◌}
use mathlib.Core.List.{List, [], ◌∷◌}
use action_rpgserver.Common.Tests.{ltb, if◌then◌else◌}

-- The digits of `n` in front of `acc`; twenty rounds are enough for 64 bits.
unfoldable pub digits_onto : ℕ → ℕ → List ℕ → List ℕ
digits_onto zero n acc = acc
digits_onto (suc f) n acc =
    let rest = digits_onto f (n / 10) ((48 + n % 10) ∷ acc) in
    if ltb n 10 then (48 + n) ∷ acc else rest

unfoldable pub to_string : ℕ → List ℕ
unfolding digits_onto
to_string n = digits_onto 20 n []

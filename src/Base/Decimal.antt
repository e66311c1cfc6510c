-- ===== src/Base/Decimal.antt =====
-- `%d` of an int.
use Prim.Native.Nat.{ℕ, zero, suc, ◌+◌, ◌/◌, ◌%◌}
use mathlib.Core.Path.{◌≡◌, refl}
use mathlib.Core.List.{[], ◌∷◌}
use adele_queue.Base.Tests.{ltb, if◌then◌else◌}
use adele_queue.Base.Int.{ℤ, pos, negsuc}
use adele_queue.Base.Text.{Text, codes}

-- The digits of `n` before `rest`; the fuel `n` is enough.
digits : ℕ → ℕ → Text → Text
digits zero n rest = (b'0' + n % 10) ∷ rest
digits (suc fuel) n rest =
    let more = digits fuel (n / 10) ((b'0' + n % 10) ∷ rest) in
    if ltb n 10 then (b'0' + n) ∷ rest else more

unfoldable pub decimal : ℤ → Text
unfolding digits
decimal (pos n) = digits n n []
decimal (negsuc n) = b'-' ∷ digits (suc n) (suc n) []

decimal_300 : decimal (pos 300) ≡ codes "300"
unfolding decimal
decimal_300 = refl

decimal_minus_12 : decimal (negsuc 11) ≡ codes "-12"
unfolding decimal
decimal_minus_12 = refl

-- ===== src/Base/Decimal.antt =====
-- The decimal text of a number, as `str(n)` gives it.
use Prim.Native.String.{◌++◌ as cat}
use Prim.Native.Nat.{ℕ, zero, suc, ◌/◌, ◌%◌}
use Prim.Native.String.{String}
use mathlib.Core.Path.{◌≡◌, refl}
use ai_powered_security_inve.Base.Tests.{if◌then◌else◌, ltb}

unfoldable pub digit : ℕ → String
digit zero = "0"
digit (suc zero) = "1"
digit (suc (suc zero)) = "2"
digit (suc (suc (suc zero))) = "3"
digit (suc (suc (suc (suc zero)))) = "4"
digit (suc (suc (suc (suc (suc zero))))) = "5"
digit (suc (suc (suc (suc (suc (suc zero)))))) = "6"
digit (suc (suc (suc (suc (suc (suc (suc zero))))))) = "7"
digit (suc (suc (suc (suc (suc (suc (suc (suc zero)))))))) = "8"
digit (suc (suc (suc (suc (suc (suc (suc (suc (suc _))))))))) = "9"

-- the digits of `n` before `rest`; a number below its fuel is printed whole
decimal_from : ℕ → ℕ → String → String
decimal_from zero n rest = rest
decimal_from (suc fuel) n rest =
    let more = decimal_from fuel (n / 10) (cat (digit (n % 10)) rest) in
    if ltb n 10 then cat (digit n) rest else more

unfoldable pub decimal : ℕ → String
unfolding decimal_from digit
decimal n = decimal_from (suc n) n ""

decimal_test : decimal 1207 ≡ "1207"
unfolding decimal
decimal_test = refl

-- ===== src/Base/Decimal.antt =====
-- `std::to_string` of an integer.
use Prim.Native.Nat.{ℕ, zero, suc, ◌/◌, ◌%◌}
use Prim.Native.String.{String, ◌++◌ as append}
use spout_relay.Base.Tests.{ltb, ◌==◌, if◌then◌else◌}
use spout_relay.Base.Int.{ℤ, pos, negsuc}

digit : ℕ → String
digit n =
    if n == 0
    then "0"
    else if n == 1
    then "1"
    else if n == 2
    then "2"
    else if n == 3
    then "3"
    else if n == 4
    then "4"
    else if n == 5
    then "5"
    else if n == 6
    then "6"
    else if n == 7
    then "7"
    else if n == 8
    then "8"
    else "9"

-- The fuel is above the number of digits.
decimal : ℕ → ℕ → String
unfolding digit
decimal zero n = ""
decimal (suc fuel) n =
    let front = decimal fuel (n / 10) in if ltb n 10 then digit n else append front (digit (n % 10))

unfoldable pub to_string : ℤ → String
unfolding decimal
to_string (pos n) = decimal (suc n) n
to_string (negsuc n) = append "-" (decimal (suc (suc n)) (suc n))

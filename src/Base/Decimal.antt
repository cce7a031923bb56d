-- ===== src/Base/Decimal.antt =====
-- Python's `str(n)` of a natural number.
use Prim.Native.Nat.{ℕ, zero, suc, ◌/◌, ◌%◌}
use Prim.Native.String.{String, ◌++◌}
use dohwa_hermes_stack.Base.Tests.{ltb, ◌==◌, if◌then◌else◌}

abbrev pub digit_text : ℕ → String
digit_text d =
    if d == 0
    then "0"
    else if d == 1
    then "1"
    else if d == 2
    then "2"
    else if d == 3
    then "3"
    else if d == 4
    then "4"
    else if d == 5
    then "5"
    else if d == 6
    then "6"
    else if d == 7
    then "7"
    else if d == 8
    then "8"
    else "9"

-- A number has fewer digits than its successor, so that this fuel is enough.
unfoldable pub decimal_digits : ℕ → ℕ → String
decimal_digits zero n = ""
decimal_digits (suc fuel) n =
    let higher = decimal_digits fuel (n / 10) in
    if ltb n 10 then digit_text n else higher ++ digit_text (n % 10)

unfoldable pub decimal_text : ℕ → String
unfolding decimal_digits
decimal_text n = decimal_digits (suc n) n

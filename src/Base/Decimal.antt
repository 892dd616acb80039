-- ===== src/Base/Decimal.antt =====
-- `String(n)` for a natural number.
use Prim.Native.Nat.{◌/◌, ◌%◌}
use a5e.Base.{◌≡◌, refl, ℕ, zero, suc, String, ◌<>◌, ltb, nat_beq, if◌then◌else◌}

abbrev digit : ℕ → String
digit n =
    if nat_beq n 0
    then "0"
    else if nat_beq n 1
    then "1"
    else if nat_beq n 2
    then "2"
    else if nat_beq n 3
    then "3"
    else if nat_beq n 4
    then "4"
    else if nat_beq n 5
    then "5"
    else if nat_beq n 6
    then "6"
    else if nat_beq n 7
    then "7"
    else if nat_beq n 8
    then "8"
    else "9"

digits : ℕ → ℕ → String
digits zero n = ""
digits (suc fuel) n =
    let rest = digits fuel (n / 10) <> digit (n % 10) in if ltb n 10 then digit n else rest

-- A number has fewer digits than its value plus one.
unfoldable pub show_nat : ℕ → String
unfolding digits
show_nat n = digits (suc n) n

show_nat_test : show_nat 1204 <> show_nat 0 ≡ "12040"
unfolding show_nat
show_nat_test = refl

-- ===== src/Decimal.antt =====
-- `Number.prototype.toFixed`, as frontend/src/main.tsx calls it with 0 and 1, and the printing of a
-- number in a text.
pub mod Reading
use channel_wire.Prelude.{
  ℕ, zero, suc, ◌+◌, ◌*◌, ◌/◌, ◌%◌, String, Char, concat, nat_eq, ltb, if◌then◌else◌, ◌≡◌, refl,
}
use channel_wire.Types.{Percent}

-- The digit of a number below ten.
unfoldable pub digit : ℕ → Char
digit d =
    if nat_eq d 0
    then "0"
    else if nat_eq d 1
    then "1"
    else if nat_eq d 2
    then "2"
    else if nat_eq d 3
    then "3"
    else if nat_eq d 4
    then "4"
    else if nat_eq d 5
    then "5"
    else if nat_eq d 6
    then "6"
    else if nat_eq d 7
    then "7"
    else if nat_eq d 8
    then "8"
    else "9"

-- The digits of a number in front of a text; the fuel is more than the number of digits.
unfoldable pub digits : ℕ → ℕ → String → String
unfolding digit
digits zero n rest = rest
digits (suc fuel) n rest =
    let more = digits fuel (n / 10) (String.◌∷◌ (digit (n % 10)) rest) in
    if ltb n 10 then String.◌∷◌ (digit n) rest else more

-- `String(n)`
unfoldable pub print : ℕ → String
unfolding digits
print n = digits (suc n) n ""

-- The fraction in units of 1 / scale, to the nearest, and up from the middle.
unfoldable pub rounded : ℕ → Percent → ℕ
rounded scale p = (2 * scale * p.parts + p.per) / (2 * p.per)

-- `x.toFixed(0)`
unfoldable pub to_fixed_0 : Percent → String
unfolding print rounded
to_fixed_0 p = print (rounded 1 p)

-- `x.toFixed(1)`
unfoldable pub to_fixed_1 : Percent → String
unfolding print rounded
to_fixed_1 p =
    concat (print (rounded 10 p / 10)) (String.◌∷◌ "." (String.◌∷◌ (digit (rounded 10 p % 10)) ""))

to_fixed_1_test : to_fixed_1 (record { parts = 1000; per = 3 }) ≡ "333.3"
unfolding to_fixed_1
to_fixed_1_test = refl

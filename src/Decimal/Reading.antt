-- ===== src/Decimal/Reading.antt =====
-- Reading back the numbers that frontend/src/main.tsx prints.
use channel_wire.Prelude.{
  accepts_up_to, accepted_number, true, Bool-cases, inl, inr, ap, ◌∙◌, ◌∙◌, inl, Bool-cases, ℕ,
  zero, suc, ◌+◌, ◌-◌, ◌*◌, ◌/◌, ◌%◌, ◌≤◌, ◌<◌, String, code, concat, nat_eq, ltb, leb, ◌&&◌,
  if◌then◌else◌, ◌≡◌, refl, arith,
}
use text.Mathlib.TextLemmas.{nil-append, cons-append}
use channel_wire.Types.{Percent}
use channel_wire.Decimal.{digit, digits, print, rounded, to_fixed_0, to_fixed_1}

-- The number that the digits of a text stand for, after those of `n`; all else is skipped.
unfoldable pub read : ℕ → String → ℕ
read n String.[] = n
read n (String.◌∷◌ c s) =
    read (if leb b'0' (code c) && leb (code c) b'9' then n * 10 + (code c - b'0') else n) s

digit_table : accepts_up_to (λ d. nat_eq (code (digit d)) (b'0' + d)) 10 ≡ true
unfolding accepts_up_to digit
digit_table = refl

digit-code : (d : ℕ) → d < 10 → code (digit d) ≡ b'0' + d
digit-code d h =
    ground
      (arith, accepted_number (λ (d : ℕ). nat_eq (code (digit d)) (b'0' + d)) 10 d h digit_table)

read-digit : (d n : ℕ) (s : String) → d < 10 → read n (String.◌∷◌ (digit d) s) ≡ read (n * 10 + d) s
unfolding read
read-digit d n s h = rw (digit-code d h) (ground arith)

-- Printed digits in front of a text are read as the number, from zero on.
read-digits : (fuel n : ℕ) (rest : String) → n < fuel → read 0 (digits fuel n rest) ≡ read n rest
unfolding digits
read-digits zero n rest h = absurd (omega arith)
read-digits (suc fuel) n rest h = elim (Bool-cases (ltb n 10)) [
  | inl small ↦ rw small (read-digit n 0 rest (ground arith) ∙ ap (λ m. read m rest) (omega arith))
  | inr large ↦ rw large (
      read-digits fuel (n / 10) (String.◌∷◌ (digit (n % 10)) rest) (ground arith)
      ∙ read-digit (n % 10) (n / 10) rest (omega arith)
      ∙ ap (λ m. read m rest) (omega arith))
]

-- A printed number is read back.
pub read-print : (n : ℕ) → read 0 (print n) ≡ n
unfolding print read
read-print n = read-digits (suc n) n "" (omega arith)

div_bounds : (n d : ℕ) → 0 < d → (d * (n / d) ≤ n) × (n < d * (n / d) + d)
div_bounds n d pos = grind arith

-- The rounded value is off by half a unit at most.
pub rounded_bounds :
    (scale : ℕ) (p : Percent)
    → 0 < p.per
    → (2 * (rounded scale p * p.per) ≤ 2 * (scale * p.parts) + p.per)
      × (2 * (scale * p.parts) ≤ 2 * (rounded scale p * p.per) + p.per)
unfolding rounded
rounded_bounds scale p pos =
    omega (arith, div_bounds (2 * scale * p.parts + p.per) (2 * p.per) (omega arith))

read-concat : (s t : String) (n : ℕ) → read n (concat s t) ≡ read (read n s) t
unfolding read
read-concat String.[] t n = rw nil-append
read-concat (String.◌∷◌ c s) t n = rw cons-append (read-concat s t _)

read-to_fixed_0 : (p : Percent) → read 0 (to_fixed_0 p) ≡ rounded 1 p
unfolding to_fixed_0
read-to_fixed_0 p = read-print (rounded 1 p)

read-point : (n d : ℕ) → d < 10 → read n (String.◌∷◌ "." (String.◌∷◌ (digit d) "")) ≡ n * 10 + d
unfolding read
read-point n d h = read-digit d n "" h

read-to_fixed_1 : (p : Percent) → read 0 (to_fixed_1 p) ≡ rounded 10 p
unfolding to_fixed_1
read-to_fixed_1 p =
    read-concat (print (rounded 10 p / 10)) _ 0
    ∙ rw (read-print (rounded 10 p / 10))
        (read-point (rounded 10 p / 10) (rounded 10 p % 10) (omega arith) ∙ omega arith)

-- What `toFixed(0)` and `toFixed(1)` print of a fraction that has a denominator above 0 is read, its
-- point skipped, as a number of units or of tenths that is off by half of one at most.
pub to_fixed_bounds :
    (p : Percent)
    → 0 < p.per
    → let units = read 0 (to_fixed_0 p) in
      let tenths = read 0 (to_fixed_1 p) in
      (2 * (units * p.per) ≤ 2 * p.parts + p.per)
      × (2 * p.parts ≤ 2 * (units * p.per) + p.per)
      × (2 * (tenths * p.per) ≤ 20 * p.parts + p.per)
      × (20 * p.parts ≤ 2 * (tenths * p.per) + p.per)
to_fixed_bounds p pos =
    rw (read-to_fixed_0 p, read-to_fixed_1 p)
      (omega (arith, rounded_bounds 1 p pos, rounded_bounds 10 p pos))

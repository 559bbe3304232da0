-- ===== src/Prelude/Lists.antt =====
-- Lists measured by native numbers, under the library's names, and `Array.prototype.slice(-n)`.
use native.Mathlib.Decide.{dec_le}
use Prim.Native.Nat.{ℕ, zero, suc, ◌+◌, ◌-◌, ◌≤◌, min}
use mathlib.Core.Path.{◌≡◌, refl, ap, sym, ◌∙◌}
use mathlib.Core.List.{reverse-reverse, reverse-cons, reverse, List, [], ◌∷◌, ◌++◌, map}
use native.Mathlib.Omega.{arith}

module _ {ℓ} {A : Type ℓ} where
  abbrev pub length : List A → ℕ
  length [] = 0
  length (x ∷ xs) = suc (length xs)

  unfoldable pub drop : ℕ → List A → List A
  drop zero xs = xs
  drop (suc n) [] = []
  drop (suc n) (x ∷ xs) = drop n xs

  abbrev pub take : ℕ → List A → List A
  take zero xs = []
  take (suc n) [] = []
  take (suc n) (x ∷ xs) = x ∷ take n xs

  pub length-append : (xs ys : List A) → length (xs ++ ys) ≡ length xs + length ys
  length-append [] ys = omega arith
  length-append (x ∷ xs) ys = omega (arith, length-append xs ys)

  pub length-drop : (n : ℕ) (xs : List A) → length (drop n xs) ≡ length xs - n
  unfolding drop
  length-drop zero xs = omega arith
  length-drop (suc n) [] = omega arith
  length-drop (suc n) (x ∷ xs) = omega (arith, length-drop n xs)

  pub drop-zero : (xs : List A) → drop 0 xs ≡ xs
  unfolding drop
  drop-zero xs = refl

module _ {ℓ} {A : Type ℓ} where
  -- `xs.slice(-n)` for `0 < n`: the last `n` elements, or all of them.
  unfoldable pub slice_last : ℕ → List A → List A
  unfolding drop
  slice_last n xs = drop (length xs - n) xs

  pub length-slice_last : (n : ℕ) (xs : List A) → length (slice_last n xs) ≡ min n (length xs)
  unfolding slice_last
  length-slice_last n xs = omega (arith, length-drop (length xs - n) xs)

module _ {ℓ} {A : Type ℓ} where
  drop-nil : (n : ℕ) → drop {A = A} n [] ≡ []
  unfolding drop
  drop-nil zero = refl
  drop-nil (suc n) = refl

  pub slice_last-nil : (n : ℕ) → slice_last {A = A} n [] ≡ []
  unfolding slice_last
  slice_last-nil n = drop-nil _

  pub drop-drop : (m n : ℕ) (xs : List A) → drop m (drop n xs) ≡ drop (n + m) xs
  unfolding drop
  drop-drop m zero xs = ap (λ k. drop k xs) (omega arith)
  drop-drop m (suc n) [] = drop-nil m ∙ sym (drop-nil (suc n + m))
  drop-drop m (suc n) (x ∷ xs) =
      let e : suc (n + m) ≡ suc n + m = omega arith in
      drop-drop m n xs ∙ ap (λ k. drop k (x ∷ xs)) e

  drop-append : (n : ℕ) (xs ys : List A) → n ≤ length xs → drop n (xs ++ ys) ≡ drop n xs ++ ys
  unfolding drop
  drop-append zero xs ys h = refl
  drop-append (suc n) [] ys h = absurd (omega arith)
  drop-append (suc n) (x ∷ xs) ys h = drop-append n xs ys (omega arith)

  -- The last elements, and one more, are those of the list with that one at its end.
  pub slice_last-append :
      (n : ℕ) (xs : List A) (y : A)
      → slice_last n (slice_last (suc n) xs) ++ y ∷ [] ≡ slice_last (suc n) (xs ++ y ∷ [])
  unfolding slice_last
  slice_last-append n xs y =
      let kept : length xs - suc n + (length xs - (length xs - suc n) - n) ≡ length xs - n =
        omega arith in
      let gone : length xs + 1 - suc n ≡ length xs - n = omega arith in
      rw (length-drop (length xs - suc n) xs, drop-drop, kept, length-append xs (y ∷ []), gone)
        (sym (drop-append (length xs - n) xs (y ∷ []) (omega arith)))

module _ {ℓ} {A : Type ℓ} where
  -- One more element at the end, and one more that is asked for.
  pub slice_last-suc-append :
      (n : ℕ) (xs : List A) (y : A) → slice_last (suc n) (xs ++ y ∷ []) ≡ slice_last n xs ++ y ∷ []
  unfolding slice_last
  slice_last-suc-append n xs y =
      let gone : length xs + 1 - suc n ≡ length xs - n = omega arith in
      rw (length-append xs (y ∷ []), gone) (drop-append (length xs - n) xs (y ∷ []) (omega arith))

module _ {ℓ} {A : Type ℓ} where
  pub drop-append_length : (xs ys : List A) → drop (length xs) (xs ++ ys) ≡ ys
  unfolding drop
  drop-append_length [] ys = refl
  drop-append_length (x ∷ xs) ys = drop-append_length xs ys

  pub take-append_length : (xs ys : List A) → take (length xs) (xs ++ ys) ≡ xs
  take-append_length [] ys = refl
  take-append_length (x ∷ xs) ys = ap (λ l. x ∷ l) (take-append_length xs ys)

  pub length-take-le : (n : ℕ) (xs : List A) → length (take n xs) ≤ n
  length-take-le zero xs = omega arith
  length-take-le (suc n) [] = omega arith
  length-take-le (suc n) (x ∷ xs) = omega (arith, length-take-le n xs)

  pub length-take : (n : ℕ) (xs : List A) → n ≤ length xs → length (take n xs) ≡ n
  length-take zero xs h = refl
  length-take (suc n) [] h = absurd (omega arith)
  length-take (suc n) (x ∷ xs) h = omega (arith, length-take n xs)

module _ {ℓ κ} {A : Type ℓ} {B : Type κ} where
  pub length-map : (f : A → B) (xs : List A) → length (map f xs) ≡ length xs
  length-map f [] = refl
  length-map f (x ∷ xs) = ap suc (length-map f xs)

module _ {ℓ} {A : Type ℓ} where
  length-reverse : (xs : List A) → length (reverse xs) ≡ length xs
  length-reverse [] = refl
  length-reverse (x ∷ xs) =
      ap length (reverse-cons x xs)
      ∙ omega (arith, length-append (reverse xs) (x ∷ []), length-reverse xs)

  take-append : (n : ℕ) (xs ys : List A) → n ≤ length xs → take n (xs ++ ys) ≡ take n xs
  take-append zero xs ys h = refl
  take-append (suc n) [] ys h = absurd (omega arith)
  take-append (suc n) (x ∷ xs) ys h = ap (λ l. x ∷ l) (take-append n xs ys (omega arith))

  pub take-all : (n : ℕ) (xs : List A) → length xs ≤ n → take n xs ≡ xs
  take-all zero [] h = refl
  take-all zero (x ∷ xs) h = absurd (omega arith)
  take-all (suc n) [] h = refl
  take-all (suc n) (x ∷ xs) h = ap (λ l. x ∷ l) (take-all n xs (omega arith))

  take-reverse : (n : ℕ) (xs : List A) → take n (reverse xs) ≡ reverse (slice_last n xs)
  unfolding slice_last drop
  take-reverse zero [] = refl
  take-reverse (suc n) [] = ap reverse (sym (slice_last-nil (suc n)))
  take-reverse n (x ∷ xs) = elim (dec_le n (length xs)) [
    | yes few ↦
        let gone : suc (length xs) - n ≡ suc (length xs - n) = omega arith in
        let room = length-reverse xs in
        ap (take n) (reverse-cons x xs)
        ∙ take-append n (reverse xs) (x ∷ []) (omega arith)
        ∙ take-reverse n xs
        ∙ ap (λ k. reverse (drop k (x ∷ xs))) (sym gone)
    | no many ↦
        let all = length-reverse (x ∷ xs) in
        let none_gone : suc (length xs) - n ≡ 0 = omega arith in
        take-all n (reverse (x ∷ xs)) (omega arith)
        ∙ ap (λ k. reverse (drop k (x ∷ xs))) (sym none_gone)
  ]

  -- The first elements of the reverse, in the order of the list, are its last.
  pub reverse-take-reverse : (n : ℕ) (xs : List A) → reverse (take n (reverse xs)) ≡ slice_last n xs
  reverse-take-reverse n xs = ap reverse (take-reverse n xs) ∙ reverse-reverse (slice_last n xs)

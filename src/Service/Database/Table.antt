-- ===== src/Service/Database/Table.antt =====
-- Tables with a unique key: rows that are the same have one key.
use mathlib.Core.Option.{some-injective}
use channel_wire.Prelude.{
  sym, ap, true, inr, inl, Bool-cases, refl, none, arith, if◌then◌else◌, ◌∙◌, [], ◌||◌, subst, some,
  ◌++◌, false, ◌∷◌, Option, ◌≡◌, List, Bool,
}

module _ {A : Type 0} (same : A → A → Bool) where
  unfoldable pub has : List A → A → Bool
  has [] x = false
  has (y ∷ ys) x = same y x || has ys x

  -- Rows are added in turn; `none` where one has the key of another.
  unfoldable pub insert_all : List A → List A → Option (List A)
  unfolding has
  insert_all rows [] = some rows
  insert_all rows (x ∷ xs) =
      let more = insert_all (rows ++ (x ∷ [])) xs in if has rows x then none else more

  -- No row has the key of an earlier one.
  abbrev pub AreDistinct : List A → Type 0
  AreDistinct [] = Unit
  AreDistinct (x ∷ xs) = (has xs x ≡ false) × AreDistinct xs

  -- A row that is added unless its key is there.
  abbrev pub missing : List A → A → List A
  missing rows x = if has rows x then [] else x ∷ []

  -- A table after it was made to have a row: the keys that it had, and that one.
  abbrev pub Extends : List A → A → List A → Type 0
  Extends rows x out =
      (AreDistinct rows → AreDistinct out)
      × (has out x ≡ true)
      × ((y : A) → has rows y ≡ true → has out y ≡ true)
      × ((y : A) → same x y ≡ false → has out y ≡ has rows y)

  has-append : (xs : List A) (y x : A) → has (xs ++ (y ∷ [])) x ≡ (has xs x || same y x)
  unfolding has
  has-append [] y x = ground arith
  has-append (z ∷ zs) y x = ground (arith, has-append zs y x)

  module _ (symmetric : (x y : A) → same x y ≡ same y x) where
    AreDistinct-append :
        (xs : List A) (x : A) → AreDistinct xs → has xs x ≡ false → AreDistinct (xs ++ (x ∷ []))
    unfolding has
    AreDistinct-append [] x h new = (refl, tt)
    AreDistinct-append (y ∷ ys) x (first, rest) new =
        let apart : same x y ≡ false = symmetric x y ∙ ground arith in
        let new_in_rest : has ys x ≡ false = ground arith in
        (rw (has-append ys x y, first) apart, AreDistinct-append ys x rest new_in_rest)

    pub insert_all-AreDistinct :
        (xs rows out : List A) → insert_all rows xs ≡ some out → AreDistinct rows → AreDistinct out
    unfolding insert_all
    insert_all-AreDistinct [] rows out h distinct =
        subst AreDistinct (some-injective rows out h) distinct
    insert_all-AreDistinct (x ∷ xs) rows out h distinct = elim (Bool-cases (has rows x)) [
      | inl old ↦ cc (rw old at h)
      | inr new ↦
          insert_all-AreDistinct xs (rows ++ (x ∷ [])) out (rw new at h)
            (AreDistinct-append rows x distinct new)
    ]

    module _ (reflexive : (x : A) → same x x ≡ true) where
      pub insert_all-missing :
          (rows : List A) (x : A)
          → (out : List A) × (insert_all rows (missing rows x) ≡ some out) × Extends rows x out
      unfolding insert_all
      insert_all-missing rows x = elim (Bool-cases (has rows x)) [
        | inl old ↦ rw old (rows, refl, ((λ d. d), old, (λ y h. h), λ y h. refl))
        | inr new ↦
            rw (new, new)
              (
                rows ++ (x ∷ []),
                refl,
                (
                  (λ d. AreDistinct-append rows x d new),
                  has-append rows x x ∙ ground (arith, reflexive x),
                  (λ y h. has-append rows x y ∙ ground arith),
                  λ y h. has-append rows x y ∙ ground arith,
                ),
              )
      ]

      insert_all-append :
          (rows xs ys out : List A)
          → insert_all rows xs ≡ some out
          → insert_all rows (xs ++ ys) ≡ insert_all out ys
      unfolding insert_all
      insert_all-append rows [] ys out h = ap (λ r. insert_all r ys) (some-injective rows out h)
      insert_all-append rows (x ∷ xs) ys out h = elim (Bool-cases (has rows x)) [
        | inl old ↦ cc (rw old at h)
        | inr new ↦ rw new (insert_all-append (rows ++ (x ∷ [])) xs ys out (rw new at h))
      ]

      -- Two rows of different keys, each added unless its key is there.
      pub insert_all-missing-missing :
          (rows : List A) (x y : A)
          → same x y ≡ false
          → (out : List A) × (insert_all rows (missing rows x ++ missing rows y) ≡ some out)
            × (AreDistinct rows → AreDistinct out)
            × (has out x ≡ true)
            × (has out y ≡ true)
            × ((z : A) → has rows z ≡ true → has out z ≡ true)
      insert_all-missing-missing rows x y apart =
          let first = insert_all-missing rows x in
          let second = insert_all-missing first.0 y in
          (
            second.0,
            insert_all-append rows (missing rows x) (missing rows y) first.0 first.1
                ∙ ap (λ b. insert_all first.0 (if b then [] else y ∷ [])) (sym (first.2.3 y apart))
                ∙ second.1,
            (λ d. second.2.0 (first.2.0 d)),
            second.2.2 x first.2.1,
            second.2.1,
            λ z h. second.2.2 z (first.2.2 z h),
          )

-- ===== src/Prelude/Maps.antt =====
-- Families `ℕ → A`, with one entry replaced.
use Prim.Native.Nat.{ℕ}
use mathlib.Core.Path.{sym, subst, ◌≡◌}
use mathlib.Core.Logic.{◌≢◌, ite}
use native.Mathlib.Decide.{ℕ_discrete}
use native.Mathlib.Omega.{arith}

module _ {ℓ} {A : Type ℓ} where
  abbrev pub update : (ℕ → A) → ℕ → A → ℕ → A
  update f i a j = ite (ℕ_discrete i j) a (f j)

  pub update_self : (f : ℕ → A) (i : ℕ) (a : A) → update f i a i ≡ a
  update_self f i a = ground arith

  pub update_ne : (f : ℕ → A) (i j : ℕ) (a : A) → i ≢ j → update f i a j ≡ f j
  update_ne f i j a h = ground arith

-- What holds of every entry, with its index, holds after one is replaced by an entry that has it.
pub update-All {ℓ ℓ'} :
    {A : Type ℓ} (Q : ℕ → A → Type ℓ') (f : ℕ → A) (i : ℕ) (a : A)
    → ((j : ℕ) → Q j (f j))
    → Q i a
    → (j : ℕ) → Q j (update f i a j)
update-All Q f i a h q j = elim (ℕ_discrete i j) [
  | yes e ↦ subst (λ k. Q k (update f i a k)) e (subst (Q i) (sym (update_self f i a)) q)
  | no n ↦ subst (Q j) (sym (update_ne f i j a n)) (h j)
]

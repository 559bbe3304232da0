-- ===== src/Session/Padding.antt =====
-- The payload handed to `atob` in `readStoredSession` (frontend/src/main.tsx) is padded to whole
-- groups of four.
use text.Mathlib.TextLemmas.{nil-append, cons-append}
use channel_wire.Prelude.{
  ℕ, zero, suc, ◌+◌, ◌*◌, ◌/◌, ◌-◌, ◌<◌, ◌%◌, String, ◌≡◌, refl, arith, concat,
}
use channel_wire.Session.{units, equals_signs, pad_end, padded}

units-concat : (s t : String) → units (concat s t) ≡ units s + units t
unfolding units
units-concat String.[] t = rw nil-append (omega arith)
units-concat (String.◌∷◌ c s) t = rw cons-append (omega (arith, units-concat s t))

units-equals_signs : (n : ℕ) → units (equals_signs n) ≡ n
unfolding units equals_signs
units-equals_signs zero = refl
units-equals_signs (suc n) = omega (arith, units-equals_signs n)

pub units-padded : (s : String) → units (padded s) ≡ (units s + 3) / 4 * 4
unfolding padded pad_end
units-padded s = rw (units-concat, units-equals_signs) (omega arith)

-- The padded payload fills whole groups of four units, and at most three signs are added.
pub padded-groups : (s : String) → (units (padded s) % 4 ≡ 0) × (units (padded s) - units s < 4)
padded-groups s = omega (arith, units-padded s)

-- ===== src/Text/Trimmed.antt =====
-- Joined words have nothing to trim (the string methods that frontend/src/main.tsx calls).
use text.Mathlib.TextLemmas.{nil-append, cons-append}
use mathlib.Core.Bool.{false≢true}
use channel_wire.Prelude.{
  Char, String, true, false, not, List, [], ◌∷◌, ◌≡◌, refl, concat, Bool-cases, inl, inr,
}
use channel_wire.Text.{
  cons_unless_blank, is_space, trim, trim_start, trim_end, join_spaces, starts_blank, is_empty,
  all_chars, starts_with_slash, slice_one,
}
use channel_wire.Text.Words.{AreWords, join_spaces-starts}

is_empty-concat : (s t : String) → is_empty t ≡ false → is_empty (concat s t) ≡ false
is_empty-concat String.[] t h = rw nil-append h
is_empty-concat (String.◌∷◌ c s) t h = rw cons-append refl

kept_head : (c : Char) (s : String) → is_empty s ≡ false → cons_unless_blank c s ≡ String.◌∷◌ c s
kept_head c String.[] h = cc
kept_head c (String.◌∷◌ d s) h = refl

kept_visible : (c : Char) (s : String) → is_space c ≡ false → cons_unless_blank c s ≡ String.◌∷◌ c s
kept_visible c String.[] h = rw h refl
kept_visible c (String.◌∷◌ d s) h = refl

trim_end-concat :
    (s t : String) → is_empty t ≡ false → trim_end t ≡ t → trim_end (concat s t) ≡ concat s t
unfolding trim_end
trim_end-concat String.[] t h e = rw nil-append e
trim_end-concat (String.◌∷◌ c s) t h e =
    rw (cons-append, trim_end-concat s t h e) (kept_head c (concat s t) (is_empty-concat s t h))

trim_end-word : (w : String) → all_chars (λ c. not (is_space c)) w ≡ true → trim_end w ≡ w
unfolding trim_end all_chars
trim_end-word String.[] h = refl
trim_end-word (String.◌∷◌ c w) h = elim (Bool-cases (is_space c)) [
  | inl blank ↦ absurd (false≢true (rw blank at h))
  | inr seen ↦ rw (trim_end-word w (rw seen at h)) (kept_visible c w seen)
]

trim_start-starts : (s : String) → starts_blank s ≡ false → trim_start s ≡ s
unfolding trim_start
trim_start-starts String.[] h = refl
trim_start-starts (String.◌∷◌ c s) h = rw h refl

pub is_empty-join_spaces :
    (w : String) (ws : List String) → AreWords (w ∷ ws) → is_empty (join_spaces (w ∷ ws)) ≡ false
unfolding join_spaces
is_empty-join_spaces w [] (word, _) = word.0
is_empty-join_spaces w (v ∷ ws) (word, words) =
    is_empty-concat w _ (is_empty-concat " " _ (is_empty-join_spaces v ws words))

trim_end-join_spaces :
    (w : String) (ws : List String)
    → AreWords (w ∷ ws)
    → trim_end (join_spaces (w ∷ ws)) ≡ join_spaces (w ∷ ws)
unfolding join_spaces
trim_end-join_spaces w [] (word, _) = trim_end-word w word.1
trim_end-join_spaces w (v ∷ ws) (word, words) =
    trim_end-concat w _ (is_empty-concat " " _ (is_empty-join_spaces v ws words))
      (trim_end-concat " " _ (is_empty-join_spaces v ws words) (trim_end-join_spaces v ws words))

-- Joined words have nothing to trim.
pub trim-join_spaces :
    (w : String) (ws : List String)
    → AreWords (w ∷ ws)
    → trim (join_spaces (w ∷ ws)) ≡ join_spaces (w ∷ ws)
unfolding trim
trim-join_spaces w ws all =
    rw (trim_end-join_spaces w ws all)
      (trim_start-starts (join_spaces (w ∷ ws)) (join_spaces-starts w ws all.0))

-- Without the slash before them, joined words begin with what follows the slash.
pub slice_one-join_spaces :
    (v : String) (ws : List String)
    → (starts_with_slash (join_spaces (concat "/" v ∷ ws)) ≡ true)
      × (slice_one (join_spaces (concat "/" v ∷ ws)) ≡ join_spaces (v ∷ ws))
unfolding join_spaces
slice_one-join_spaces v [] = rw (cons-append, nil-append) (refl, refl)
slice_one-join_spaces v (x ∷ ws) = rw (cons-append, nil-append, cons-append) (refl, refl)

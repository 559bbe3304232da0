-- ===== src/Text/Words.antt =====
-- Laws of the text functions that frontend/src/main.tsx uses: trimming, and splitting at spaces.
use text.Mathlib.TextLemmas.{nil-append, cons-append, cons-eq-cons, nil≢cons, append-nil}
use mathlib.Core.Bool.{false≢true}
use channel_wire.Prelude.{
  ◌∙◌, subst, sym, Char, String, true, false, not, List, [], ◌∷◌, ◌≡◌, refl, ap, concat, Bool-cases,
  inl, inr,
}
use channel_wire.Text.{
  is_space, trim, trim_start, trim_end, cons_unless_blank, split_spaces, join_spaces, starts_blank,
  is_empty, all_chars,
}

cons_unless_blank_idem :
    (c : Char) (s : String)
    → trim_end s ≡ s
    → trim_end (cons_unless_blank c s) ≡ cons_unless_blank c s
unfolding trim_end
cons_unless_blank_idem c String.[] h = elim (Bool-cases (is_space c)) [
  | inl blank ↦ rw blank
  | inr seen ↦ rw (seen, seen)
]
cons_unless_blank_idem c (String.◌∷◌ d s) h = rw h

trim_end_idem : (s : String) → trim_end (trim_end s) ≡ trim_end s
unfolding trim_end
trim_end_idem String.[] = refl
trim_end_idem (String.◌∷◌ c s) = cons_unless_blank_idem c (trim_end s) (trim_end_idem s)

trim_end-tail : (c : Char) (s t : String) → cons_unless_blank c t ≡ String.◌∷◌ c s → t ≡ s
trim_end-tail c s String.[] h = elim (Bool-cases (is_space c)) [
  | inl blank ↦ absurd (nil≢cons (rw blank at h))
  | inr seen ↦ (cons-eq-cons.0 (rw seen at h)).1
]
trim_end-tail c s (String.◌∷◌ d t) h = (cons-eq-cons.0 h).1

trim_end-trim_start : (s : String) → trim_end s ≡ s → trim_end (trim_start s) ≡ trim_start s
unfolding trim_start trim_end
trim_end-trim_start String.[] h = refl
trim_end-trim_start (String.◌∷◌ c s) h = elim (Bool-cases (is_space c)) [
  | inl blank ↦ rw blank (trim_end-trim_start s (trim_end-tail c s (trim_end s) h))
  | inr seen ↦ rw seen h
]

trim_start_idem : (s : String) → trim_start (trim_start s) ≡ trim_start s
unfolding trim_start
trim_start_idem String.[] = refl
trim_start_idem (String.◌∷◌ c s) = elim (Bool-cases (is_space c)) [
  | inl blank ↦ rw blank (trim_start_idem s)
  | inr seen ↦ rw (seen, seen)
]

-- What is trimmed has nothing left to trim, at either end, and does not begin with a space.
pub trim_idem :
    (s : String)
    → (trim (trim s) ≡ trim s) × (trim_end (trim s) ≡ trim s) × (trim_start (trim s) ≡ trim s)
unfolding trim
trim_idem s =
    let ends = trim_end-trim_start (trim_end s) (trim_end_idem s) in
    (rw ends (trim_start_idem (trim_end s)), ends, trim_start_idem (trim_end s))

-- A word: some characters, none of them a space.
abbrev pub IsWord : String → Type 0
IsWord w = (is_empty w ≡ false) × (all_chars (λ c. not (is_space c)) w ≡ true)

abbrev pub AreWords : List String → Type 0
AreWords [] = Unit
AreWords (w ∷ ws) = IsWord w × AreWords ws

split_spaces-word :
    (w : String) → all_chars (λ c. not (is_space c)) w ≡ true → split_spaces w ≡ w ∷ []
unfolding split_spaces all_chars
split_spaces-word String.[] h = refl
split_spaces-word (String.◌∷◌ c w) h = elim (Bool-cases (is_space c)) [
  | inl blank ↦ absurd (false≢true (rw blank at h))
  | inr seen ↦ rw (seen, split_spaces-word w (rw seen at h))
]

split_spaces-more :
    (w rest : String)
    → all_chars (λ c. not (is_space c)) w ≡ true
    → starts_blank rest ≡ false
    → split_spaces (concat w (concat " " rest)) ≡ w ∷ split_spaces rest
unfolding split_spaces all_chars
split_spaces-more String.[] rest h first = rw (nil-append, cons-append, nil-append, first)
split_spaces-more (String.◌∷◌ c w) rest h first = elim (Bool-cases (is_space c)) [
  | inl blank ↦ absurd (false≢true (rw blank at h))
  | inr seen ↦ rw (cons-append, seen, split_spaces-more w rest (rw seen at h) first)
]

word-starts : (w : String) (rest : String) → IsWord w → starts_blank (concat w rest) ≡ false
unfolding all_chars
word-starts String.[] rest (given, h) = absurd (false≢true (sym given))
word-starts (String.◌∷◌ c w) rest (given, h) = elim (Bool-cases (is_space c)) [
  | inl blank ↦ absurd (false≢true (rw blank at h))
  | inr seen ↦ rw cons-append seen
]

pub join_spaces-starts :
    (w : String) (ws : List String) → IsWord w → starts_blank (join_spaces (w ∷ ws)) ≡ false
unfolding join_spaces
join_spaces-starts w [] word =
    subst (λ t. starts_blank t ≡ false) (append-nil w) (word-starts w "" word)
join_spaces-starts w (v ∷ ws) word = word-starts w _ word

-- Words joined by single spaces are what splitting at spaces gives back.
pub split_spaces-join_spaces :
    (w : String) (ws : List String)
    → AreWords (w ∷ ws)
    → split_spaces (join_spaces (w ∷ ws)) ≡ w ∷ ws
unfolding join_spaces
split_spaces-join_spaces w [] (word, _) = split_spaces-word w word.1
split_spaces-join_spaces w (v ∷ ws) (word, words) =
    split_spaces-more w (join_spaces (v ∷ ws)) word.1 (join_spaces-starts v ws words.0)
    ∙ ap (λ l. w ∷ l) (split_spaces-join_spaces v ws words)

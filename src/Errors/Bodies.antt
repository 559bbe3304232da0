-- ===== src/Errors/Bodies.antt =====
-- What the user reads for a response that is not ok: `responseError` of frontend/src/main.tsx.
use mathlib.Core.Bool.{false≢true}
use channel_wire.Prelude.{
  sym, ◌∙◌, if◌then◌else◌, ◌==◌, ◌&&◌, String, Bool, true, false, none, some, ◌≡◌, refl, Bool-cases,
  inl, inr,
}
use channel_wire.Text.{is_empty, trim}
use channel_wire.Json.{
  Json, str, arr, obj, Items, nil, cons, Members, end, member, value, get, get_optional,
  find_member,
}
use channel_wire.Errors.{
  Body, fallback, username_rule, response_error, detail_error, issue_text, at_last, last_item,
  first_issue, is_text,
}

-- A body that is no JSON is shown as its text, trimmed, and never as an empty line.
pub response_error-text :
    (text : String)
    → let body : Body = record { json = none; text = text } in
      (shown : String) × (response_error body ≡ some shown)
      × (is_empty shown ≡ false)
      × (is_empty (trim text) ≡ false → shown ≡ trim text)
unfolding response_error
response_error-text text = elim (Bool-cases (is_empty (trim text))) [
  | inl empty ↦ (fallback, rw empty, refl, λ e. absurd (false≢true (sym e ∙ empty)))
  | inr given ↦ (trim text, rw given, given, λ e. refl)
]

some-if : (b : Bool) (s t : String) → (if b then some s else some t) ≡ some (if b then s else t)
some-if true s t = refl
some-if false s t = refl

-- A list with one more item at its end.
abbrev pub concat : Items → Json → Items
concat nil v = cons v nil
concat (cons u us) v = cons u (concat us v)

last_item-concat : (us : Items) (v : Json) → last_item (concat us v) ≡ value v
unfolding last_item
last_item-concat nil v = refl
last_item-concat (cons u nil) v = refl
last_item-concat (cons u (cons t us)) v = last_item-concat (cons t us) v

-- The body of a validation error: its first issue has a type, a location and other members.
abbrev pub validation : String → Items → Members → Items → Json
validation type loc others more = obj (
    member "detail"
      (arr (cons (obj (member "type" (str type) (member "loc" (arr loc) others))) more)) end)

-- The answer to a validation error depends on the type of its first issue and on the last item of
-- the issue's location: a short password, a username, or another field.
pub response_error-validation :
    (type field text : String) (before : Items) (others : Members) (more : Items)
    → response_error (record {
      json = some (validation type (concat before (str field)) others more);
      text = text;
    })
      ≡ some (
          if (field == "password" && type == "string_too_short")
          then "Password must be at least 8 characters."
          else if field == "username"
          then username_rule
          else fallback)
unfolding response_error detail_error get_optional get find_member issue_text at_last is_text
    first_issue
response_error-validation type field text before others more =
    rw (last_item-concat before (str field)) (
      rw (
        some-if (field == "username"),
        some-if (field == "password" && type == "string_too_short"),
      ))

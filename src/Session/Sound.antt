-- ===== src/Session/Sound.antt =====
-- What a reading of the stored session by `readStoredSession` (frontend/src/main.tsx) yields.
use channel_wire.Prelude.{
  ℕ, String, Bool, true, false, Option, none, some, ◌≡◌, refl, arith, Option-cases, Bool-cases, ap,
  subst, if◌then◌else◌, inl, inr, ◌⊎◌,
}
use mathlib.Core.Option.{some-injective, none-ne-some}
use channel_wire.Text.{is_empty}
use channel_wire.Json.{Ratio, Access, get, find_member, le_seconds, Codec}
use channel_wire.Session.{
  StoredSession, text_of, expiry, decode_session, read_stored_session, >>=-eq-some,
}

is_empty-eq : (s : String) → is_empty s ≡ true → s ≡ ""
is_empty-eq String.[] h = refl
is_empty-eq (String.◌∷◌ c s) h = cc

module _ (codec : Codec) (now : ℕ) where
  -- A session that may be used: its texts are not empty, and its token expires after `now`.
  pub record IsCurrent (session : StoredSession) : Type 0 where
    pub token_given : is_empty session.token ≡ false
    pub username_given : is_empty session.username ≡ false
    pub exp : Ratio
    pub expires : expiry codec now session.token ≡ some exp
    pub later : le_seconds exp now ≡ false

  text_of-given : (a : Access) (s : String) → text_of a ≡ some s → is_empty s ≡ false
  unfolding text_of
  text_of-given a s h = ground arith

  built-IsCurrent :
      (token username : String) {exp : Ratio} {session : StoredSession}
      → is_empty token ≡ false
      → is_empty username ≡ false
      → expiry codec now token ≡ some exp
      → (old : Bool) → le_seconds exp now ≡ old
      → (if old then none else some (record { token = token; username = username })) ≡ some session
      → IsCurrent session
  built-IsCurrent token username t u e true _ h = absurd (none-ne-some _ h)
  built-IsCurrent token username {exp} t u e false later h =
      subst IsCurrent (some-injective _ _ h)
        (record { token_given = t; username_given = u; exp = exp; expires = e; later = later })

  decode_session-IsCurrent :
      (stored : String) (session : StoredSession)
      → decode_session codec now stored ≡ some session
      → IsCurrent session
  unfolding decode_session
  decode_session-IsCurrent stored session h =
      let (json, e, h1) = >>=-eq-some (codec.parse stored) _ h in
      let (token, e1, h2) = >>=-eq-some (text_of (get "token" json)) _ h1 in
      let (username, e2, h3) = >>=-eq-some (text_of (get "username" json)) _ h2 in
      let (exp, e3, h4) = >>=-eq-some (expiry codec now token) _ h3 in
      built-IsCurrent token username (text_of-given (get "token" json) token e1)
        (text_of-given (get "username" json) username e2) e3 (le_seconds exp now) refl h4

  -- What a reading yields can be used, and a reading that yields nothing leaves nothing to read
  -- again but an empty text.
  abbrev pub Reads : Option String → Option StoredSession × Option String → Type 0
  Reads stored (some session, kept) = IsCurrent session × (kept ≡ stored)
  Reads stored (none, kept) = (kept ≡ none) ⊎ (kept ≡ some "")

  -- A session that a reading yields has texts that are not empty and a token that expires later,
  -- and what is stored is kept; a reading that yields none leaves nothing stored, or an empty text.
  pub read_stored_session-Reads :
      (stored : Option String) → Reads stored (read_stored_session codec now stored)
  unfolding read_stored_session
  read_stored_session-Reads none = inl refl
  read_stored_session-Reads (some s) = elim (Bool-cases (is_empty s)) [
    | inl empty ↦ rw empty (inr (ap some (is_empty-eq s empty)))
    | inr given ↦ rw given (elim (Option-cases (decode_session codec now s)) [
      | inl e ↦ rw e (inl refl)
      | inr (session, e) ↦ rw e (decode_session-IsCurrent s session e, refl)
    ])
  ]

  -- Reading what a reading has left yields the same session again.
  pub read_stored_session_idem :
      (stored : Option String)
      → read_stored_session codec now (read_stored_session codec now stored).1
        ≡ read_stored_session codec now stored
  unfolding read_stored_session
  read_stored_session_idem stored = ground arith

  -- A session that `startSession` stores, with texts that are not empty and a token that has an
  -- expiry, is read back while it has not expired; from then on it is cleared.
  pub read_stored_session-stringify :
      (token username : String) {exp : Ratio}
      → is_empty token ≡ false
      → is_empty username ≡ false
      → expiry codec now token ≡ some exp
      → read_stored_session codec now (some (codec.stringify_session token username)) ≡ (
          if le_seconds exp now then (none, none) else (
            some (record { token = token; username = username }),
            some (codec.stringify_session token username),
          ))
  unfolding read_stored_session decode_session get find_member text_of
  read_stored_session-stringify token username {exp} t u e =
      rw (codec.stringify-ne-empty token username, codec.parse-stringify token username, t, u, e)
        (ground arith)

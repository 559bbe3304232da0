-- ===== src/Service/Database/Recalled.antt =====
-- The histories after a message is saved, and who sees a direct message (gateway/app/db.py).
use mathlib.Core.List.{append-nil}
use channel_wire.Service.Database.Histories.{select-append, latest-slice_last}
use channel_wire.Service.Database.Commits.{save_dm-saved, save_channel_message-saved}
use channel_wire.Service.Database.Soundness.{dm_row, channel_row, IsSound}
use channel_wire.Prelude.{
  refl, inr, slice_last-suc-append, inl, Bool-cases, ap, ◌∙◌, arith, eq_refl, true, if◌then◌else◌,
  suc, some, [], ◌∷◌, false, ◌++◌, slice_last, ◌≡◌, ◌==◌, ℕ, String, Bool,
}
use channel_wire.Service.Database.{
  AreIncreasing, Engine, save_dm, between, latest, save_channel_message, in_channel, transact,
  select, Database, direct_history, channel_history, Message,
}

-- A row at the end of the table is the last of each history that shows it, and changes no other.
latest-append :
    (engine : Engine) (test : Message → Bool) (limit : ℕ) (db db' : Database) (row : Message)
    → AreIncreasing db.messages
    → AreIncreasing db'.messages
    → db'.messages ≡ db.messages ++ (row ∷ [])
    → latest engine test (suc limit) db' ≡ (
        if test row
        then latest engine test limit db ++ (row ∷ [])
        else latest engine test (suc limit) db)
latest-append engine test limit db db' row h h' e =
    let now : latest engine test (suc limit) db'
        ≡ slice_last (suc limit) (select test db.messages ++ (if test row then row ∷ [] else [])) =
      latest-slice_last engine test (suc limit) db' h'
      ∙ ap (λ ms. slice_last (suc limit) (select test ms)) e
      ∙ ap (slice_last (suc limit)) (select-append test db.messages row) in
    elim (Bool-cases (test row)) [
      | inl shown ↦
          rw (shown, latest-slice_last engine test limit db h)
            (rw shown at now ∙ slice_last-suc-append limit (select test db.messages) row)
      | inr hidden ↦
          rw (hidden, latest-slice_last engine test (suc limit) db h)
            (rw hidden at now ∙ ap (slice_last (suc limit)) (append-nil (select test db.messages)))
    ]

-- After a message of a channel is saved in a sound database, the history of that channel is as before, with the message at
-- the end (and one place more for it); the histories of the other channels and of all pairs of users
-- are as they were.
pub channel_message-recalled :
    (engine : Engine) (channel_name sender body other first second : String) (limit : ℕ)
    (db : Database)
    → IsSound db
    → (channel_name == other) ≡ false
    → (db' : Database) × (transact engine (save_channel_message channel_name sender body) db
        ≡ some db')
      × (channel_history engine channel_name (suc limit) db'
          ≡ channel_history engine channel_name limit db
            ++ (channel_row db.next_id channel_name sender body ∷ []))
      × (channel_history engine other (suc limit) db' ≡ channel_history engine other (suc limit) db)
      × (direct_history engine first second (suc limit) db'
          ≡ direct_history engine first second (suc limit) db)
unfolding channel_history direct_history
channel_message-recalled engine channel_name sender body other first second limit db sound apart =
    let saved = save_channel_message-saved engine channel_name sender body db sound in
    let row = channel_row db.next_id channel_name sender body in
    let after = λ (test : Message → Bool).
      latest-append engine test limit db saved.0 row sound.increasing saved.2.increasing saved.3 in
    let own : in_channel channel_name row ≡ true = eq_refl channel_name in
    (
      saved.0,
      saved.1,
      rw own at (after (in_channel channel_name)),
      rw apart at (after (in_channel other)),
      after (between first second),
    )

-- After a direct message of one user to another is saved in a sound database, the history of its two users is as before, with the message at the
-- end (and one place more for it); a third user's histories, with whomever, and the histories of all
-- channels are as they were.
pub direct_message-recalled :
    (engine : Engine) (sender recipient body third anyone channel_name : String) (limit : ℕ)
    (db : Database)
    → IsSound db
    → (sender == recipient) ≡ false
    → (sender == third) ≡ false
    → (recipient == third) ≡ false
    → (db' : Database) × (transact engine (save_dm sender recipient body) db ≡ some db')
      × (direct_history engine sender recipient (suc limit) db'
          ≡ direct_history engine sender recipient limit db
            ++ (dm_row db.next_id sender recipient body ∷ []))
      × (direct_history engine third anyone (suc limit) db'
          ≡ direct_history engine third anyone (suc limit) db)
      × (channel_history engine channel_name (suc limit) db'
          ≡ channel_history engine channel_name (suc limit) db)
unfolding channel_history direct_history
direct_message-recalled engine sender recipient body third anyone channel_name limit db sound others
      first second =
    let saved = save_dm-saved engine sender recipient body db others sound in
    let row = dm_row db.next_id sender recipient body in
    let after = λ (test : Message → Bool).
      latest-append engine test limit db saved.0 row sound.increasing saved.2.increasing saved.3 in
    let own : between sender recipient row ≡ true = rw (eq_refl sender, eq_refl recipient) refl in
    let foreign : between third anyone row ≡ false = ground arith in
    (
      saved.0,
      saved.1,
      rw own at (after (between sender recipient)),
      rw foreign at (after (between third anyone)),
      after (in_channel channel_name),
    )

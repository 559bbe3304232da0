-- ===== src/Service/Database/Commits.antt =====
-- What the service saves is saved, in a database that stays sound (gateway/app/db.py).
use mathlib.Core.List.{append-nil}
use channel_wire.Service.Database.Soundness.{
  AllRefer-kept, membership_reflexive, AllRefer-Grows, Grows, membership_symmetric,
  AreIncreasing-append, text_symmetric, user_reflexive, user_symmetric, dm_row, channel_row,
  IsSound,
}
use channel_wire.Service.Database.Table.{
  insert_all, insert_all-missing-missing, missing, insert_all-missing, has,
}
use channel_wire.Service.Database.{
  Message, add_membership, add_message, Engine, numbered, save_dm, user_named, session_scope,
  transact, save_channel_message, knows_user, same_user, same_membership, Membership, Database,
}
use channel_wire.Prelude.{
  arith, length, ℕ, List, ◌∙◌, ap, inr, inl, Bool-cases, ◌+◌, false, eq_refl, refl, some, [], ◌∷◌,
  ◌≡◌, ◌++◌, ◌==◌, String,
}

member_session :
    (username channel_name : String) (db : Database)
    → add_membership username channel_name (session_scope db) ≡ record {
      stored = db;
      new_users = missing same_user db.users (user_named username);
      new_channels = missing ◌==◌ db.channels channel_name;
      new_memberships =
          missing same_membership db.memberships
            (record { username = username; channel_name = channel_name });
      new_messages = [];
    }
unfolding add_membership
member_session username channel_name db =
    let m : Membership = record { username = username; channel_name = channel_name } in
    elim (Bool-cases (knows_user db username)) [
      | inl u ↦ elim (Bool-cases (has ◌==◌ db.channels channel_name)) [
        | inl c ↦ elim (Bool-cases (has same_membership db.memberships m)) [
          | inl k ↦ rw (u, c, k) refl
          | inr k ↦ rw (u, c, k) refl
        ]
        | inr c ↦ elim (Bool-cases (has same_membership db.memberships m)) [
          | inl k ↦ rw (u, c, k) refl
          | inr k ↦ rw (u, c, k) refl
        ]
      ]
      | inr u ↦ elim (Bool-cases (has ◌==◌ db.channels channel_name)) [
        | inl c ↦ elim (Bool-cases (has same_membership db.memberships m)) [
          | inl k ↦ rw (u, c, k) refl
          | inr k ↦ rw (u, c, k) refl
        ]
        | inr c ↦ elim (Bool-cases (has same_membership db.memberships m)) [
          | inl k ↦ rw (u, c, k) refl
          | inr k ↦ rw (u, c, k) refl
        ]
      ]
    ]

channel_session :
    (channel_name sender body : String) (db : Database)
    → save_channel_message channel_name sender body (session_scope db) ≡ record {
      stored = db;
      new_users = missing same_user db.users (user_named sender);
      new_channels = missing ◌==◌ db.channels channel_name;
      new_memberships =
          missing same_membership db.memberships
            (record { username = sender; channel_name = channel_name });
      new_messages = channel_row 0 channel_name sender body ∷ [];
    }
unfolding save_channel_message
channel_session channel_name sender body db =
    ap (add_message (channel_row 0 channel_name sender body))
      (member_session sender channel_name db)

-- A membership is always saved in a sound database, whether or not the user, the channel and itself are
-- there before: the database stays sound, with the messages that it had.
pub add_membership-saved :
    (engine : Engine) (username channel_name : String) (db : Database)
    → IsSound db
    → (db' : Database) × (transact engine (add_membership username channel_name) db ≡ some db')
      × IsSound db'
      × (db'.messages ≡ db.messages)
      × (db'.next_id ≡ db.next_id)
unfolding numbered
add_membership-saved engine username channel_name db sound =
    let m : Membership = record { username = username; channel_name = channel_name } in
    let users =
      insert_all-missing same_user user_symmetric user_reflexive db.users (user_named username) in
    let channels = insert_all-missing ◌==◌ text_symmetric eq_refl db.channels channel_name in
    let members =
      insert_all-missing same_membership membership_symmetric membership_reflexive db.memberships
        m in
    let with_rows : List Message → ℕ → Database = λ ms n. record {
      users = users.0;
      channels = channels.0;
      memberships = members.0;
      messages = ms;
      next_id = n;
    } in
    let db' = with_rows db.messages db.next_id in
    let next : db.next_id + length {A = Message} [] ≡ db.next_id = omega arith in
    let grows : Grows db db' = ((λ u h. users.2.2 (user_named u) h), channels.2.2) in
    (
      db',
      ap engine.commit (member_session username channel_name db)
          ∙ engine.commit-adds _ users.0 channels.0 members.0 users.1 channels.1 members.1
          ∙ ap (λ ms. some (with_rows ms (db.next_id + length {A = Message} [])))
              (append-nil db.messages)
          ∙ ap (λ n. some (with_rows db.messages n)) next,
      record {
        users_distinct = users.2.0 sound.users_distinct;
        channels_distinct = channels.2.0 sound.channels_distinct;
        memberships_distinct = members.2.0 sound.memberships_distinct;
        increasing = sound.increasing;
        below = sound.below;
        refer = AllRefer-kept db db' db.messages grows sound.refer;
      },
      refl,
      refl,
    )

-- A message of a channel is always saved in a sound database, whether or not its sender, its channel and
-- the membership are there before: the database stays sound, and has the message as its last.
pub save_channel_message-saved :
    (engine : Engine) (channel_name sender body : String) (db : Database)
    → IsSound db
    → (db' : Database) × (transact engine (save_channel_message channel_name sender body) db
        ≡ some db')
      × IsSound db'
      × (db'.messages ≡ db.messages ++ (channel_row db.next_id channel_name sender body ∷ []))
      × (db'.next_id ≡ db.next_id + 1)
unfolding numbered
save_channel_message-saved engine channel_name sender body db sound =
    let m : Membership = record { username = sender; channel_name = channel_name } in
    let users =
      insert_all-missing same_user user_symmetric user_reflexive db.users (user_named sender) in
    let channels = insert_all-missing ◌==◌ text_symmetric eq_refl db.channels channel_name in
    let members =
      insert_all-missing same_membership membership_symmetric membership_reflexive db.memberships
        m in
    let row = channel_row db.next_id channel_name sender body in
    let db' : Database = record {
      users = users.0;
      channels = channels.0;
      memberships = members.0;
      messages = db.messages ++ (row ∷ []);
      next_id = db.next_id + 1;
    } in
    let order = AreIncreasing-append db.next_id db.messages row refl sound.increasing sound.below in
    let grows : Grows db db' = ((λ u h. users.2.2 (user_named u) h), channels.2.2) in
    (
      db',
      ap engine.commit (channel_session channel_name sender body db)
          ∙ engine.commit-adds _ users.0 channels.0 members.0 users.1 channels.1 members.1,
      record {
        users_distinct = users.2.0 sound.users_distinct;
        channels_distinct = channels.2.0 sound.channels_distinct;
        memberships_distinct = members.2.0 sound.memberships_distinct;
        increasing = order.0;
        below = order.1;
        refer =
            AllRefer-Grows db db' db.messages row grows sound.refer (users.2.1, tt, channels.2.1);
      },
      refl,
      refl,
    )

dm_session :
    (sender recipient body : String) (db : Database)
    → save_dm sender recipient body (session_scope db) ≡ record {
      stored = db;
      new_users =
          missing same_user db.users (user_named sender)
          ++ missing same_user db.users (user_named recipient);
      new_channels = [];
      new_memberships = [];
      new_messages = dm_row 0 sender recipient body ∷ [];
    }
unfolding save_dm
dm_session sender recipient body db = elim (Bool-cases (knows_user db sender)) [
  | inl u ↦ elim (Bool-cases (knows_user db recipient)) [
    | inl v ↦ rw (u, v) refl
    | inr v ↦ rw (u, v) refl
  ]
  | inr u ↦ elim (Bool-cases (knows_user db recipient)) [
    | inl v ↦ rw (u, v) refl
    | inr v ↦ rw (u, v) refl
  ]
]

-- A direct message from one user to another is always saved in a sound database, whether or not they are
-- there before: the database stays sound, and has the message as its last.
pub save_dm-saved :
    (engine : Engine) (sender recipient body : String) (db : Database)
    → (sender == recipient) ≡ false
    → IsSound db
    → (db' : Database) × (transact engine (save_dm sender recipient body) db ≡ some db')
      × IsSound db'
      × (db'.messages ≡ db.messages ++ (dm_row db.next_id sender recipient body ∷ []))
      × (db'.next_id ≡ db.next_id + 1)
unfolding numbered insert_all
save_dm-saved engine sender recipient body db others sound =
    let users =
      insert_all-missing-missing same_user user_symmetric user_reflexive db.users
        (user_named sender) (user_named recipient) others in
    let row = dm_row db.next_id sender recipient body in
    let db' : Database = record {
      users = users.0;
      channels = db.channels;
      memberships = db.memberships;
      messages = db.messages ++ (row ∷ []);
      next_id = db.next_id + 1;
    } in
    let order = AreIncreasing-append db.next_id db.messages row refl sound.increasing sound.below in
    let grows : Grows db db' = ((λ u h. users.5 (user_named u) h), λ c h. h) in
    (
      db',
      ap engine.commit (dm_session sender recipient body db)
          ∙ engine.commit-adds _ users.0 db.channels db.memberships users.1 refl refl,
      record {
        users_distinct = users.2 sound.users_distinct;
        channels_distinct = sound.channels_distinct;
        memberships_distinct = sound.memberships_distinct;
        increasing = order.0;
        below = order.1;
        refer = AllRefer-Grows db db' db.messages row grows sound.refer (users.3, users.4, tt);
      },
      refl,
      refl,
    )

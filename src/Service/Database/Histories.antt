-- ===== src/Service/Database/Histories.antt =====
-- What the histories of gateway/app/db.py show: the last messages, oldest first.
use channel_wire.Prelude.{
  reverse-take-reverse, refl, inr, ap, slice_last, inl, ◌∙◌, if◌then◌else◌, Bool-cases, ◌++◌, ◌≡◌,
  Bool, ◌<◌, ℕ,
}
use channel_wire.Service.Database.{
  AreIncreasing, AllAbove, Engine, latest, Database, select, Message,
}
use mathlib.Core.List.{reverse, List, [], ◌∷◌}

-- The history is the last rows that are asked for, in the order of the table.
pub latest-slice_last :
    (engine : Engine) (test : Message → Bool) (limit : ℕ) (db : Database)
    → AreIncreasing db.messages
    → latest engine test limit db ≡ slice_last limit (select test db.messages)
latest-slice_last engine test limit db increasing =
    ap reverse (engine.execute-selects _ db increasing)
    ∙ reverse-take-reverse limit (select test db.messages)

pub select-append :
    (test : Message → Bool) (ms : List Message) (m : Message)
    → select test (ms ++ (m ∷ [])) ≡ select test ms ++ (if test m then m ∷ [] else [])
unfolding select
select-append test [] m = refl
select-append test (k ∷ ks) m = elim (Bool-cases (test k)) [
  | inl taken ↦ rw (taken, select-append test ks m) refl
  | inr left ↦ rw (left, select-append test ks m) refl
]

pub AllAbove-append :
    (n : ℕ) (ms : List Message) (m : Message)
    → AllAbove n ms
    → n < m.id
    → AllAbove n (ms ++ (m ∷ []))
AllAbove-append n [] m h g = (g, tt)
AllAbove-append n (k ∷ ks) m (h, hs) g = (h, AllAbove-append n ks m hs g)

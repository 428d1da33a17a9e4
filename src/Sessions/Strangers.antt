-- ===== src/Sessions/Strangers.antt =====
-- What a user who is not a member of a conversation can do to its sessions.
use messages.Sessions.{access_denied, SessionRecord}
use messages.Base.{◌≡◌, ℕ, some, lookup, is_some, inr, inl, false, Text, Option, Bool}
use messages.Sessions.Service.{is_over, World, SessionView, Catalog, Answer}

abbrev is_some_row : Option SessionRecord → Bool
is_some_row o = is_some o

module _ (c : Catalog) (now : ℕ) where
  -- A session that was made in the conversation, the members as they were.
  abbrev IsMade : Text → Text → World → Answer Text → Type 0
  IsMade id conversation w answer =
      (answer.1 ≡ inr id)
      × ((row : SessionRecord) × (lookup id answer.0.sessions ≡ some row)
          × (row.conversation_id ≡ conversation)
          × (row.created_at ≡ now)
          × (is_over row ≡ false))
      × (answer.0.members ≡ w.members)

  abbrev IsLeft : Text → Text → Answer (SessionView c now) → Type 0
  IsLeft id conversation answer =
      (answer.1 ≡ inl access_denied)
      × ((row : SessionRecord) × (lookup id answer.0.sessions ≡ some row)
          × (row.conversation_id ≡ conversation)
          × (row.created_at ≡ now))

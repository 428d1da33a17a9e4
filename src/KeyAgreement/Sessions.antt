-- ===== src/KeyAgreement/Sessions.antt =====
-- The sessions that are kept in the database (CreateOrGetSession, GetSession, SaveSession,
-- EncryptMessageWithSession and DecryptMessageWithSession), for the row of one user and one device
-- of a contact: `stored` is that row, and the statements touch no other.
use messages.Base.{is_some, ◌&&◌}
use messages.KeyAgreement.{encoded, decode_parts, Suite}
use messages.Ratchet.{
  success, session_of_ratchet, ratchet_of_session, not_saved, failure, encrypt_message,
  decrypt_message, Session, Ratchet, Outcome, Bytes,
}
use messages.Base.{
  ℤ, if◌then◌else◌, some, none, if◌then◌else◌, if◌then◌else◌, [], Text, Option, Bool,
}

-- A new session has neither keys nor messages.
abbrev pub empty_session : Session
empty_session = record {
  session_key_bytes = none;
  root_key_bytes = [];
  chain_key_bytes = [];
  message_key_index = 0;
}

-- SaveSession. The column session_key_bytes is NOT NULL (migration 000045), so that a session
-- without a session key is refused; whether the statement succeeds otherwise is an input.
unfoldable pub save_session : Bool → Session → Option Session → Option Session × Outcome (Unit {0})
save_session saves session stored =
    if saves && is_some session.session_key_bytes
    then (some session, success tt)
    else (stored, failure not_saved)

abbrev pub saved_session :
    Session → Option Session × Outcome (Unit {0}) → Option Session × Outcome Session
saved_session session (stored, failure e) = (stored, failure e)
saved_session session (stored, success _) = (stored, success session)

-- The row that is there, or a new one.
unfoldable pub create_or_get_session : Bool → Option Session → Option Session × Outcome Session
unfolding save_session
create_or_get_session saves (some session) = (some session, success session)
create_or_get_session saves none =
    saved_session empty_session (save_session saves empty_session none)

abbrev after_saving :
    Outcome (Text × Text)
    → Option Session × Outcome (Unit {0})
    → Option Session × Outcome (Text × Text)
after_saving sealed (stored, failure e) = (stored, failure e)
after_saving sealed (stored, success _) = (stored, sealed)

module _ (s : Suite) where
  -- What is done with the result of the encryption: the session is written and saved.
  abbrev store_encrypted :
      Bool
      → Session
      → Option Session
      → Ratchet × Outcome (Bytes × Bytes)
      → Option Session × Outcome (Text × Text)
  store_encrypted saves session stored (dr, failure e) = (stored, failure e)
  store_encrypted saves session stored (dr, success sealed) =
      after_saving (encoded s (success sealed))
        (save_session saves (session_of_ratchet session dr) stored)

  abbrev encrypt_restored :
      Bytes
      → Option Bytes
      → Bool
      → Session
      → Option Session
      → Outcome Ratchet
      → Option Session × Outcome (Text × Text)
  encrypt_restored plaintext random saves session stored (failure e) = (stored, failure e)
  encrypt_restored plaintext random saves session stored (success dr) =
      store_encrypted saves session stored (encrypt_message s.ciphers random plaintext dr)

  -- The session that the caller has loaded.
  unfoldable pub encrypt_message_with_session :
      Bytes
      → Option Bytes
      → Bool
      → Session
      → Option Session
      → Option Session × Outcome (Text × Text)
  unfolding ratchet_of_session encrypt_message session_of_ratchet save_session
  encrypt_message_with_session plaintext random saves session stored =
      encrypt_restored plaintext random saves session stored (ratchet_of_session s.ciphers session)

  abbrev decrypt_restored : ℤ → Outcome (Bytes × Bytes) → Outcome Ratchet → Outcome Bytes
  decrypt_restored index parts (failure e) = failure e
  decrypt_restored index (failure e) (success dr) = failure e
  decrypt_restored index (success (ciphertext, nonce)) (success dr) =
      (decrypt_message s.ciphers ciphertext nonce index dr).1

  -- The session is not written.
  unfoldable pub decrypt_message_with_session : Text → Text → ℤ → Session → Outcome Bytes
  unfolding ratchet_of_session decrypt_message decode_parts
  decrypt_message_with_session ciphertext nonce index session =
      decrypt_restored index (decode_parts s ciphertext nonce)
        (ratchet_of_session s.ciphers session)

-- ===== src/KeyAgreement/Kept.antt =====
-- What becomes of a stored session.
use messages.KeyAgreement.Sessions.{
  save_session, encrypt_message_with_session, create_or_get_session,
}
use messages.KeyAgreement.{Suite}
use messages.Ratchet.{
  not_saved, success, session_of_ratchet, send_message_key, ratchet_of_session, failure,
  encrypt_message, chain_key_derive, Session, Bytes,
}
use messages.Base.{◌≡◌, true, some, refl, none, false, arith, Text, Option, Bool, ◌+◌}

-- A new session is never kept: it has no session key, which the table asks for.
pub create_or_get_session-none :
    (saves : Bool) → create_or_get_session saves none ≡ (none, failure not_saved)
unfolding create_or_get_session save_session
create_or_get_session-none false = refl
create_or_get_session-none true = refl

module _ (s : Suite) where
  -- An encryption that succeeds has stored a session with the next chain key and the next index, so
  -- that the key of its message is not used again.
  pub encrypt_message_with_session-advances :
      (plaintext : Bytes) (random : Option Bytes) (saves : Bool) (session : Session)
      (stored : Option Session) (sealed : Text × Text)
      → (encrypt_message_with_session s plaintext random saves session stored).1 ≡ success sealed
      → (encrypt_message_with_session s plaintext random saves session stored).0
        ≡ some (record session {
          chain_key_bytes = (chain_key_derive s.ciphers session.chain_key_bytes).1;
          message_key_index = session.message_key_index + 1;
        })
  unfolding encrypt_message_with_session ratchet_of_session encrypt_message send_message_key
      session_of_ratchet save_session
  encrypt_message_with_session-advances plaintext random saves session stored sealed h =
      ground arith

-- ===== src/Ratchet/Order.antt =====
-- The order of what a receiver accepts: an index is used once.
use messages.Ratchet.{
  success, recv_message_key, failure, decryption_failed, decrypt_message, behind, Ratchet, Outcome,
  Crypto, Bytes,
}
use messages.Base.{◌≤◌, ◌≡◌, ◌∷◌, ℤ, ℕ, pos, negsuc, arith, ap, [], List, ◌<◌}

module _ (c : Crypto) where
  -- The receiver after further messages.
  unfoldable pub receive_all : List (Bytes × Bytes × ℤ) → Ratchet → Ratchet
  receive_all [] dr = dr
  receive_all ((ciphertext, nonce, index) ∷ rest) dr =
      receive_all rest (decrypt_message c ciphertext nonce index dr).0

  decrypt_message-grows :
      (ciphertext nonce : Bytes) (index : ℤ) (dr : Ratchet)
      → dr.recv_message_index ≤ (decrypt_message c ciphertext nonce index dr).0.recv_message_index
  unfolding decrypt_message recv_message_key
  decrypt_message-grows ciphertext nonce (negsuc n) dr = ground arith
  decrypt_message-grows ciphertext nonce (pos n) dr = ground arith

  receive_all-grows :
      (rest : List (Bytes × Bytes × ℤ)) (dr : Ratchet)
      → dr.recv_message_index ≤ (receive_all rest dr).recv_message_index
  unfolding receive_all
  receive_all-grows [] dr = omega arith
  receive_all-grows ((ciphertext, nonce, index) ∷ rest) dr = omega (
    arith,
    decrypt_message-grows ciphertext nonce index dr,
    receive_all-grows rest (decrypt_message c ciphertext nonce index dr).0,
  )

  refuses_behind :
      (ciphertext nonce : Bytes) (j : ℕ) (dr : Ratchet)
      → j < dr.recv_message_index
      → decrypt_message c ciphertext nonce (pos j) dr ≡ (dr, failure behind)
  unfolding decrypt_message recv_message_key
  refuses_behind ciphertext nonce j dr h = ground arith

  moved_past :
      (ciphertext nonce : Bytes) (i : ℕ) (dr : Ratchet) (x : Bytes)
      → (decrypt_message c ciphertext nonce (pos i) dr).1 ≡ success x
      → i < (decrypt_message c ciphertext nonce (pos i) dr).0.recv_message_index
  unfolding decrypt_message recv_message_key
  moved_past ciphertext nonce i dr x h = ground arith

  moved_past_unopened :
      (ciphertext nonce : Bytes) (i : ℕ) (dr : Ratchet)
      → (decrypt_message c ciphertext nonce (pos i) dr).1 ≡ failure decryption_failed
      → i < (decrypt_message c ciphertext nonce (pos i) dr).0.recv_message_index
  unfolding decrypt_message recv_message_key
  moved_past_unopened ciphertext nonce i dr h = ground arith

  -- Once a message was accepted under an index, no message under that index or one before it is
  -- accepted again, whatever arrives in between, and being offered one changes nothing.
  pub decrypt_message_once :
      (ciphertext nonce ciphertext' nonce' : Bytes) (i j : ℕ) (dr : Ratchet) (x : Bytes)
      (between : List (Bytes × Bytes × ℤ))
      → (decrypt_message c ciphertext nonce (pos i) dr).1 ≡ success x
      → j ≤ i
      → let later = receive_all between (decrypt_message c ciphertext nonce (pos i) dr).0 in
        decrypt_message c ciphertext' nonce' (pos j) later ≡ (later, failure behind)
  decrypt_message_once ciphertext nonce ciphertext' nonce' i j dr x between h le =
      refuses_behind ciphertext' nonce' j _ (
        omega (
          arith,
          moved_past ciphertext nonce i dr x h,
          receive_all-grows between (decrypt_message c ciphertext nonce (pos i) dr).0,
        ))

  -- A ciphertext that does not open moves the receiver on all the same: offered under an index
  -- that is neither behind nor more than 10000 ahead, it makes every message up to that index
  -- unreadable, the genuine ones too.
  pub decrypt_message_forged :
      (ciphertext nonce ciphertext' nonce' : Bytes) (i j : ℕ) (dr : Ratchet)
      → (decrypt_message c ciphertext nonce (pos i) dr).1 ≡ failure decryption_failed
      → j ≤ i
      → (decrypt_message c ciphertext' nonce'
          (pos j)
          (decrypt_message c ciphertext nonce (pos i) dr).0).1
        ≡ failure behind
  decrypt_message_forged ciphertext nonce ciphertext' nonce' i j dr h le =
      ap (λ (t : Ratchet × Outcome Bytes). t.1)
        (refuses_behind ciphertext' nonce' j _
          (omega (arith, moved_past_unopened ciphertext nonce i dr h)))

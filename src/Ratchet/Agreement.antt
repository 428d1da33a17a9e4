-- ===== src/Ratchet/Agreement.antt =====
-- A sender and a receiver whose chains are in step, over messages that may be lost.
use messages.Ratchet.{
  success, skip_keys, send_message_key, recv_message_key, encrypt_message, decrypt_message,
  chain_key_derive, Ratchet, Outcome, Crypto, Bytes,
}
use messages.Base.{
  false, arith, ap, [], Option, ◌-◌, ◌+◌, List, All, ◌-◌, ◌+◌, ◌≤◌, ◌≡◌, ◌∷◌, ◌∙◌, ℕ, some, refl,
  pos, none, map, ltb, length, false, arith, ap, [], Option, List, All, ◌-◌, ◌+◌,
}

abbrev pub InStep : Ratchet → Ratchet → Type 0
InStep a b = (a.send_chain_key ≡ b.recv_chain_key) × (a.send_message_index ≡ b.recv_message_index)

module _ (c : Crypto) where
  -- The sender after messages, each with the answer of its random source.
  unfoldable pub encrypt_all : List (Option Bytes × Bytes) → Ratchet → Ratchet
  encrypt_all [] a = a
  encrypt_all ((nonce, x) ∷ xs) a = encrypt_all xs (encrypt_message c nonce x a).0

  encrypt_message-ratchet :
      (nonce : Option Bytes) (x : Bytes) (a : Ratchet)
      → (encrypt_message c nonce x a).0 ≡ (send_message_key c a).1
  unfolding encrypt_message
  encrypt_message-ratchet none x a = refl
  encrypt_message-ratchet (some n) x a = refl

  send_chain-encrypt_all :
      (xs : List (Option Bytes × Bytes)) (a : Ratchet)
      → (encrypt_all xs a).send_chain_key ≡ skip_keys c (length xs) a.send_chain_key
  unfolding encrypt_all skip_keys
  send_chain-encrypt_all [] a = refl
  send_chain-encrypt_all ((nonce, x) ∷ xs) a =
      send_chain-encrypt_all xs (encrypt_message c nonce x a).0
      ∙ ap (λ (r : Ratchet). skip_keys c (length xs) r.send_chain_key)
          (encrypt_message-ratchet nonce x a)
      ∙ unfold send_message_key in refl

  send_index-encrypt_all :
      (xs : List (Option Bytes × Bytes)) (a : Ratchet)
      → (encrypt_all xs a).send_message_index ≡ a.send_message_index + length xs
  unfolding encrypt_all
  send_index-encrypt_all [] a = omega arith
  send_index-encrypt_all ((nonce, x) ∷ xs) a =
      send_index-encrypt_all xs (encrypt_message c nonce x a).0
      ∙ ap (λ (r : Ratchet). r.send_message_index + length xs) (encrypt_message-ratchet nonce x a)
      ∙ unfold send_message_key in omega arith

  -- What a receiver makes of an index that is in its window.
  recv_message_key-window :
      (n : ℕ) (b : Ratchet)
      → n ≤ 10000
      → recv_message_key c (pos (b.recv_message_index + n)) b
        ≡ success (
          (chain_key_derive c (skip_keys c n b.recv_chain_key)).0,
          record b {
            recv_chain_key = (chain_key_derive c (skip_keys c n b.recv_chain_key)).1;
            recv_message_index = b.recv_message_index + n + 1;
          },
        )
  unfolding recv_message_key
  recv_message_key-window n b h =
      rw (not_behind b.recv_message_index, not_far b.recv_message_index, gap b.recv_message_index)
    where
      not_behind : (i : ℕ) → ltb (i + n) i ≡ false
      not_behind i = ground arith

      not_far : (i : ℕ) → ltb (i + 10000) (i + n) ≡ false
      not_far i = ground arith

      gap : (i : ℕ) → i + n - i ≡ n
      gap i = omega arith

  -- Batches of messages of which all but the last are lost.
  unfoldable pub converse :
      List (List (Option Bytes × Bytes) × Bytes × Bytes) → Ratchet → Ratchet → List (Outcome Bytes)
  converse [] a b = []
  converse ((lost, nonce, x) ∷ rest) a b =
      let sender = encrypt_all lost a in
      let received =
        decrypt_message c (c.seal (send_message_key c sender).0 nonce x) nonce
          (pos sender.send_message_index) b in
      received.1 ∷ converse rest (encrypt_message c (some nonce) x sender).0 received.0

  module _ (opens : (k n x : Bytes) → c.unseal k n (c.seal k n x) ≡ some x) where
    caught_up :
        (s b : Ratchet) (n : ℕ) (nonce x : Bytes)
        → s.send_chain_key ≡ skip_keys c n b.recv_chain_key
        → s.send_message_index ≡ b.recv_message_index + n
        → n ≤ 10000
        → ((decrypt_message c
              (c.seal (send_message_key c s).0 nonce x)
              nonce
              (pos s.send_message_index)
              b).1
            ≡ success x)
          × InStep
              (encrypt_message c (some nonce) x s).0
              (decrypt_message c
                (c.seal (send_message_key c s).0 nonce x)
                nonce
                (pos s.send_message_index)
                b).0
    unfolding decrypt_message encrypt_message send_message_key
    caught_up s b n nonce x chain index h =
        rw
          (
            index,
            recv_message_key-window n b h,
            chain,
            opens (c.hmac (skip_keys c n b.recv_chain_key) (1 ∷ [])) nonce x,
          )
          (refl, (refl, refl))

    -- If what the cipher seals opens again, and the receiver is in step with the sender, then
    -- after at most 10000 messages that were lost the next one is decrypted to its text, and both
    -- are in step again.
    pub decrypt_message-encrypt_all :
        (a b : Ratchet) (lost : List (Option Bytes × Bytes)) (nonce x : Bytes)
        → InStep a b
        → length lost ≤ 10000
        → let sender = encrypt_all lost a in
          let received =
            decrypt_message c
              (c.seal (send_message_key c sender).0 nonce x)
              nonce
              (pos sender.send_message_index)
              b in
          (received.1 ≡ success x) × InStep (encrypt_message c (some nonce) x sender).0 received.0
    decrypt_message-encrypt_all a b lost nonce x (chain, index) h =
        caught_up (encrypt_all lost a) b (length lost) nonce x
          (send_chain-encrypt_all lost a ∙ ap (skip_keys c (length lost)) chain)
          (send_index-encrypt_all lost a ∙ ap (λ i. i + length lost) index) h

    cons_eq :
        (x y : Outcome Bytes) (xs ys : List (Outcome Bytes)) → x ≡ y → xs ≡ ys → (x ∷ xs) ≡ (y ∷ ys)
    cons_eq x y xs ys h k = cc

    -- If what the cipher seals opens again, then of any conversation in one direction that starts
    -- in step and loses at most 10000 messages in a row, every message that arrives is decrypted.
    pub converse_lem :
        (batches : List (List (Option Bytes × Bytes) × Bytes × Bytes)) (a b : Ratchet)
        → InStep a b
        → All (λ t. length t.0 ≤ 10000) batches
        → converse batches a b ≡ map (λ t. success t.2) batches
    unfolding converse
    converse_lem [] a b h all = refl
    converse_lem ((lost, nonce, x) ∷ rest) a b h all =
        let (text, again) = decrypt_message-encrypt_all a b lost nonce x h all.0 in
        cons_eq _ _ _ _ text (converse_lem rest _ _ again all.1)

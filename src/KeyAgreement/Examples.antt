-- ===== src/KeyAgreement/Examples.antt =====
-- The theorems about the key agreement with toy ciphers that keep their promises.
use messages.KeyAgreement.Exchange.{
  unwrap_session_key, perform_x3dh_responder, perform_x3dh, generate_recipient_wrapped_key,
}
use messages.Text.{codes}
use messages.KeyAgreement.{zero_key, Suite}
use messages.KeyAgreement.Group.{IdentityKeys}
use messages.KeyAgreement.Wrapped.{unwrap_session_key-generate_recipient_wrapped_key}
use messages.KeyAgreement.Agreed.{perform_x3dh-perform_x3dh_responder, KeyPair, Faithful, Commutes}
use messages.Ratchet.{success, sender_chain, receiver_chain, fresh_ratchet, Ratchet, Bytes}
use messages.Base.{
  ◌≡◌, ◌∷◌, ◌∙◌, ℕ, true, if◌then◌else◌, text_eq, take, sym, suc, some_eq, some, refl, none, length,
  if◌then◌else◌, if◌then◌else◌, drop, arith, ap, [], Text, Option, ◌==◌, ◌++◌, ◌+◌,
}

abbrev add_keys : Bytes → Bytes → Bytes
add_keys [] ys = ys
add_keys (x ∷ xs) [] = x ∷ xs
add_keys (x ∷ xs) (y ∷ ys) = (x + y) ∷ add_keys xs ys

add_keys_comm : (xs ys : Bytes) → add_keys xs ys ≡ add_keys ys xs
add_keys_comm [] [] = refl
add_keys_comm [] (y ∷ ys) = refl
add_keys_comm (x ∷ xs) [] = refl
add_keys_comm (x ∷ xs) (y ∷ ys) = rw (add_keys_comm xs ys) (ground arith)

add_keys_none : (xs : Bytes) → add_keys xs [] ≡ xs
add_keys_none [] = refl
add_keys_none (x ∷ xs) = refl

abbrev strip : Bytes → Bytes → Option Bytes
strip [] t = some t
strip (k ∷ ks) [] = none
strip (k ∷ ks) (x ∷ xs) = let rest = strip ks xs in if k == x then rest else none

strip_own : (k x : Bytes) → strip k (k ++ x) ≡ some x
strip_own [] x = refl
strip_own (a ∷ k) x = ground (arith, strip_own k x)

-- The ciphertext begins with the length of the key and the key.
abbrev open_sealed : Bytes → Bytes → Option Bytes
open_sealed key [] = none
open_sealed key (n ∷ text) = let rest = strip key text in if n == length key then rest else none

abbrev toy_suite : Suite
toy_suite = record {
  ciphers = record {
    hmac = λ key text. text ++ key;
    hkdf_expand = λ key info. some (key ++ info);
    seal = λ key nonce text. length key ∷ (key ++ text);
    unseal = λ key nonce text. open_sealed key text;
  };
  x25519 = λ a b. some (add_keys a b);
  basepoint = [];
  encode = λ b. b;
  decode = λ t. some t;
  sha256_hex = λ b. b;
  ed25519_verifies = λ key message signature. true;
}

toy-Commutes : Commutes toy_suite
toy-Commutes a b pa pb ha hb =
    let ea : pa ≡ a = sym (some_eq _ pa ha) ∙ add_keys_none a in
    let eb : pb ≡ b = sym (some_eq _ pb hb) ∙ add_keys_none b in
    rw (ea, eb) (ap some (add_keys_comm a b))

toy_opens : (key text : Bytes) → open_sealed key (length key ∷ (key ++ text)) ≡ some text
toy_opens key text = ground (arith, strip_own key text)

toy_faithful : Faithful toy_suite
toy_faithful = record { decodes = λ b. refl; opens = λ key nonce text. toy_opens key text }

abbrev key_of : ℕ → Bytes
key_of n = n ∷ drop 1 zero_key

abbrev twelve : Bytes
twelve = take 12 zero_key

pair_of : (n : ℕ) → KeyPair toy_suite (key_of (suc n)) (key_of (suc n))
unfolding text_eq
pair_of n = record { from_base = refl; not_zero = ground arith }

perform_x3dh-perform_x3dh_responder_example :
    perform_x3dh toy_suite (record {
      sender_identity_private = key_of 1;
      sender_identity_public = key_of 1;
      sender_ephemeral_private = key_of 2;
      sender_ephemeral_public = key_of 2;
      recipient_identity_public = key_of 3;
      recipient_signed_prekey = key_of 4;
      recipient_one_time_prekey = key_of 5;
    })
    ≡ perform_x3dh_responder toy_suite (key_of 2) (key_of 3) (key_of 4) (key_of 5) (key_of 1)
unfolding text_eq
perform_x3dh-perform_x3dh_responder_example =
    perform_x3dh-perform_x3dh_responder toy_suite toy-Commutes (key_of 1) (key_of 1) (key_of 2)
      (key_of 2) (key_of 3) (key_of 3) (key_of 4) (key_of 4) (key_of 5) (key_of 5) (pair_of 0)
      (pair_of 1) (pair_of 2) (pair_of 3) (pair_of 4) refl refl refl

abbrev started : Bytes → Bytes → Bytes → Ratchet
started root send receive = fresh_ratchet root 0 (root ++ send) (root ++ receive)

abbrev group_state : Ratchet
group_state = started (key_of 7) sender_chain receiver_chain

abbrev zero_state : Ratchet
zero_state = started zero_key receiver_chain sender_chain

-- Wrapped with the ephemeral key 2 for the identity key 3.
abbrev wrapped_pair : Text × Text
wrapped_pair = (key_of 2 ++ (64 ∷ ((key_of 5 ++ key_of 7) ++ key_of 7)), twelve)

unwrap_session_key-generate_recipient_wrapped_key_example :
    unwrap_session_key toy_suite (key_of 3) wrapped_pair.0 wrapped_pair.1 (some group_state)
    ≡ success (key_of 7)
unfolding text_eq generate_recipient_wrapped_key
unwrap_session_key-generate_recipient_wrapped_key_example =
    unwrap_session_key-generate_recipient_wrapped_key toy_suite toy_faithful toy-Commutes (key_of 3)
      (key_of 3) (key_of 2) (key_of 2) twelve wrapped_pair group_state group_state (pair_of 2)
      (pair_of 1) refl refl refl refl refl refl

abbrev bob_keys : IdentityKeys
bob_keys = record {
  user_id = codes "bob";
  device_id = codes "phone";
  public_text = key_of 3;
  private_text = key_of 3;
}

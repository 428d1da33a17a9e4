-- ===== src/Ratchet/Examples.antt =====
-- The theorems about the ratchet at concrete messages.
use messages.Ratchet.Skipped.{get_key-store_key, find_key, same_index, store_key, get_key}
use messages.Ratchet.Order.{receive_all, decrypt_message_once, decrypt_message_forged}
use messages.Text.{codes}
use messages.Ratchet.Agreement.{
  encrypt_all, decrypt_message-encrypt_all, converse_lem, converse, InStep,
}
use messages.Ratchet.{
  success, skip_keys, sender_chain, send_message_key, recv_message_key, receiver_chain,
  fresh_ratchet, failure, encrypt_message, decrypt_message, behind, Ratchet, Crypto, Bytes,
}
use messages.Base.{
  false, ◌==◌, ◌++◌, [], Option, List, ◌==◌, ◌++◌, ◌≡◌, ◌∷◌, ℕ, zero, if◌then◌else◌, suc, some,
  refl, pos, none, if◌then◌else◌, if◌then◌else◌, arith, [], Option, List, ◌==◌, ◌++◌,
}

-- A cipher that writes the key and the text one behind the other, and opens what begins so.
abbrev strip_prefix : Bytes → Bytes → Option Bytes
strip_prefix [] t = some t
strip_prefix (k ∷ ks) [] = none
strip_prefix (k ∷ ks) (x ∷ xs) = let rest = strip_prefix ks xs in if k == x then rest else none

strip_own : (k x : Bytes) → strip_prefix k (k ++ x) ≡ some x
strip_own [] x = refl
strip_own (a ∷ k) x = ground (arith, strip_own k x)

abbrev toy : Crypto
toy = record {
  hmac = λ key text. text ++ key;
  hkdf_expand = λ key info. some (info ++ key);
  seal = λ key nonce text. key ++ text;
  unseal = λ key nonce text. strip_prefix key text;
}

abbrev zeros : ℕ → Bytes
zeros zero = []
zeros (suc n) = 0 ∷ zeros n

abbrev root : Bytes
root = zeros 32

abbrev alice : Ratchet
alice = fresh_ratchet root 0 (sender_chain ++ root) (receiver_chain ++ root)

abbrev bob : Ratchet
bob = fresh_ratchet root 0 (receiver_chain ++ root) (sender_chain ++ root)

toy_opens : (k n x : Bytes) → toy.unseal k n (toy.seal k n x) ≡ some x
toy_opens k n x = strip_own k x

abbrev lost_one : List (Option Bytes × Bytes)
lost_one = (some [], codes "a") ∷ []

decrypt_message-encrypt_all_example :
    let sender = encrypt_all toy lost_one alice in
    let received =
      decrypt_message toy
        (toy.seal (send_message_key toy sender).0 [] (codes "hi"))
        []
        (pos sender.send_message_index)
        bob in
    (received.1 ≡ success (codes "hi"))
    × InStep (encrypt_message toy (some []) (codes "hi") sender).0 received.0
decrypt_message-encrypt_all_example =
    decrypt_message-encrypt_all toy toy_opens alice bob lost_one [] (codes "hi") (refl, refl)
      (omega arith)

converse_lem_example :
    converse toy ((lost_one, [], codes "hi") ∷ ([], [], codes "ho") ∷ []) alice bob
    ≡ success (codes "hi") ∷ success (codes "ho") ∷ []
converse_lem_example =
    converse_lem toy toy_opens ((lost_one, [], codes "hi") ∷ ([], [], codes "ho") ∷ []) alice bob
      (refl, refl) (omega arith, (omega arith, tt))

decrypt_message_once_example :
    decrypt_message toy [] []
      (pos 0)
      (receive_all toy [] (decrypt_message toy (1 ∷ sender_chain ++ root) [] (pos 0) bob).0)
    ≡ (
      receive_all toy [] (decrypt_message toy (1 ∷ sender_chain ++ root) [] (pos 0) bob).0,
      failure behind,
    )
unfolding decrypt_message recv_message_key skip_keys
decrypt_message_once_example =
    decrypt_message_once toy (1 ∷ sender_chain ++ root) [] [] [] 0 0 bob [] [] refl (omega arith)

decrypt_message_forged_example :
    (decrypt_message toy
      (codes "late")
      []
      (pos 3)
      (decrypt_message toy (codes "forged") [] (pos 9) bob).0).1
    ≡ failure behind
unfolding decrypt_message recv_message_key skip_keys
decrypt_message_forged_example =
    decrypt_message_forged toy (codes "forged") [] (codes "late") [] 9 3 bob refl (omega arith)

get_key-store_key_example :
    let first = get_key (pos 3) (store_key (pos 3) root []) in
    (first.1 ≡ some root)
    × ((get_key (pos 3) first.0).1 ≡ none)
    × (same_index (pos 3) (pos 4) ≡ false
        → find_key (pos 4) (get_key (pos 3) first.0).0 ≡ find_key (pos 4) [])
get_key-store_key_example = get_key-store_key (pos 3) (pos 4) root []

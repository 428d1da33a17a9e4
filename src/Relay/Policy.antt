-- ===== src/Relay/Policy.antt =====
-- canonicalRelayPolicy, relayContentHasMedia and relayValueHasContent: the transport and the
-- capability that a message asks for.
use messages.Text.{trim_space, to_upper, codes}
use messages.Json.{
  string, object, null, nil, get_field, field, end, cons, array, Json, Items, Fields,
}
use messages.Base.{
  ◌∷◌, ◌||◌, true, if◌then◌else◌, text_eq, some, not, none, is_empty, if◌then◌else◌, false,
  if◌then◌else◌, [], Text, Option, List, Bool,
}

abbrev pub media_keys : List Text
media_keys =
    codes "media"
    ∷ codes "media_json"
    ∷ codes "attachments"
    ∷ codes "attachment"
    ∷ codes "attachment_ids"
    ∷ []

unfoldable pub relay_value_has_content : Json → Bool
relay_value_has_content null = false
relay_value_has_content (string t) = not (is_empty (trim_space t))
relay_value_has_content (array nil) = false
relay_value_has_content (array (cons v vs)) = true
relay_value_has_content (object end) = false
relay_value_has_content (object (field k v fs)) = true
relay_value_has_content _ = true

abbrev pub holds_content : Option Json → Bool
unfolding relay_value_has_content
holds_content none = false
holds_content (some value) = relay_value_has_content value

-- The loop over the keys.
abbrev pub any_key : List Text → Fields → Bool
any_key [] v = false
any_key (key ∷ keys) v = holds_content (get_field key v) || any_key keys v

unfoldable mutual
  pub relay_content_has_media : Json → Bool
  relay_content_has_media (object v) = any_key media_keys v || any_field_has_media v
  relay_content_has_media (array v) = any_item_has_media v
  relay_content_has_media _ = false

  pub any_item_has_media : Items → Bool
  any_item_has_media nil = false
  any_item_has_media (cons value v) = relay_content_has_media value || any_item_has_media v

  pub any_field_has_media : Fields → Bool
  any_field_has_media end = false
  any_field_has_media (field key value v) = relay_content_has_media value || any_field_has_media v

abbrev pub mms : Text × Text
mms = (codes "RELAY_MMS", codes "ANDROID_CARRIER")

abbrev pub sms : Text × Text
sms = (codes "RELAY_SMS", codes "RELAY_EXECUTOR")

-- The transport hint and the required capability.
unfoldable pub canonical_relay_policy : Text → Json → Text × Text
unfolding to_upper relay_content_has_media
canonical_relay_policy transport_hint content =
    let hint = to_upper (trim_space transport_hint) in
    let has_media = relay_content_has_media content in
    if is_empty hint || text_eq hint (codes "AUTO")
    then (if has_media then mms else sms)
    else if text_eq hint (codes "SMS") || text_eq hint (codes "RELAY_SMS")
    then (if has_media then mms else sms)
    else if text_eq hint (codes "MMS") || text_eq hint (codes "RELAY_MMS")
    then (if not has_media then sms else mms)
    else if has_media
    then mms
    else sms

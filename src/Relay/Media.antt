-- ===== src/Relay/Media.antt =====
-- What canonicalRelayPolicy and relayContentHasMedia decide.
use messages.Base.{ap, text_eq, sym, ◌∙◌}
use messages.Relay.Policy.{
  sms, relay_content_has_media, mms, media_keys, canonical_relay_policy, any_key,
  any_item_has_media, any_field_has_media,
}
use messages.Json.{
  string, object, number, null, nil, field, end, cons, boolean, array, Json, Items, Fields,
}
use messages.Base.{
  Bool-cases, ◌⊎◌, ◌≡◌, ◌↔◌, ◌||◌, true, if◌then◌else◌, refl, inr, inl, if◌then◌else◌, false,
  if◌then◌else◌, arith, Text, Bool,
}

canonical_relay_policy_lem :
    (transport_hint : Text) (content : Json)
    → canonical_relay_policy transport_hint content
      ≡ (if relay_content_has_media content then mms else sms)
unfolding canonical_relay_policy
canonical_relay_policy_lem transport_hint content = ground arith

pub data ItemOf (x : Json) : Items → Type 0 where
  first_item : {xs : Items} → ItemOf x (cons x xs)
  later_item : {y : Json} {xs : Items} → ItemOf x xs → ItemOf x (cons y xs)

pub data FieldOf (x : Json) : Fields → Type 0 where
  first_field : {k : Text} {fs : Fields} → FieldOf x (field k x fs)
  later_field : {k : Text} {y : Json} {fs : Fields} → FieldOf x fs → FieldOf x (field k y fs)

-- The values that stand in a value at any depth.
pub data Within (x : Json) : Json → Type 0 where
  itself : Within x x
  in_items : {y : Json} {xs : Items} → ItemOf y xs → Within x y → Within x (array xs)
  in_fields : {y : Json} {fs : Fields} → FieldOf y fs → Within x y → Within x (object fs)

-- An object at some depth that has one of the keys of media, with a value that is not empty.
unfoldable pub HoldsMedia : Json → Type 0
HoldsMedia content = (v : Fields) × Within (object v) content × (any_key media_keys v ≡ true)

or_cases : (a b : Bool) → a || b ≡ true → (a ≡ true) ⊎ (b ≡ true)
or_cases true b h = inl refl
or_cases false b h = inr h

or_right : (a b : Bool) → b ≡ true → a || b ≡ true
or_right true b h = refl
or_right false b h = h

or_left : (a b : Bool) → a ≡ true → a || b ≡ true
or_left a b h = rw h refl

mutual
  unfolding relay_content_has_media any_item_has_media any_field_has_media HoldsMedia

  found_in_content : (j : Json) → relay_content_has_media j ≡ true → HoldsMedia j
  found_in_content null h = cc
  found_in_content (boolean b) h = cc
  found_in_content (number n) h = cc
  found_in_content (string s) h = cc
  found_in_content (array xs) h =
      let deep = found_in_items xs h in (deep.1.0, in_items deep.1.1 deep.1.2, deep.1.3)
  found_in_content (object fs) h =
      elim (or_cases (any_key media_keys fs) (any_field_has_media fs) h) [
        | inl at_once ↦ (fs, itself, at_once)
        | inr below ↦
            let deep = found_in_fields fs below in (deep.1.0, in_fields deep.1.1 deep.1.2, deep.1.3)
      ]

  found_in_items :
      (xs : Items)
      → any_item_has_media xs ≡ true
      → (y : Json) × ((v : Fields) × ItemOf y xs
          × Within (object v) y
          × (any_key media_keys v ≡ true))
  found_in_items nil h = cc
  found_in_items (cons x xs) h =
      elim (or_cases (relay_content_has_media x) (any_item_has_media xs) h) [
        | inl at_once ↦
            let deep = found_in_content x at_once in (x, (deep.0, first_item, deep.1, deep.2))
        | inr below ↦
            let deep = found_in_items xs below in
            (deep.0, (deep.1.0, later_item deep.1.1, deep.1.2, deep.1.3))
      ]

  found_in_fields :
      (fs : Fields)
      → any_field_has_media fs ≡ true
      → (y : Json) × ((v : Fields) × FieldOf y fs
          × Within (object v) y
          × (any_key media_keys v ≡ true))
  found_in_fields end h = cc
  found_in_fields (field k x fs) h =
      elim (or_cases (relay_content_has_media x) (any_field_has_media fs) h) [
        | inl at_once ↦
            let deep = found_in_content x at_once in (x, (deep.0, first_field, deep.1, deep.2))
        | inr below ↦
            let deep = found_in_fields fs below in
            (deep.0, (deep.1.0, later_field deep.1.1, deep.1.2, deep.1.3))
      ]

item_counts :
    (y : Json) (xs : Items)
    → ItemOf y xs
    → relay_content_has_media y ≡ true
    → any_item_has_media xs ≡ true
unfolding any_item_has_media
item_counts y _ first_item h = or_left _ _ h
item_counts y _ (later_item k) h = or_right _ _ (item_counts y _ k h)

field_counts :
    (y : Json) (fs : Fields)
    → FieldOf y fs
    → relay_content_has_media y ≡ true
    → any_field_has_media fs ≡ true
unfolding any_field_has_media
field_counts y _ first_field h = or_left _ _ h
field_counts y _ (later_field k) h = or_right _ _ (field_counts y _ k h)

Within-counts :
    (v : Fields) (j : Json)
    → Within (object v) j
    → any_key media_keys v ≡ true
    → relay_content_has_media j ≡ true
unfolding relay_content_has_media
Within-counts v _ itself h = or_left _ _ h
Within-counts v _ (in_items k w) h = item_counts _ _ k (Within-counts v _ w h)
Within-counts v _ (in_fields k w) h = or_right _ _ (field_counts _ _ k (Within-counts v _ w h))

-- The search finds media exactly where an object at some depth of the content has one of the keys
-- of media with a value that is not empty.
pub relay_content_has_media-HoldsMedia :
    (content : Json) → (relay_content_has_media content ≡ true) ↔ HoldsMedia content
unfolding HoldsMedia
relay_content_has_media-HoldsMedia content =
    (λ h. found_in_content content h, λ w. Within-counts w.0 content w.1 w.2)

abbrev goes_by_mms : Text × Text → Bool
goes_by_mms x = text_eq x.0 mms.0

sms_apart : sms ≡ mms → false ≡ true
unfolding text_eq
sms_apart h = ap goes_by_mms h

mms_not_sms : ¬ (sms ≡ mms)
mms_not_sms h = let clash = sms_apart h in cc

-- The hint never matters: every content goes by MMS, which asks for a device with the carrier
-- capability, or by SMS, which asks for any executor, and by MMS just where an object at some depth
-- of it has one of the keys of media with a value that is not empty.
pub canonical_relay_policy-HoldsMedia :
    (transport_hint : Text) (content : Json)
    → ((canonical_relay_policy transport_hint content ≡ mms) ↔ HoldsMedia content)
      × ((canonical_relay_policy transport_hint content ≡ mms)
          ⊎ (canonical_relay_policy transport_hint content ≡ sms))
canonical_relay_policy-HoldsMedia transport_hint content =
    let lem = canonical_relay_policy_lem transport_hint content in
    let search = relay_content_has_media-HoldsMedia content in
    elim (Bool-cases (relay_content_has_media content)) [
      | inl media ↦
          let by_mms : canonical_relay_policy transport_hint content ≡ mms = lem ∙ rw media refl in
          ((λ h. search.0 media, λ h. by_mms), inl by_mms)
      | inr plain ↦
          let by_sms : canonical_relay_policy transport_hint content ≡ sms = lem ∙ rw plain refl in
          (
            (λ h. absurd (mms_not_sms (sym by_sms ∙ h)), λ h. lem ∙ rw (search.1 h) refl),
            inr by_sms,
          )
    ]

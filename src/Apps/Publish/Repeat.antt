-- ===== src/Apps/Publish/Repeat.antt =====
-- A release that is registered twice.
use messages.Apps.Steps.Answers.{stored_app, refreshed_lookup}
use messages.Apps.Steps.OneApp.{refresh-owner}
use messages.Text.{codes}
use messages.Apps.Publish.{
  register_release, register_mutation, register_in_app, register_found, new_release, app_or_new,
}
use messages.Apps.Steps.Inversion.{register_mutation-made, known, added, RegisterMade, RegisterCase}
use messages.Apps.Manifest.{manifest_hash_of, Platform}
use messages.Apps.Store.{ok, Mutation}
use messages.Json.{string_field, Fields}
use messages.Base.{
  ◌≡◌, ℕ, ◌||◌, true, text_eq_refl, text_eq_iff, text_eq, sym, subst, some, refl,
  lookup-insert_self, lookup-insert, lookup, insert, inr, inl, [], Text, Map, Bool-cases, Bool,
}
use messages.Apps.Types.{State, Release, App}

module _ (p : Platform) (now : ℕ) (u : Text) (admin : Bool) (manifest : Fields) where
  register_mutation-known :
      (st : State) (app : App) (release : Release)
      → lookup (string_field manifest (codes "app_id")) st.apps ≡ some app
      → (text_eq app.owner_user_id u || admin) ≡ true
      → lookup (string_field manifest (codes "version")) app.releases ≡ some release
      → text_eq release.manifest_hash (manifest_hash_of p manifest) ≡ true
      → register_mutation p now u admin manifest st
        ≡ ok (record {
          state = record st { apps = insert (string_field manifest (codes "app_id")) app st.apps };
          entries = [];
          extra = 200;
        })
  unfolding register_mutation register_found app_or_new register_in_app
  register_mutation-known st app release found permitted under same =
      rw (found, permitted, under, same)

  register_release_stored :
      (app : App)
      → (release : Release) × (lookup
            (string_field manifest (codes "version"))
            (register_release p now u manifest app).releases
          ≡ some release)
        × (text_eq release.manifest_hash (manifest_hash_of p manifest) ≡ true)
  unfolding register_release new_release
  register_release_stored app = (
    _,
    refreshed_lookup (string_field manifest (codes "version")) _ _
        (lookup-insert_self (string_field manifest (codes "version")) _ app.releases),
    text_eq_refl (manifest_hash_of p manifest),
  )

  register_release-owner :
      (app : App) → (register_release p now u manifest app).owner_user_id ≡ app.owner_user_id
  unfolding register_release
  register_release-owner app = refresh-owner _

insert_present :
    (j k : Text) (app : App) (m : Map App)
    → lookup j m ≡ some app
    → lookup k (insert j app m) ≡ lookup k m
insert_present j k app m h = elim (Bool-cases (text_eq j k)) [
  | inl same ↦
      rw (lookup-insert j k app m, same)
        (sym (subst (λ x. lookup x m ≡ some app) ((text_eq_iff j k).0 same) h))
  | inr apart ↦ rw (lookup-insert j k app m, apart)
]

module _ (p : Platform) (now then_now : ℕ) (u : Text) (admin : Bool) (manifest : Fields)
    (st st' : State) (k : Text) where
  Repeated : Type 0
  Repeated =
      (m' : Mutation ℕ) × (register_mutation p then_now u admin manifest st' ≡ ok m')
      × (m'.extra ≡ 200)
      × (m'.entries ≡ [])
      × (lookup k m'.state.apps ≡ lookup k st'.apps)

  repeated :
      (app : App) (release : Release)
      → st' ≡ record st { apps = insert (string_field manifest (codes "app_id")) app st.apps }
      → (text_eq app.owner_user_id u || admin) ≡ true
      → lookup (string_field manifest (codes "version")) app.releases ≡ some release
      → text_eq release.manifest_hash (manifest_hash_of p manifest) ≡ true
      → Repeated
  unfolding Repeated
  repeated app release e permitted under same =
      let found = stored_app (string_field manifest (codes "app_id")) app st st' e in
      (
        _,
        register_mutation-known p then_now u admin manifest st' app release found permitted under
            same,
        refl,
        refl,
        insert_present (string_field manifest (codes "app_id")) k app st'.apps found,
      )

  RegisterMade-Repeated : RegisterMade p now u admin manifest st st' → Repeated
  RegisterMade-Repeated c = go c.then_made
    where
      go : RegisterCase p now u manifest st st' c.app → Repeated
      go (known release under same e) = repeated c.app release e c.permitted under same
      go (added _ e) =
          let (release, under, same) = register_release_stored p now u admin manifest c.app in
          repeated (register_release p now u manifest c.app) release e
            (subst (λ o. (text_eq o u || admin) ≡ true)
              (sym (register_release-owner p now u admin manifest c.app)) c.permitted)
            under same

-- A registration that succeeded succeeds again with the same manifest from the same user, at any
-- later time: it is answered 200 in place of 201, logs nothing, and leaves every app as it is.
pub register_mutation-again :
    (p : Platform) (now then_now : ℕ) (u : Text) (admin : Bool) (manifest : Fields) (st : State)
    (m : Mutation ℕ) (k : Text)
    → register_mutation p now u admin manifest st ≡ ok m
    → (m' : Mutation ℕ) × (register_mutation p then_now u admin manifest m.state ≡ ok m')
      × (m'.extra ≡ 200)
      × (m'.entries ≡ [])
      × (lookup k m'.state.apps ≡ lookup k m.state.apps)
unfolding Repeated
register_mutation-again p now then_now u admin manifest st m k h =
    RegisterMade-Repeated p now then_now u admin manifest st m.state k
      (register_mutation-made p now u admin manifest st m h)

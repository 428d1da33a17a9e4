-- ===== src/Apps/WellFormed/Preserved.antt =====
-- Every request keeps the registry well formed.
use messages.Apps.Steps.Inversion.{
  install_mutation-made, apps-install_release, transition_mutation-made, register_mutation-made,
  known, create_release_mutation-made, create_app_mutation-made, added, ReviewMade, ReleaseMade,
  RegisterMade, RegisterCase,
}
use messages.Apps.Steps.Serve.{serve-Handled}
use messages.Apps.Installs.{uninstall_mutation, install_mutation}
use messages.Apps.Review.Transition.{Reviewed}
use messages.Apps.View.{Reply}
use messages.Apps.Route.{serve, Endpoint}
use messages.Apps.Steps.{
  shown, reviewed, released, registered, refused, panicked, install_made, install_dropped, changed,
  app_made, Handled, Change, keyed,
}
use messages.Apps.Version.{is_semver}
use messages.Apps.Review.{is_immutable}
use messages.Text.{trim_space, codes}
use messages.Apps.Publish.{
  requested_app, draft_release, AppRequest, register_release, new_release, new_app,
}
use messages.Apps.Manifest.{validate_manifest, manifest_content_hash_of, Platform}
use messages.Apps.WellFormed.{
  loaded-IsWellFormed, refresh_latest_pointers-IsApp, IsWellFormed, IsRelease, IsApp,
}
use messages.Json.{string_field, field, end, Fields}
use messages.Apps.Store.{loaded, Server, Request, Io, ok, Mutation}
use messages.Apps.Types.{draft, State, ReviewStatus, Release, App}
use messages.Base.{
  ◌⊎◌, ◌≡◌, ◌∷◌, ◌⊎◌, ◌≡◌, ◌∷◌, [], Bool, AllEntries-lookup, AllEntries-insert, ℕ, true,
  text_eq_refl, sym, subst, refl, none, is_empty, insert, inr, false, ap, ◌∙◌, inl, arith, [], Bool,
  AllEntries-lookup, AllEntries-insert, ◌⊎◌, ◌≡◌, ◌∷◌, ℕ, true, text_eq_refl, refl, none, is_empty,
  insert, inr, false, arith, [], Text, Bool, AllEntries-lookup, AllEntries-insert,
}

validate_preview_lem : (s : Text) → is_semver s ≡ true → is_empty s ≡ false
unfolding is_semver
validate_preview_lem [] h = cc
validate_preview_lem (c ∷ s) h = refl

-- A manifest that passes the validation has an app id and a version.
pub validate_manifest_named :
    (manifest : Fields)
    → validate_manifest manifest ≡ none
    → (is_empty (string_field manifest (codes "app_id")) ≡ false)
      × (is_empty (string_field manifest (codes "version")) ≡ false)
unfolding validate_manifest
validate_manifest_named end h = cc
validate_manifest_named (field k v fs) h =
    ground (arith, validate_preview_lem (string_field (field k v fs) (codes "version")))

module _ (p : Platform) where
  -- A state with an app written anew.
  put_app :
      (state : State) (k : Text) (app : App)
      → IsWellFormed p state
      → IsApp p k app
      → (state' : State) → state'.apps ≡ insert k app state.apps
      → IsWellFormed p state'
  put_app state k app w h state' e = record {
    apps = rw e (AllEntries-insert (IsApp p) k app state.apps h w.apps);
  }

  new_release-IsRelease :
      (now : ℕ) (user_id : Text) (manifest : Fields) (status : ReviewStatus) (hash : Text)
      (app : App)
      → is_empty (string_field manifest (codes "version")) ≡ false
      → ((hash ≡ []) ⊎ (hash ≡ manifest_content_hash_of p manifest))
      → IsRelease p
          (string_field manifest (codes "version"))
          (new_release p now user_id manifest status hash app)
  unfolding new_release is_immutable
  new_release-IsRelease now user_id manifest status hash app named stamp = record {
    keyed = refl;
    named = named;
    dated = λ h. ground arith;
    intact = ground (arith, text_eq_refl (manifest_content_hash_of p manifest));
  }

  new_app-IsApp :
      (now : ℕ) (user_id app_id : Text) (manifest : Fields)
      → is_empty app_id ≡ false
      → IsApp p app_id (new_app p now user_id app_id manifest)
  unfolding new_app
  new_app-IsApp now user_id app_id manifest named = record {
    keyed = refl;
    named = named;
    releases = tt;
  }

  register_release-IsApp :
      (now : ℕ) (user_id app_id : Text) (manifest : Fields) (app : App)
      → is_empty (string_field manifest (codes "version")) ≡ false
      → IsApp p app_id app
      → IsApp p app_id (register_release p now user_id manifest app)
  unfolding register_release
  register_release-IsApp now user_id app_id manifest app named h =
      refresh_latest_pointers-IsApp p app_id _ (record {
        keyed = h.keyed;
        named = h.named;
        releases =
            AllEntries-insert (IsRelease p) _ _ app.releases
              (new_release-IsRelease now user_id manifest _ _ app named (inr refl)) h.releases;
      })

  draft_release-IsApp :
      (now : ℕ) (user_id app_id : Text) (manifest : Fields) (app : App)
      → is_empty (string_field manifest (codes "version")) ≡ false
      → IsApp p app_id app
      → IsApp p app_id (draft_release p now user_id manifest app)
  unfolding draft_release
  draft_release-IsApp now user_id app_id manifest app named h =
      refresh_latest_pointers-IsApp p app_id _ (record {
        keyed = h.keyed;
        named = h.named;
        releases =
            AllEntries-insert (IsRelease p) _ _ app.releases
              (new_release-IsRelease now user_id manifest draft [] app named (inl refl)) h.releases;
      })

  RegisterMade-IsWellFormed :
      (now : ℕ) (user_id : Text) (admin : Bool) (manifest : Fields) (st st' : State)
      → validate_manifest manifest ≡ none
      → IsWellFormed p st
      → RegisterMade p now user_id admin manifest st st'
      → IsWellFormed p st'
  RegisterMade-IsWellFormed now user_id admin manifest st st' valid w made = go made.then_made
    where
      app_id : Text
      app_id = string_field manifest (codes "app_id")

      found : IsApp p app_id made.app
      found = elim made.from [
        | inl e ↦ AllEntries-lookup (IsApp p) app_id made.app st.apps w.apps e
        | inr (_, e) ↦
            subst (IsApp p app_id) (sym e)
              (new_app-IsApp now user_id app_id manifest (validate_manifest_named manifest valid).0)
      ]

      go : RegisterCase p now user_id manifest st st' made.app → IsWellFormed p st'
      go (known release _ _ e) =
          put_app st app_id made.app w found st' (ap (λ (x : State). x.apps) e)
      go (added _ e) =
          put_app st app_id _ w
            (register_release-IsApp now user_id app_id manifest made.app
              (validate_manifest_named manifest valid).1 found)
            st' (ap (λ (x : State). x.apps) e)

  ReleaseMade-IsWellFormed :
      (now : ℕ) (user_id : Text) (admin : Bool) (app_id : Text) (manifest : Fields) (st st' : State)
      → validate_manifest manifest ≡ none
      → IsWellFormed p st
      → ReleaseMade p now user_id admin app_id manifest st st'
      → IsWellFormed p st'
  ReleaseMade-IsWellFormed now user_id admin app_id manifest st st' valid w made =
      put_app st app_id _ w
        (draft_release-IsApp now user_id app_id manifest made.app
          (validate_manifest_named manifest valid).1
          (AllEntries-lookup (IsApp p) app_id made.app st.apps w.apps made.found))
        st' (ap (λ (x : State). x.apps) made.made)

  requested_app-IsApp :
      (now : ℕ) (user_id : Text) (req : AppRequest)
      → is_empty (trim_space req.app_id) ≡ false
      → IsApp p (trim_space req.app_id) (requested_app now user_id req)
  unfolding requested_app
  requested_app-IsApp now user_id req named = record { keyed = refl; named = named; releases = tt }

  Reviewed-IsRelease :
      (v : Text) (status : ReviewStatus) (release r : Release)
      → IsRelease p v release
      → Reviewed status release r
      → IsRelease p v r
  unfolding is_immutable
  Reviewed-IsRelease v status release r h k = record {
    keyed = k.version_kept ∙ h.keyed;
    named = h.named;
    dated = λ a. k.dated (rw (← k.status_set) a);
    intact = rw (k.manifest_kept, k.hash_kept) h.intact;
  }

  ReviewMade-IsWellFormed :
      (now : ℕ) (user_id : Text) (admin : Bool) (app_id version : Text) (status : ReviewStatus)
      (only : Bool) (st st' : State)
      → IsWellFormed p st
      → ReviewMade p now user_id admin app_id version status only st st'
      → IsWellFormed p st'
  ReviewMade-IsWellFormed now user_id admin app_id version status only st st' w made =
      let h = AllEntries-lookup (IsApp p) app_id made.app st.apps w.apps made.found in
      let old =
        AllEntries-lookup (IsRelease p) version made.release made.app.releases h.releases
          made.under in
      put_app st app_id _ w
        (refresh_latest_pointers-IsApp p app_id _ (record {
          keyed = made.step.id_kept ∙ h.keyed;
          named = h.named;
          releases =
              made.step.entries (IsRelease p)
                (λ r k. Reviewed-IsRelease version status made.release r old k) h.releases;
        }))
        st' (ap (λ (x : State). x.apps) made.made)

  install_mutation-apps :
      (now : ℕ) (user_id app_id : Text) (accept : Bool) (state : State) (m : Mutation Bool)
      → install_mutation now user_id app_id accept state ≡ ok m
      → m.state.apps ≡ state.apps
  install_mutation-apps now user_id app_id accept state m e =
      let h = install_mutation-made now user_id app_id accept state m e in
      ap (λ (x : Mutation Bool). x.state.apps) h.made
      ∙ apps-install_release now user_id app_id accept h.app h.release state

  uninstall_mutation-apps :
      (now : ℕ) (user_id app_id : Text) (state : State) (m : Mutation (Unit {0}))
      → uninstall_mutation now user_id app_id state ≡ ok m
      → m.state.apps ≡ state.apps
  unfolding uninstall_mutation
  uninstall_mutation-apps now user_id app_id state m e = ground arith

  same_apps :
      (state : State)
      → IsWellFormed p state
      → (state' : State) → state'.apps ≡ state.apps
      → IsWellFormed p state'
  same_apps state w state' e = record { apps = rw e w.apps }

  module _ (io : Io) (r : Request) (e : Endpoint) (s : Server) where
    Change-IsWellFormed :
        (st : State) (x : Server × Reply)
        → IsWellFormed p st
        → Change p io r e st x s
        → IsWellFormed p x.0.saved
    Change-IsWellFormed st x w (registered manifest m _ valid made saved _) = rw saved (
        RegisterMade-IsWellFormed _ _ _ manifest st m.state valid w
          (register_mutation-made p _ _ _ manifest st m made))
    Change-IsWellFormed st x w (released app_id manifest m _ _ valid made saved _) = rw saved (
        ReleaseMade-IsWellFormed _ _ _ app_id manifest st m.state valid w
          (create_release_mutation-made p _ _ _ app_id manifest st m made))
    Change-IsWellFormed st x w (app_made req m _ _ named made saved _) = rw saved (
        put_app st (trim_space req.app_id) _ w (requested_app-IsApp _ _ req named) m.state
          (ap (λ (y : State). y.apps) (create_app_mutation-made _ _ req st m made).1))
    Change-IsWellFormed st x w (install_made app_id m _ _ made saved _) =
        rw saved (same_apps st w m.state (install_mutation-apps _ _ app_id _ st m made))
    Change-IsWellFormed st x w (install_dropped app_id m _ _ made saved _) =
        rw saved (same_apps st w m.state (uninstall_mutation-apps _ _ app_id st m made))
    Change-IsWellFormed st x w (reviewed app_id version status note only m _ _ _ made saved _) =
        rw saved (
          ReviewMade-IsWellFormed _ _ _ app_id version status only st m.state w
            (transition_mutation-made p _ _ _ app_id version status note only st m made))

    Handled-IsWellFormed :
        (x : Server × Reply)
        → IsWellFormed p s.saved
        → Handled p io r e s x
        → IsWellFormed p x.0.saved
    Handled-IsWellFormed x w (refused _ same _) = rw same w
    Handled-IsWellFormed x w (shown same _) = rw same w
    Handled-IsWellFormed x w (keyed same _ _ _) = rw same w
    Handled-IsWellFormed x w (changed c) =
        Change-IsWellFormed (loaded s) x (loaded-IsWellFormed p s w) c
    Handled-IsWellFormed x w (panicked _ same _) = rw same w

-- Whatever the request and whatever storage answers, a well-formed registry stays well formed.
pub serve-IsWellFormed :
    (p : Platform) (io : Io) (r : Request) (e : Endpoint) (s : Server)
    → IsWellFormed p s.saved
    → IsWellFormed p (serve p e io r s).0.saved
serve-IsWellFormed p io r e s w =
    Handled-IsWellFormed p io r e s (serve p e io r s) w (serve-Handled p io r e s)

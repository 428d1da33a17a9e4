-- ===== src/Apps/Steps/Consent.antt =====
-- Whose installs a request changes, and that a user consents to more permissions.
use messages.Apps.Permissions.Delta.{mem-added_permissions}
use messages.Apps.Permissions.Sort.{mem}
use messages.Apps.Pointers.{latest_approved_release}
use messages.Apps.View.{is_list, installs_of}
use messages.Apps.Permissions.{permission_delta, manifest_permissions, added_permissions}
use messages.Apps.Installs.{put_installs, new_permissions, install_release, install_of, accepts}
use messages.Apps.Manifest.{Platform}
use messages.Apps.Store.{loaded, current_user_id, Server, Request, Io}
use messages.Apps.Steps.OneInstall.{
  unchanged, taken, serve-InstallStep, installs_of-put_installs, installs_eq, install_release_cases,
  dropped, InstallStep-others, InstallStep,
}
use messages.Apps.Route.{serve, Endpoint}
use messages.Apps.Types.{State, Release, Install, App}
use messages.Base.{
  ◌&&◌, refl, not, none, lookup-insert, lookup-delete, lookup, insert, inr, inl, false, delete,
  arith, ap, [], Text, Map, List, Bool-cases, Bool, ◌&&◌, ◌||◌, ◌⊎◌, ◌≡◌, ◌∷◌, ◌∙◌, true,
  if◌then◌else◌, text_eq_refl, text_eq_iff, text_eq, sym, subst, some, refl, not, none,
  lookup-insert, lookup-delete, lookup, insert, inr, inl, if◌then◌else◌, false, if◌then◌else◌,
  delete, arith, ap, [], Text, Map, List, Bool-cases, Bool, ◌&&◌,
}

-- What has become of an install of app `k`: it is at the same version, or was moved to the release
-- that the app offers, which asks for no permission that the release before did not have.
abbrev pub MovedWithin : Map App → Text → Install → Install → Type 0
MovedWithin apps k old now_installed =
    (now_installed.installed_version ≡ old.installed_version)
    ⊎ ((app : App) × (release : Release) × (lookup k apps ≡ some app)
        × (latest_approved_release app ≡ some release)
        × (now_installed.installed_version ≡ release.version)
        × ((before : Release)
            → lookup old.installed_version app.releases ≡ some before
            → (a : Text) → mem a (manifest_permissions release.manifest) ≡ true
            → mem a (manifest_permissions before.manifest) ≡ true))

new_permissions_eq :
    (app : App) (release before : Release) (old : Install)
    → text_eq old.installed_version release.version ≡ false
    → lookup old.installed_version app.releases ≡ some before
    → new_permissions app release (some old) ≡ added_permissions before.manifest release.manifest
unfolding new_permissions permission_delta
new_permissions_eq app release before old differs found = rw (differs, found)

no_new_permissions :
    (app : App) (release before : Release) (old : Install) (a : Text)
    → text_eq old.installed_version release.version ≡ false
    → lookup old.installed_version app.releases ≡ some before
    → is_list (new_permissions app release (some old)) ≡ false
    → mem a (manifest_permissions release.manifest) ≡ true
    → mem a (manifest_permissions before.manifest) ≡ true
unfolding is_list mem
no_new_permissions app release before old a differs found none_new asked =
    go (added_permissions before.manifest release.manifest) (mem-added_permissions a before release)
      (subst (λ xs. is_list xs ≡ false) (new_permissions_eq app release before old differs found)
        none_new)
  where
    go :
        (xs : List Text)
        → mem a xs ≡ (
            mem a (manifest_permissions release.manifest)
            && not (mem a (manifest_permissions before.manifest)))
        → is_list xs ≡ false
        → mem a (manifest_permissions before.manifest) ≡ true
    go [] h q = ground arith
    go (x ∷ xs) h q = cc

some_version : (a b : Install) → some a ≡ some b → b.installed_version ≡ a.installed_version
some_version a b h = cc

module _ (io : Io) (r : Request) (st : State) (k : Text) (old then_installed : Install) where
  stored_MovedWithin :
      (app : App) (release : Release)
      → lookup k st.apps ≡ some app
      → latest_approved_release app ≡ some release
      → is_list (new_permissions app release (some old)) ≡ false
      → then_installed.installed_version ≡ release.version
      → MovedWithin st.apps k old then_installed
  stored_MovedWithin app release found latest none_new same =
      elim (Bool-cases (text_eq old.installed_version release.version)) [
        | inl stays ↦ inl (same ∙ sym ((text_eq_iff old.installed_version release.version).0 stays))
        | inr moves ↦ inr (
          app,
          release,
          found,
          latest,
          same,
          λ before under a asked.
              no_new_permissions app release before old a moves under none_new asked,
        )
      ]

  taken_MovedWithin :
      (u app_id : Text) (app : App) (release : Release) (m : Map Install)
      → accepts r.body ≡ false
      → lookup app_id st.apps ≡ some app
      → latest_approved_release app ≡ some release
      → lookup k (installs_of st u) ≡ some old
      → lookup k m ≡ some then_installed
      → (m ≡ installs_of st u)
        ⊎ (((is_list (new_permissions app release (lookup app_id (installs_of st u)))
                && not (accepts r.body))
              ≡ false)
            × (m
                ≡ insert app_id
                    (install_of io.now app_id release (lookup app_id (installs_of st u)))
                    (installs_of st u)))
      → MovedWithin st.apps k old then_installed
  unfolding install_of
  taken_MovedWithin u app_id app release m no_word found latest before after (inl q) = inl (
      some_version old then_installed
        (sym before ∙ subst (λ n. lookup k n ≡ some then_installed) q after))
  taken_MovedWithin u app_id app release m no_word found latest before after (inr (goes, q)) =
      elim (Bool-cases (text_eq app_id k)) [
        | inr apart ↦
            inl (some_version old then_installed (sym before ∙ sym (looked ∙ rw apart) ∙ after))
        | inl same ↦ here ((text_eq_iff app_id k).0 same) (sym (looked ∙ rw same) ∙ after)
      ]
    where
      x : Install
      x = install_of io.now app_id release (lookup app_id (installs_of st u))

      looked : lookup k m ≡ (if text_eq app_id k then some x else lookup k (installs_of st u))
      looked = rw q (lookup-insert app_id k x (installs_of st u))

      old_at : app_id ≡ k → lookup app_id (installs_of st u) ≡ some old
      old_at id = rw id before

      here : app_id ≡ k → some x ≡ some then_installed → MovedWithin st.apps k old then_installed
      here id e =
          stored_MovedWithin app release (subst (λ n. lookup n st.apps ≡ some app) id found) latest
            (allowed (is_list (new_permissions app release (some old))) (accepts r.body) no_word (
              subst (λ o. (is_list (new_permissions app release o) && not (accepts r.body)) ≡ false)
                (old_at id) goes))
            (some_version x then_installed e)
        where
          allowed : (b c : Bool) → c ≡ false → (b && not c) ≡ false → b ≡ false
          allowed b c f g = ground arith

  InstallStep-MovedWithin :
      (u : Text) (st' : State)
      → accepts r.body ≡ false
      → InstallStep io r st st'
      → lookup k (installs_of st u) ≡ some old
      → lookup k (installs_of st' u) ≡ some then_installed
      → MovedWithin st.apps k old then_installed
  InstallStep-MovedWithin u st' no_word (unchanged q) before after = inl (
      some_version old then_installed
        (sym before ∙ subst (λ n. lookup k n ≡ some then_installed) (installs_eq u st st' q) after))
  InstallStep-MovedWithin u st' no_word (dropped app_id q) before after =
      elim (Bool-cases (text_eq (current_user_id r) u)) [
        | inr apart ↦ inl (
            some_version old then_installed (
              sym before
              ∙ subst (λ n. lookup k n ≡ some then_installed)
                  (InstallStep-others io r st st' u apart (dropped app_id q)) after))
        | inl same ↦ inl (some_version old then_installed (kept_entry (sym (looked same) ∙ after)))
      ]
    where
      m : Map Install
      m = delete app_id (installs_of st (current_user_id r))

      looked :
          text_eq (current_user_id r) u ≡ true
          → lookup k (installs_of st' u)
            ≡ (if text_eq app_id k then none else lookup k (installs_of st u))
      looked same =
          ap (lookup k) (
            installs_eq u (put_installs (current_user_id r) m st) st' q
            ∙ rw (installs_of-put_installs (current_user_id r) u m st, same))
          ∙ subst
              (λ v.
                lookup k (delete app_id (installs_of st v))
                ≡ (if text_eq app_id k then none else lookup k (installs_of st u)))
              (sym ((text_eq_iff (current_user_id r) u).0 same))
              (lookup-delete app_id k (installs_of st u))

      kept_entry :
          (if text_eq app_id k then none else lookup k (installs_of st u)) ≡ some then_installed
          → some old ≡ some then_installed
      kept_entry h = ground arith
  InstallStep-MovedWithin u st' no_word (taken app_id app release found latest q) before after =
      elim (Bool-cases (text_eq (current_user_id r) u)) [
        | inr apart ↦ inl (
            some_version old then_installed (
              sym before
              ∙ subst (λ n. lookup k n ≡ some then_installed)
                  (InstallStep-others io r st st' u apart (taken app_id app release found latest q))
                  after))
        | inl same ↦ here ((text_eq_iff (current_user_id r) u).0 same)
      ]
    where
      here : current_user_id r ≡ u → MovedWithin st.apps k old then_installed
      here id =
          let (m, w, cases) =
            install_release_cases io.now (current_user_id r) app_id (accepts r.body) app release
              st in
          taken_MovedWithin (current_user_id r) app_id app release m no_word found latest
            (subst (λ v. lookup k (installs_of st v) ≡ some old) (sym id) before)
            (subst (λ n. lookup k n ≡ some then_installed)
              (installs_eq (current_user_id r)
                  (install_release io.now (current_user_id r) app_id (accepts r.body) app release
                    st).state
                  st' q
                ∙ rw (
                  w,
                  installs_of-put_installs (current_user_id r) (current_user_id r) m st,
                  text_eq_refl (current_user_id r),
                ))
              (subst (λ v. lookup k (installs_of st' v) ≡ some then_installed) (sym id) after))
            cases

-- What a request without the user's word makes of an install.
serve-moves_within_consent :
    (p : Platform) (io : Io) (r : Request) (e : Endpoint) (s : Server) (u k : Text)
    (old then_installed : Install)
    → accepts r.body ≡ false
    → lookup k (installs_of s.saved u) ≡ some old
    → lookup k (installs_of (serve p e io r s).0.saved u) ≡ some then_installed
    → MovedWithin (loaded s).apps k old then_installed
serve-moves_within_consent p io r e s u k old then_installed no_word before after =
    elim (serve-InstallStep p io r e s) [
      | inl q ↦ inl (
          some_version old then_installed (
            sym before
            ∙ subst (λ n. lookup k n ≡ some then_installed)
                (installs_eq u s.saved (serve p e io r s).0.saved q) after))
      | inr step ↦
          InstallStep-MovedWithin io r (loaded s) k old then_installed u (serve p e io r s).0.saved
            no_word step
            (subst (λ n. lookup k n ≡ some old) (sym (installs_eq u s.saved (loaded s) refl))
              before)
            after
    ]

-- Without the user's word no request moves an install to a release that asks for more: whatever is
-- asked with a body that does not accept permission changes, an install whose release the app has
-- is at its version still, or at the release that the app offers, and then a permission of that
-- release is one of the release before.
pub serve-asks_consent :
    (p : Platform) (io : Io) (r : Request) (e : Endpoint) (s : Server) (u k : Text)
    (old then_installed : Install) (app : App) (before : Release) (a : Text)
    → accepts r.body ≡ false
    → lookup k (installs_of s.saved u) ≡ some old
    → lookup k (installs_of (serve p e io r s).0.saved u) ≡ some then_installed
    → lookup k (loaded s).apps ≡ some app
    → lookup old.installed_version app.releases ≡ some before
    → (then_installed.installed_version ≡ old.installed_version)
      ⊎ ((release : Release) × (latest_approved_release app ≡ some release)
          × (then_installed.installed_version ≡ release.version)
          × ((not (mem a (manifest_permissions release.manifest))
                || mem a (manifest_permissions before.manifest))
              ≡ true))
serve-asks_consent p io r e s u k old then_installed app before a no_word h h' at under =
    go (serve-moves_within_consent p io r e s u k old then_installed no_word h h')
  where
    by_cases : (b c : Bool) → (b ≡ true → c ≡ true) → (not b || c) ≡ true
    by_cases true c f = f refl
    by_cases false c f = refl

    go :
        MovedWithin (loaded s).apps k old then_installed
        → (then_installed.installed_version ≡ old.installed_version)
          ⊎ ((release : Release) × (latest_approved_release app ≡ some release)
              × (then_installed.installed_version ≡ release.version)
              × ((not (mem a (manifest_permissions release.manifest))
                    || mem a (manifest_permissions before.manifest))
                  ≡ true))
    go (inl same) = inl same
    go (inr (app', release, at', latest, moved, allowed)) = inr (
      release,
      subst (λ x. latest_approved_release x ≡ some release) (sym one) latest,
      moved,
      by_cases _ _ (
          allowed before
            (subst (λ x. lookup old.installed_version x.releases ≡ some before) one under) a),
    )
      where
        same_app : (x y : App) → some x ≡ some y → x ≡ y
        same_app x y q = cc

        one : app ≡ app'
        one = same_app app app' (sym at ∙ at')

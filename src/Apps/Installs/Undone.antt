-- ===== src/Apps/Installs/Undone.antt =====
-- What an install writes, and that an uninstall takes it back.
use messages.Apps.Pointers.{latest_approved_release}
use messages.Apps.Steps.OneInstall.{installs_of-put_installs}
use messages.Apps.Store.{install_removed, ok, Mutation}
use messages.Apps.Steps.Inversion.{install_mutation-made, InstallMade}
use messages.Apps.View.{is_list, installs_of}
use messages.Apps.Installs.{
  uninstall_mutation, install_mutation, put_installs, new_permissions, install_release, install_of,
}
use messages.Apps.Types.{Install, State, Release, App}
use messages.Base.{
  ◌∙◌, ◌&&◌, ◌∙◌, text_eq_refl, text_eq, subst, some, refl, none, lookup-insert_self, false, delete,
  Text, Map, Bool-cases, Bool, ◌&&◌, ◌≡◌, ◌∷◌, ◌≡◌, ◌∷◌, ℕ, true, not, lookup-insert, lookup-delete,
  lookup, insert, inr, inl, ap, [], Text, Bool-cases, Bool, ◌∙◌, ◌&&◌, ◌∙◌, text_eq_refl, text_eq,
  subst, some, refl, none, lookup-insert_self, false, delete, ap, [], Text, Bool-cases, Bool, ◌&&◌,
  ◌≡◌, ◌≡◌, ◌∷◌, ℕ, true, not, lookup-insert, lookup-delete, lookup, insert, inr, inl, false,
  delete, [], Bool-cases, Bool, ◌&&◌, ◌∙◌, text_eq_refl, text_eq, subst, some, refl, none,
  lookup-insert_self, ap, Text, Bool-cases, Bool, ◌&&◌, ◌≡◌, ℕ, true, not, lookup, insert, inr, inl,
  false, Text, Bool-cases, Bool, ◌&&◌,
}

module _ (now : ℕ) (u k : Text) (accept : Bool) (st : State) where
  install_release-writes :
      (app : App) (release : Release)
      → (install_release now u k accept app release st).extra ≡ false
      → (install_release now u k accept app release st).state
        ≡ put_installs u
            (insert k (install_of now k release (lookup k (installs_of st u))) (installs_of st u))
            st
  unfolding install_release
  install_release-writes app release h =
      elim (Bool-cases
        (is_list (new_permissions app release (lookup k (installs_of st u))) && not accept)) [
          | inl held ↦ absurd (never (rw held at h))
          | inr goes ↦ rw goes
        ]
    where
      never : true ≡ false → ⊥
      never q = cc

delete-insert_lookups :
    (k j : Text) (x : Install) (m m' m'' : Map Install)
    → text_eq k j ≡ false
    → m' ≡ insert k x m
    → m'' ≡ delete k m'
    → (lookup k m'' ≡ none) × (lookup j m'' ≡ lookup j m)
delete-insert_lookups k j x m m' m'' apart h h' = (
  rw (h', lookup-delete k k m', text_eq_refl k),
  rw (h', lookup-delete k j m', apart, h, lookup-insert k j x m, apart),
)

uninstall_mutation_done :
    (now : ℕ) (u k : Text) (st : State) (x : Install)
    → lookup k (installs_of st u) ≡ some x
    → (m : Mutation (Unit {0})) × (uninstall_mutation now u k st ≡ ok m)
      × (installs_of m.state u ≡ delete k (installs_of st u))
unfolding uninstall_mutation
uninstall_mutation_done now u k st x h = (
  record {
    state = put_installs u (delete k (installs_of st u)) st;
    entries =
        (record {
          app_id = k;
          version = [];
          actor_user_id = u;
          action = install_removed;
          note = [];
          created_at = now;
        })
        ∷ [];
    extra = tt;
  },
  rw h,
  rw (installs_of-put_installs u u (delete k (installs_of st u)) st, text_eq_refl u),
)

-- If an install succeeds and needed no further consent, the user has the release that the app
-- offers, and an uninstall after it succeeds: it takes the install away, and leaves the user with
-- the other installs that were there before both.
pub uninstall_mutation-install_mutation :
    (now then_now : ℕ) (u k j : Text) (accept : Bool) (st : State) (m : Mutation Bool)
    → install_mutation now u k accept st ≡ ok m
    → m.extra ≡ false
    → text_eq k j ≡ false
    → ((app : App) × (release : Release) × (install : Install) × (lookup k st.apps ≡ some app)
        × (latest_approved_release app ≡ some release)
        × (lookup k (installs_of m.state u) ≡ some install)
        × (install.installed_version ≡ release.version))
      × ((m' : Mutation (Unit {0})) × (uninstall_mutation then_now u k m.state ≡ ok m')
          × (lookup k (installs_of m'.state u) ≡ none)
          × (lookup j (installs_of m'.state u) ≡ lookup j (installs_of st u)))
uninstall_mutation-install_mutation now then_now u k j accept st m h said apart =
    ((c.app, c.release, x, c.found, c.latest, present, unfold install_of in refl), removed)
  where
    c : InstallMade now u k accept st m
    c = install_mutation-made now u k accept st m h

    x : Install
    x = install_of now k c.release (lookup k (installs_of st u))

    has :
        (n : Mutation Bool)
        → n ≡ install_release now u k accept c.app c.release st
        → n.extra ≡ false
        → installs_of n.state u ≡ insert k x (installs_of st u)
    has n q e =
        ap (λ (y : Mutation Bool). installs_of y.state u) q
        ∙ ap (λ (y : State). installs_of y u)
            (install_release-writes now u k accept st c.app c.release
              (subst (λ (y : Mutation Bool). y.extra ≡ false) q e))
        ∙ rw (installs_of-put_installs u u (insert k x (installs_of st u)) st, text_eq_refl u)

    now_has : installs_of m.state u ≡ insert k x (installs_of st u)
    now_has = has m c.made said

    present : lookup k (installs_of m.state u) ≡ some x
    present = rw now_has (lookup-insert_self k x (installs_of st u))

    removed :
        (m' : Mutation (Unit {0})) × (uninstall_mutation then_now u k m.state ≡ ok m')
        × (lookup k (installs_of m'.state u) ≡ none)
        × (lookup j (installs_of m'.state u) ≡ lookup j (installs_of st u))
    removed =
        let (m', done, gone) = uninstall_mutation_done then_now u k m.state x present in
        let (absent, kept) =
          delete-insert_lookups k j x (installs_of st u) (installs_of m.state u)
            (installs_of m'.state u) apart now_has gone in
        (m', done, absent, kept)

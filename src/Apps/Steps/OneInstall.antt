-- ===== src/Apps/Steps/OneInstall.antt =====
-- What a request does to the installs of the users, as steps.
use messages.Apps.Steps.Serve.{serve-Handled}
use messages.Apps.Pointers.{latest_approved_release}
use messages.Apps.Installs.{
  uninstall_mutation, put_installs, new_permissions, install_release, install_of, accepts,
}
use messages.Apps.View.{is_list, installs_of, Reply}
use messages.Apps.Steps.Inversion.{
  transition_mutation-made, register_mutation-made, known, install_mutation-made,
  create_release_mutation-made, create_app_mutation-made, added, RegisterMade, RegisterCase,
}
use messages.Apps.Manifest.{Platform}
use messages.Apps.Store.{ok, loaded, is_admin, current_user_id, Server, Request, Mutation, Io}
use messages.Json.{Fields}
use messages.Apps.Route.{serve, Endpoint}
use messages.Apps.Steps.{
  shown, reviewed, released, registered, refused, panicked, keyed, install_made, install_dropped,
  changed, app_made, Handled, Change,
}
use messages.Apps.Types.{State, Release, Install, App}
use messages.Base.{
  ◌⊎◌, ◌≡◌, ◌∙◌, ℕ, if◌then◌else◌, text_eq, some, refl, not, lookup-insert, lookup, insert, inr,
  inl, if◌then◌else◌, false, if◌then◌else◌, delete, arith, ap, Text, Map, Bool-cases, Bool, ◌&&◌,
}

pub installs_of-put_installs :
    (u v : Text) (m : Map Install) (st : State)
    → installs_of (put_installs u m st) v ≡ (if text_eq u v then m else installs_of st v)
unfolding installs_of put_installs
installs_of-put_installs u v m st = ground (arith, lookup-insert u v m st.installs)

-- From the installs before a change to those after it.
pub data InstallStep (io : Io) (r : Request) (st st' : State) : Type 0 where
  unchanged : st'.installs ≡ st.installs → InstallStep io r st st'
  taken :
      (app_id : Text) (app : App) (release : Release)
      → lookup app_id st.apps ≡ some app
      → latest_approved_release app ≡ some release
      → st'.installs
        ≡ (install_release io.now
            (current_user_id r)
            app_id
            (accepts r.body)
            app
            release
            st).state.installs
      → InstallStep io r st st'
  dropped :
      (app_id : Text)
      → st'.installs
        ≡ (put_installs
            (current_user_id r)
            (delete app_id (installs_of st (current_user_id r)))
            st).installs
      → InstallStep io r st st'

module _ (p : Platform) (io : Io) (r : Request) (e : Endpoint) where
  RegisterMade-installs :
      (user_id : Text) (manifest : Fields) (st st' : State)
      → RegisterMade p io.now user_id (is_admin r) manifest st st'
      → st'.installs ≡ st.installs
  RegisterMade-installs user_id manifest st st' c = go c.then_made
    where
      go : RegisterCase p io.now user_id manifest st st' c.app → st'.installs ≡ st.installs
      go (known release under _ h) = ap (λ (x : State). x.installs) h
      go (added free h) = ap (λ (x : State). x.installs) h

  uninstall_state :
      (app_id : Text) (st : State) (m : Mutation (Unit {0}))
      → uninstall_mutation io.now (current_user_id r) app_id st ≡ ok m
      → m.state
        ≡ put_installs (current_user_id r) (delete app_id (installs_of st (current_user_id r))) st
  unfolding uninstall_mutation
  uninstall_state app_id st m h = ground arith

  Change-InstallStep :
      (st : State) (x : Server × Reply) (s : Server)
      → Change p io r e st x s
      → InstallStep io r st x.0.saved
  Change-InstallStep st x s (registered manifest m _ _ h save _) = unchanged (
      rw save (
        RegisterMade-installs _ manifest st m.state
          (register_mutation-made p io.now _ (is_admin r) manifest st m h)))
  Change-InstallStep st x s (released app_id manifest m _ named _ h save _) = unchanged (
      rw (save, (create_release_mutation-made p io.now _ (is_admin r) app_id manifest st m h).made))
  Change-InstallStep st x s (app_made req m _ named _ h save _) =
      unchanged (rw (save, (create_app_mutation-made io.now (current_user_id r) req st m h).1))
  Change-InstallStep st x s (install_made app_id m _ _ h save _) =
      let c = install_mutation-made io.now (current_user_id r) app_id (accepts r.body) st m h in
      taken app_id c.app c.release c.found c.latest (rw (save, c.made))
  Change-InstallStep st x s (install_dropped app_id m _ _ h save _) =
      dropped app_id (rw (save, uninstall_state app_id st m h))
  Change-InstallStep st x s
        (reviewed app_id version status note admin_only m named only live h save _) =
      unchanged (
        rw (
          save,
          (transition_mutation-made p io.now _ (is_admin r) app_id version status note admin_only st
              m h).made,
        ))

  -- Only the installs can differ from what was saved: a load changes the pointers of the apps.
  pub serve-InstallStep :
      (s : Server)
      → ((serve p e io r s).0.saved.installs ≡ s.saved.installs)
        ⊎ InstallStep io r (loaded s) (serve p e io r s).0.saved
  serve-InstallStep s = go (serve p e io r s) (serve-Handled p io r e s)
    where
      go :
          (x : Server × Reply)
          → Handled p io r e s x
          → (x.0.saved.installs ≡ s.saved.installs) ⊎ InstallStep io r (loaded s) x.0.saved
      go x (refused a q _) = inl (rw q)
      go x (shown q _) = inl (rw q)
      go x (keyed q _ _ _) = inl (rw q)
      go x (changed c) = inr (Change-InstallStep (loaded s) x s c)
      go x (panicked _ q _) = inl (rw q)

-- The map of installs that a state is read through.
pub installs_eq :
    (u : Text) (st st' : State) → st'.installs ≡ st.installs → installs_of st' u ≡ installs_of st u
unfolding installs_of
installs_eq u st st' h = rw h

-- The two results of an install: without consent nothing is written but the user's own map.
pub install_release_cases :
    (now : ℕ) (u app_id : Text) (accept : Bool) (app : App) (release : Release) (st : State)
    → (m : Map Install) × ((install_release now u app_id accept app release st).state
        ≡ put_installs u m st)
      × ((m ≡ installs_of st u)
          ⊎ (((is_list (new_permissions app release (lookup app_id (installs_of st u)))
                  && not accept)
                ≡ false)
              × (m
                  ≡ insert app_id
                      (install_of now app_id release (lookup app_id (installs_of st u)))
                      (installs_of st u))))
unfolding install_release
install_release_cases now u app_id accept app release st =
    elim (Bool-cases
      (is_list (new_permissions app release (lookup app_id (installs_of st u))) && not accept)) [
        | inl asks ↦ (_, rw asks, inl refl)
        | inr goes ↦ (_, rw goes, inr (goes, refl))
      ]

install_release-others :
    (now : ℕ) (u v app_id : Text) (accept : Bool) (app : App) (release : Release) (st : State)
    → text_eq u v ≡ false
    → installs_of (install_release now u app_id accept app release st).state v ≡ installs_of st v
install_release-others now u v app_id accept app release st h =
    let (m, q, _) = install_release_cases now u app_id accept app release st in
    rw (q, installs_of-put_installs u v m st, h)

pub InstallStep-others :
    (io : Io) (r : Request) (st st' : State) (v : Text)
    → text_eq (current_user_id r) v ≡ false
    → InstallStep io r st st'
    → installs_of st' v ≡ installs_of st v
InstallStep-others io r st st' v h (unchanged q) = installs_eq v st st' q
InstallStep-others io r st st' v h (taken app_id app release _ _ q) =
    installs_eq v _ st' q
    ∙ install_release-others io.now (current_user_id r) v app_id (accepts r.body) app release st h
InstallStep-others io r st st' v h (dropped app_id q) =
    let m = delete app_id (installs_of st (current_user_id r)) in
    installs_eq v (put_installs (current_user_id r) m st) st' q
    ∙ rw (installs_of-put_installs (current_user_id r) v m st, h)

-- No request changes what another user has installed.
pub serve-others_keep_installs :
    (p : Platform) (io : Io) (r : Request) (e : Endpoint) (s : Server) (v : Text)
    → text_eq (current_user_id r) v ≡ false
    → installs_of (serve p e io r s).0.saved v ≡ installs_of s.saved v
serve-others_keep_installs p io r e s v h = elim (serve-InstallStep p io r e s) [
  | inl q ↦ installs_eq v s.saved (serve p e io r s).0.saved q
  | inr step ↦
      InstallStep-others io r (loaded s) (serve p e io r s).0.saved v h step
      ∙ installs_eq v s.saved (loaded s) refl
]

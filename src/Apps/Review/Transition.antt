-- ===== src/Apps/Review/Transition.antt =====
-- What a transition does to an app: it writes one release, and changes its review alone.
use messages.Apps.Store.{ok}
use messages.Apps.Pointers.{latest_approved_release}
use messages.Apps.Permissions.{is_permission_expansion, extract_permissions}
use messages.Apps.Review.{put_release, mark_expansion, approve_release, apply_transition}
use messages.Apps.Manifest.{Platform}
use messages.Apps.Types.{
  under_review, suspended, submitted, revoked, rejected, needs_changes, is_approved, draft,
  approved, ReviewStatus, Release, App,
}
use messages.Base.{
  ◌&&◌, lookup-insert, lookup, is_some, inr, inl, false, arith, Text, Option, List, Bool-cases,
  AllEntries-insert, AllEntries, ◌&&◌, ◌⊎◌, ◌≡◌, ◌∙◌, ℕ, true, text_eq, sym, subst, some, refl, not,
  none, lookup-insert_self, lookup-insert, lookup, is_some, inr, inl, false, arith, Text, Option,
  List, Bool-cases, AllEntries-insert, AllEntries, ◌&&◌,
}

-- The release after a review: its content is as before.
pub record Reviewed (status : ReviewStatus) (release release' : Release) : Type 0 where
  pub status_set : release'.review_status ≡ status
  pub version_kept : release'.version ≡ release.version
  pub manifest_kept : release'.manifest ≡ release.manifest
  pub source_kept : release'.source_type ≡ release.source_type
  pub visibility_kept : release'.visibility ≡ release.visibility
  pub publisher_kept : release'.publisher_user_id ≡ release.publisher_user_id
  pub hash_kept : release'.manifest_content_hash ≡ release.manifest_content_hash
  pub dated : is_approved status ≡ true → is_some release'.published_at ≡ true

pub record Transitioned (version : Text) (status : ReviewStatus) (release : Release)
    (app app' : App) : Type 1 where
  pub release' : Release
  pub reviewed : Reviewed status release release'
  pub stored : lookup version app'.releases ≡ some release'
  pub others :
      (j : Text) → text_eq version j ≡ false → lookup j app'.releases ≡ lookup j app.releases
  pub owner_kept : app'.owner_user_id ≡ app.owner_user_id
  pub id_kept : app'.app_id ≡ app.app_id
  -- A predicate on the entries that no review of the release breaks still holds.
  pub entries :
      (P : Text → Release → Type 0)
      → ((r : Release) → Reviewed status release r → P version r)
      → AllEntries P app.releases
      → AllEntries P app'.releases

module _ (version : Text) (status : ReviewStatus) (release : Release) (app : App) where
  pub put_release-Transitioned :
      (r : Release)
      → Reviewed status release r
      → Transitioned version status release app (put_release app version r)
  unfolding put_release
  put_release-Transitioned r h = record {
    release' = r;
    reviewed = h;
    stored = lookup-insert_self version r app.releases;
    others = λ j ne. rw (lookup-insert version j r app.releases, ne);
    owner_kept = refl;
    id_kept = refl;
    entries = λ P keep all. AllEntries-insert P version r app.releases (keep r h) all;
  }

  -- The release is written twice.
  put_twice-Transitioned :
      (q r : Release)
      → Reviewed status release q
      → Reviewed status release r
      → Transitioned version status release app (put_release (put_release app version q) version r)
  unfolding put_release
  put_twice-Transitioned q r hq h = record {
    release' = r;
    reviewed = h;
    stored = lookup-insert_self version r _;
    others =
        λ j ne. rw (lookup-insert version j r _, ne, lookup-insert version j q app.releases, ne);
    owner_kept = refl;
    id_kept = refl;
    entries = λ P keep all.
        AllEntries-insert P version r _ (keep r h)
          (AllEntries-insert P version q app.releases (keep q hq) all);
  }

mark_expansion_cases :
    (version : Text) (release : Release) (app : App)
    → (mark_expansion version release app ≡ app)
      ⊎ ((ps : List Text) × (mark_expansion version release app
            ≡ put_release app version
                (record release { requires_reconsent = true; previous_permissions = ps })))
unfolding mark_expansion
mark_expansion_cases version release app = go (latest_approved_release app) refl
  where
    go :
        (o : Option Release)
        → latest_approved_release app ≡ o
        → (mark_expansion version release app ≡ app)
          ⊎ ((ps : List Text) × (mark_expansion version release app
                ≡ put_release app version
                    (record release { requires_reconsent = true; previous_permissions = ps })))
    go none e = inl (rw (e, mark_expansion))
    go (some previous) e =
        elim (Bool-cases (
          not (text_eq previous.version version)
          && is_permission_expansion (extract_permissions previous.manifest)
              (extract_permissions release.manifest))) [
                | inl grows ↦
                    inr (extract_permissions previous.manifest, rw (e, mark_expansion, grows))
                | inr same ↦ inl (rw (e, mark_expansion, same))
              ]

module _ (p : Platform) (now : ℕ) (note version : Text) (app : App) (release : Release) where
  approve-Reviewed : Reviewed approved release (approve_release p now release)
  unfolding approve_release
  approve-Reviewed = record {
    status_set = refl;
    version_kept = refl;
    manifest_kept = refl;
    source_kept = refl;
    visibility_kept = refl;
    publisher_kept = refl;
    hash_kept = refl;
    dated = λ h. refl;
  }

  marked-Reviewed :
      (r : Release) (ps : List Text)
      → Reviewed approved release r
      → Reviewed approved release
          (record r { requires_reconsent = true; previous_permissions = ps })
  marked-Reviewed r ps h = record {
    status_set = h.status_set;
    version_kept = h.version_kept;
    manifest_kept = h.manifest_kept;
    source_kept = h.source_kept;
    visibility_kept = h.visibility_kept;
    publisher_kept = h.publisher_kept;
    hash_kept = h.hash_kept;
    dated = h.dated;
  }

  approved-Transitioned :
      (app' : App)
      → app'
        ≡ mark_expansion version
            (approve_release p now release)
            (put_release app version (approve_release p now release))
      → Transitioned version approved release app app'
  approved-Transitioned app' e =
      elim (mark_expansion_cases version (approve_release p now release)
        (put_release app version (approve_release p now release))) [
          | inl same ↦
              subst (Transitioned version approved release app) (sym (e ∙ same))
                (put_release-Transitioned version approved release app _ approve-Reviewed)
          | inr (ps, marked) ↦
              subst (Transitioned version approved release app) (sym (e ∙ marked)) (
                put_twice-Transitioned version approved release app _ _ approve-Reviewed
                  (marked-Reviewed _ ps approve-Reviewed))
        ]

  ok_injective : (a b : App) → ok a ≡ ok b → a ≡ b
  ok_injective a b h = cc

  -- The release with its review written anew and nothing else.
  abbrev with_review : ReviewStatus → Release → Release
  with_review status r = record release {
    review_status = status;
    review_note = r.review_note;
    submitted_at = r.submitted_at;
    reviewed_at = r.reviewed_at;
    revoked_at = r.revoked_at;
  }

  with_review-Reviewed :
      (status : ReviewStatus) (r : Release)
      → is_approved status ≡ false
      → Reviewed status release (with_review status r)
  with_review-Reviewed status r no_approval = record {
    status_set = refl;
    version_kept = refl;
    manifest_kept = refl;
    source_kept = refl;
    visibility_kept = refl;
    publisher_kept = refl;
    hash_kept = refl;
    dated = λ h. cc;
  }

  plain-Transitioned :
      (status : ReviewStatus) (r : Release) (app' : App)
      → is_approved status ≡ false
      → r ≡ with_review status r
      → ok (put_release app version r) ≡ ok app'
      → Transitioned version status release app app'
  plain-Transitioned status r app' no_approval same e =
      subst (Transitioned version status release app) (ok_injective _ _ e) (
        put_release-Transitioned version status release app r
          (subst (Reviewed status release) (sym same) (with_review-Reviewed status r no_approval)))

  -- Every transition that succeeds is one of a release.
  pub apply_transition-Transitioned :
      (status : ReviewStatus) (app' : App)
      → apply_transition p now note version app release status ≡ ok app'
      → Transitioned version status release app app'
  unfolding apply_transition
  apply_transition-Transitioned draft app' e = cc
  apply_transition-Transitioned approved app' e = approved-Transitioned app' (ground arith)
  apply_transition-Transitioned submitted app' e = plain-Transitioned submitted _ app' refl refl e
  apply_transition-Transitioned under_review app' e =
      plain-Transitioned under_review _ app' refl refl e
  apply_transition-Transitioned needs_changes app' e =
      plain-Transitioned needs_changes _ app' refl refl e
  apply_transition-Transitioned rejected app' e = plain-Transitioned rejected _ app' refl refl e
  apply_transition-Transitioned suspended app' e = plain-Transitioned suspended _ app' refl refl e
  apply_transition-Transitioned revoked app' e = plain-Transitioned revoked _ app' refl refl e

-- A transition that succeeds writes the release under its version with the status that was asked
-- for, its manifest, version, source, visibility and publisher as before; the release of any other
-- version and the owner stay.
pub apply_transition_lem :
    (p : Platform) (now : ℕ) (note version : Text) (app app' : App) (release : Release)
    (status : ReviewStatus) (j : Text)
    → text_eq version j ≡ false
    → apply_transition p now note version app release status ≡ ok app'
    → ((release' : Release) × (lookup version app'.releases ≡ some release')
        × (release'.review_status ≡ status)
        × (release'.manifest ≡ release.manifest)
        × (release'.version ≡ release.version)
        × (release'.source_type ≡ release.source_type)
        × (release'.visibility ≡ release.visibility)
        × (release'.publisher_user_id ≡ release.publisher_user_id))
      × (lookup j app'.releases ≡ lookup j app.releases)
      × (app'.owner_user_id ≡ app.owner_user_id)
apply_transition_lem p now note version app app' release status j apart done =
    let t = apply_transition-Transitioned p now note version app release status app' done in
    let w = t.reviewed in
    (
      (
        t.release', t.stored, w.status_set, w.manifest_kept, w.version_kept, w.source_kept,
        w.visibility_kept, w.publisher_kept,
      ),
      t.others j apart,
      t.owner_kept,
    )

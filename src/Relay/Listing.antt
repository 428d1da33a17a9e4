-- ===== src/Relay/Listing.antt =====
-- What the list of available jobs holds, and what the driver's treatment of NULL means for a job
-- that no device has taken.
use messages.Relay.Handlers.{Platform}
use messages.Text.{trim_space}
use messages.Relay.Devices.{database_error, has_passed}
use messages.Text.Numbers.{atoi}
use messages.Relay.Handlers.{
  Platform, serve_relay, refused, post_accept, listed_or_failed, list_limit, list_available,
  jobs_listed, get_available, accept, Tables,
}
use messages.Relay.Jobs.{
  scan_job, select_listed, scan_text, scan_jobs, queued, load_job_record_for_actor, load_job_record,
  list_queued_jobs, job_with, job_before, is_listed, insert_by_age, by_age, RelayJob, JobRow,
}
use messages.Base.{
  ◌≤◌, ◌≡◌, ◌∷◌, ℤ, ℕ, zero, true, text_eq_iff, take, suc, subst, some_eq, some, refl, pos, none,
  negsuc, ltb, lookup, length, is_empty, inr, inl, false, arith, ap, [], Text, Option, Map, List,
  Bool-cases, Bool, AllEntries, All,
}

-- A job that a device of the user may take now.
unfoldable pub IsOpen : ℕ → Text → JobRow → Type 0
IsOpen now user row =
    (row.status ≡ queued) × (has_passed now row.expires_at ≡ false) × (row.creator_user_id ≡ user)

unfoldable pub IsOpenJob : ℕ → Text → RelayJob → Type 0
IsOpenJob now user job =
    (job.status ≡ queued) × (has_passed now job.expires_at ≡ false) × (job.creator_user_id ≡ user)

abbrev AllRows : (JobRow → Type 0) → Map JobRow → Type 0
AllRows P jobs = AllEntries (λ _ row. P row) jobs

is_listed-IsOpen :
    (now : ℕ) (user : Text) (row : JobRow)
    → is_empty (trim_space user) ≡ false
    → is_listed now user row ≡ true
    → IsOpen now user row
unfolding IsOpen
is_listed-IsOpen now user row named h =
    ground (arith, text_eq_iff row.status queued, text_eq_iff row.creator_user_id user)

module _ (P : JobRow → Type 0) where
  AllRows-insert_by_age :
      (x : Text × JobRow) (jobs : Map JobRow)
      → P x.1
      → AllRows P jobs
      → AllRows P (insert_by_age x jobs)
  AllRows-insert_by_age x [] px h = (px, tt)
  AllRows-insert_by_age x (y ∷ ys) px h = elim (Bool-cases (ltb y.1.created_at x.1.created_at)) [
    | inl older ↦ rw older (h.0, AllRows-insert_by_age x ys px h.1)
    | inr younger ↦ rw younger (px, h)
  ]

  AllRows-by_age : (jobs : Map JobRow) → AllRows P jobs → AllRows P (by_age jobs)
  unfolding by_age
  AllRows-by_age [] h = tt
  AllRows-by_age (x ∷ xs) h = AllRows-insert_by_age x (by_age xs) h.0 (AllRows-by_age xs h.1)

  AllRows-take : (n : ℕ) (jobs : Map JobRow) → AllRows P jobs → AllRows P (take n jobs)
  AllRows-take zero jobs h = tt
  AllRows-take (suc n) [] h = tt
  AllRows-take (suc n) (x ∷ xs) h = (h.0, AllRows-take n xs h.1)

select_listed-IsOpen :
    (now : ℕ) (user : Text) (jobs : Map JobRow)
    → is_empty (trim_space user) ≡ false
    → AllRows (IsOpen now user) (select_listed now user jobs)
unfolding select_listed
select_listed-IsOpen now user [] named = tt
select_listed-IsOpen now user ((id, row) ∷ jobs) named =
    elim (Bool-cases (is_listed now user row)) [
      | inl fits ↦
          rw fits
            (is_listed-IsOpen now user row named fits, select_listed-IsOpen now user jobs named)
      | inr hidden ↦ rw hidden (select_listed-IsOpen now user jobs named)
    ]

length-take_bound {ℓ} : {A : Type ℓ} (n : ℕ) (xs : List A) → length (take n xs) ≤ n
length-take_bound zero xs = omega arith
length-take_bound (suc n) [] = omega arith
length-take_bound (suc n) (x ∷ xs) = omega (arith, length-take_bound n xs)

scan_job-IsOpen :
    (null_text : Option Text) (now : ℕ) (user id : Text) (row : JobRow) (job : RelayJob)
    → IsOpen now user row
    → scan_job null_text id row ≡ some job
    → IsOpenJob now user job
unfolding IsOpen IsOpenJob scan_job
scan_job-IsOpen null_text now user id row job h e =
    go (scan_text null_text row.executing_device_id) e
  where
    go : (o : Option Text) → job_with id row o ≡ some job → IsOpenJob now user job
    go none e = cc
    go (some d) e = subst (IsOpenJob now user) (some_eq _ job e) h

scan_jobs-IsOpen :
    (null_text : Option Text) (now : ℕ) (user : Text) (rows : Map JobRow) (jobs : List RelayJob)
    → AllRows (IsOpen now user) rows
    → scan_jobs null_text rows ≡ some jobs
    → All (IsOpenJob now user) jobs × (length jobs ≡ length rows)
unfolding scan_jobs
scan_jobs-IsOpen null_text now user [] jobs h e =
    subst (λ x. All (IsOpenJob now user) x × (length x ≡ 0)) (some_eq _ jobs e) (tt, refl)
scan_jobs-IsOpen null_text now user ((id, row) ∷ rows) jobs h e =
    go (scan_job null_text id row) (scan_jobs null_text rows) refl refl
      (λ others er. scan_jobs-IsOpen null_text now user rows others h.1 er) e
  where
    go :
        (o : Option RelayJob) (rest : Option (List RelayJob))
        → scan_job null_text id row ≡ o
        → scan_jobs null_text rows ≡ rest
        → ((others : List RelayJob)
            → scan_jobs null_text rows ≡ some others
            → All (IsOpenJob now user) others × (length others ≡ length rows))
        → elim o [ none ↦ none | some job ↦ job_before job rest ] ≡ some jobs
        → All (IsOpenJob now user) jobs × (length jobs ≡ suc (length rows))
    go none rest eo er below e = cc
    go (some job) none eo er below e = cc
    go (some job) (some others) eo er below e =
        let rest = below others er in
        subst (λ x. All (IsOpenJob now user) x × (length x ≡ suc (length rows)))
          (some_eq (job ∷ others) jobs e)
          ((scan_job-IsOpen null_text now user id row job h.0 eo, rest.0), ap suc rest.1)

module _ (p : Platform) (require_attestation : Bool) where
  listed_eq : (a b : List RelayJob) → jobs_listed a ≡ jobs_listed b → a ≡ b
  listed_eq a b h = cc

  -- For a user whose name is not blank, every job that is listed as available is waiting, has not
  -- expired, and is the user's own, and no more than a hundred are listed.
  pub serve_relay-listed :
      (now : ℕ) (user limit : Text) (t : Tables) (jobs : List RelayJob)
      → is_empty (trim_space user) ≡ false
      → (serve_relay p require_attestation now (some user) (get_available limit) t).1
        ≡ jobs_listed jobs
      → All (IsOpenJob now user) jobs × (length jobs ≤ 100)
  unfolding serve_relay list_available list_queued_jobs
  serve_relay-listed now user limit t jobs named h =
      let rows = take (list_limit (atoi limit)) (by_age (select_listed now user t.jobs)) in
      go (scan_jobs p.null_text rows) refl h
    where
      bound : (o : Option ℤ) → list_limit o ≤ 100
      bound none = omega arith
      bound (some (negsuc n)) = omega arith
      bound (some (pos n)) = ground arith

      go :
          (o : Option (List RelayJob))
          → scan_jobs p.null_text
              (take (list_limit (atoi limit)) (by_age (select_listed now user t.jobs)))
            ≡ o
          → listed_or_failed o ≡ jobs_listed jobs
          → All (IsOpenJob now user) jobs × (length jobs ≤ 100)
      go none e h = cc
      go (some found) e h =
          let rows = by_age (select_listed now user t.jobs) in
          let all =
            scan_jobs-IsOpen p.null_text now user (take (list_limit (atoi limit)) rows) found
              (AllRows-take (IsOpen now user) (list_limit (atoi limit)) rows (
                AllRows-by_age (IsOpen now user) (select_listed now user t.jobs)
                  (select_listed-IsOpen now user t.jobs named)))
              e in
          subst (λ x. All (IsOpenJob now user) x × (length x ≤ 100)) (listed_eq found jobs h)
            (
              all.0,
              omega (arith, length-take_bound (list_limit (atoi limit)) rows, bound (atoi limit)),
            )

  load_job_record_for_actor-null :
      (now : ℕ) (user : Text) (t : Tables) (id : Text) (row : JobRow)
      → p.null_text ≡ none
      → lookup id t.jobs ≡ some row
      → row.executing_device_id ≡ none
      → load_job_record_for_actor p.null_text now t.jobs user id ≡ inl database_error
  unfolding load_job_record_for_actor
  load_job_record_for_actor-null now user t id row hn h e =
      let unread : load_job_record p.null_text t.jobs id ≡ none =
        rw (load_job_record, h, scan_job, e, hn) refl in
      rw (load_job_record_for_actor, unread) refl

  -- Where the driver refuses to scan NULL into a string, a job that no device has taken cannot be
  -- taken: a user's request to accept it with a device is answered as if the job were not there.
  pub serve_relay-null :
      (now : ℕ) (user : Text) (t : Tables) (id device_id sig ts : Text) (row : JobRow)
      → p.null_text ≡ none
      → lookup id t.jobs ≡ some row
      → row.executing_device_id ≡ none
      → serve_relay p require_attestation now (some user) (post_accept id (some device_id) sig ts) t
        ≡ (t, refused 404 "not_found")
  unfolding serve_relay
  serve_relay-null now user t id device_id sig ts row hn h e =
      rw (accept, load_job_record_for_actor-null now user t id row hn h e) refl

-- ===== src/Builds/Rollback.antt =====
-- What the submission of a build leaves behind, for each way in which it ends.
use strata_documentai_api_en.Prelude.{
  or_else, if◌then◌else◌, Bool-cases, length, ℕ, ◌≡◌, ◌≢◌, refl, ap, ◌∙◌, sym, subst, Bool, true,
  false, Option, none, some, List, is_some, ◌⊎◌, inl, inr, lookup,
}
use strata_documentai_api_en.Status.{not_started}
use strata_documentai_api_en.Document.{BuildItem}
use strata_documentai_api_en.Lifecycle.Upload.{insert_minimal_ddb_record, minimal_record}
use strata_documentai_api_en.Lifecycle.Arrivals.{upserted, upserted_world}
use strata_documentai_api_en.Store.State.{Env, World}
use strata_documentai_api_en.Store.Actions.{
  ◌>>◌, Error, Outcome, returned, raised, http_error, conditional_check_failed, validation_error,
  value_error, runtime_error, retry_error, pure,
}
use strata_documentai_api_en.Store.Keeps.{Keeps, Keeps-then}
use strata_documentai_api_en.BatchUpload.{Copying, copied, not_converted, refused, broken}
use strata_documentai_api_en.Builds.{
  PageMetadata, page_at, items_of, update_page, item_or_empty, is_locked, clear_submitted_at,
  unsubmitted, is_document_build_submitted, delete_document_build, delete_document_build_page,
  pages_or_none,
}
use strata_documentai_api_en.Builds.Submit.{
  SubmitRequest, SubmitResult, submitted, merged, copied_or_raised, merged_record, rolled_back,
  submit_locked, delete_document_build_endpoint, delete_document_build_page_endpoint,
}
use strata_documentai_api_en.Builds.Locks.{
  mark_refused, submitted_world, mark_accepted, marked_locked, marked_page, locked,
  stamped_submitted, updated_self, updated_other,
}

abbrev pub is_http : Error → Bool
is_http (http_error status) = true
is_http conditional_check_failed = false
is_http validation_error = false
is_http value_error = false
is_http runtime_error = false
is_http retry_error = false

-- the error that the copy into S3 raises
abbrev pub copying_error : Copying → Option Error
copying_error copied = none
copying_error (not_converted message) = some runtime_error
copying_error (refused status detail) = some (http_error status)
copying_error (broken e) = some e

module _ (env : Env) (q : SubmitRequest) (pages : List PageMetadata) where
  -- The builds are those of the world `start`.
  abbrev SameBuilds : World → World → Type 0
  SameBuilds start v = v.builds ≡ start.builds

  merged-SameBuilds : (start : World) (o : Option Error) → Keeps (SameBuilds start) (merged o)
  merged-SameBuilds start none v p = p
  merged-SameBuilds start (some e) v p = p

  copied-SameBuilds : (start : World) (c : Copying) → Keeps (SameBuilds start) (copied_or_raised c)
  copied-SameBuilds start copied v p = p
  copied-SameBuilds start (not_converted m) v p = p
  copied-SameBuilds start (refused st m) v p = p
  copied-SameBuilds start (broken e) v p = p

  inserted-SameBuilds :
      (start : World)
      → Keeps (SameBuilds start) (insert_minimal_ddb_record env (merged_record q pages))
  unfolding insert_minimal_ddb_record
  inserted-SameBuilds start v p =
      subst (λ r. SameBuilds start r.1)
        (sym (upserted env (minimal_record (merged_record q pages)) v)) p

  submitted-SameBuilds : (start : World) → Keeps (SameBuilds start) (submitted env q pages)
  submitted-SameBuilds start =
      let ins = insert_minimal_ddb_record env (merged_record q pages) in
      let cop = copied_or_raised q.copying in
      Keeps-then (merged q.merge_error >> ins >> cop)
        (pure (record { job_id = q.job_id; job_status = not_started; page_count = length pages }))
        (Keeps-then (merged q.merge_error >> ins) cop
          (Keeps-then (merged q.merge_error) ins (merged-SameBuilds start q.merge_error)
            (inserted-SameBuilds start))
          (copied-SameBuilds start q.copying))
        (λ v p. p)

  abbrev pub submit_result : SubmitResult
  submit_result = record { job_id = q.job_id; job_status = not_started; page_count = length pages }

  abbrev outcome_of : Option Error → Outcome SubmitResult
  outcome_of none = returned submit_result
  outcome_of (some e) = raised e

  -- How the call ends, and what is left of the lock, for the error that the merging or the copy raises.
  abbrev pub EndsAs : Option Error → Outcome SubmitResult → World → Type 0
  EndsAs none r v = (r ≡ returned submit_result) × (is_locked q.build_id v ≡ true)
  EndsAs (some e) r v =
      (r ≡ raised (if is_http e then e else http_error 500)) × (is_locked q.build_id v ≡ is_http e)

  unlocked : (v : World) → is_locked q.build_id (update_page q.build_id 0 unsubmitted v) ≡ false
  unlocked v =
      ap (λ o. is_some (item_or_empty o).submitted_at) (updated_self q.build_id 0 unsubmitted v)

  copied_outcome :
      (c : Copying) (v : World)
      → ((copied_or_raised c >> pure submit_result) v).0 ≡ outcome_of (copying_error c)
  copied_outcome copied v = refl
  copied_outcome (not_converted m) v = refl
  copied_outcome (refused st m) v = refl
  copied_outcome (broken e) v = refl

  submitted_outcome :
      (m : Option Error) (v : World)
      → ((merged m
            >> insert_minimal_ddb_record env (merged_record q pages)
            >> copied_or_raised q.copying
            >> pure submit_result)
          v).0
        ≡ outcome_of (or_else m (copying_error q.copying))
  unfolding insert_minimal_ddb_record
  submitted_outcome (some e) v = refl
  submitted_outcome none v =
      ap
        (λ (x : Outcome (Unit {0}) × World).
          (((λ _. x) >> copied_or_raised q.copying >> pure submit_result) v).0)
        (upserted env (minimal_record (merged_record q pages)) v)
      ∙ copied_outcome q.copying (upserted_world env (minimal_record (merged_record q pages)) v)

  rolled_EndsAs :
      (o : Option Error) (r : Outcome SubmitResult) (v : World)
      → r ≡ outcome_of o
      → is_locked q.build_id v ≡ true
      → EndsAs o (rolled_back q r v).0 (rolled_back q r v).1
  unfolding clear_submitted_at
  rolled_EndsAs o r v h l =
      subst (λ x. EndsAs o (rolled_back q x v).0 (rolled_back q x v).1) (sym h) (ends o)
    where
      ends :
          (o : Option Error)
          → EndsAs o (rolled_back q (outcome_of o) v).0 (rolled_back q (outcome_of o) v).1
      ends none = (refl, l)
      ends (some (http_error status)) = (refl, l)
      ends (some conditional_check_failed) = (refl, unlocked v)
      ends (some validation_error) = (refl, unlocked v)
      ends (some value_error) = (refl, unlocked v)
      ends (some runtime_error) = (refl, unlocked v)
      ends (some retry_error) = (refl, unlocked v)

  same_lock :
      (start v : World)
      → SameBuilds start v
      → is_locked q.build_id start ≡ true
      → is_locked q.build_id v ≡ true
  same_lock start v e h =
      ap
        (λ bs.
          is_some (item_or_empty (page_at 0 (pages_or_none (lookup q.build_id bs)))).submitted_at)
        e
      ∙ h

  -- Once the checks of a submission are passed: a build that is locked is refused with 400, and nothing changes. If it
  -- is not, then where the pages are merged and the result is copied, the call returns the job and
  -- the build is locked; where one of the two raises an HTTP error, the call fails with it and the
  -- build is locked; and where one raises another error, the call fails with 500 and the build is not
  -- locked.
  pub submit_locked_lem :
      (w : World)
      → ((is_locked q.build_id w ≡ true)
          × (submit_locked env q pages w ≡ (raised (http_error 400), w)))
        ⊎ ((is_locked q.build_id w ≡ false)
            × EndsAs
                (or_else q.merge_error (copying_error q.copying))
                (submit_locked env q pages w).0
                (submit_locked env q pages w).1)
  unfolding submit_locked
  submit_locked_lem w = elim (Bool-cases (is_locked q.build_id w)) [
    | inl y ↦ inl (y, rw (mark_refused q.build_id w y) refl)
    | inr n ↦
        let start = submitted_world q.build_id w in
        let m = submitted env q pages in
        let kept = submitted-SameBuilds start start refl in
        inr (
          n,
          rw (mark_accepted q.build_id w n) (
              rolled_EndsAs (or_else q.merge_error (copying_error q.copying)) (m start).0
                (m start).1 (submitted_outcome q.merge_error start)
                (same_lock start (m start).1 kept
                  (locked q.build_id start (marked_locked q.build_id w)))),
        )
  ]

  rolled :
      (e : Error) (v : World)
      → is_http e ≡ false
      → rolled_back q (raised e) v
        ≡ (raised (http_error 500), update_page q.build_id 0 unsubmitted v)
  unfolding clear_submitted_at
  rolled (http_error status) v h = cc
  rolled conditional_check_failed v h = refl
  rolled validation_error v h = refl
  rolled value_error v h = refl
  rolled runtime_error v h = refl
  rolled retry_error v h = refl

  merge_failed :
      (e : Error) (w : World)
      → q.merge_error ≡ some e
      → is_http e ≡ false
      → is_locked q.build_id w ≡ false
      → submit_locked env q pages w ≡ (
        raised (http_error 500),
        update_page q.build_id 0 unsubmitted (submitted_world q.build_id w),
      )
  unfolding submit_locked
  merge_failed e w m h n =
      rw (mark_accepted q.build_id w n) (rw m (rolled e (submitted_world q.build_id w) h))

  page_stays :
      (n : ℕ) (i : BuildItem) (w : World)
      → page_at n (items_of q.build_id w) ≡ some i
      → n ≢ 0
      → is_document_build_submitted q.build_id
          (update_page q.build_id 0 unsubmitted (submitted_world q.build_id w))
        ≡ true
  page_stays n i w h z =
      let v = submitted_world q.build_id w in
      let p = marked_page q.build_id n i w h z in
      stamped_submitted q.build_id n (update_page q.build_id 0 unsubmitted v) (record {
        item = p.item;
        found = updated_other q.build_id 0 n unsubmitted v (λ e. z (sym e)) ∙ p.found;
        has_time = p.has_time;
      })

  -- Where the pages of a build that is not locked cannot be merged, the submission fails with 500 and gives the
  -- lock back, but the rows of the pages keep the time of the submission: the build still counts as
  -- submitted, and its deletion and that of any page are refused with 400.
  pub rollback_incomplete :
      (e : Error) (n m : ℕ) (i : BuildItem) (w : World)
      → q.merge_error ≡ some e
      → is_http e ≡ false
      → is_locked q.build_id w ≡ false
      → page_at n (items_of q.build_id w) ≡ some i
      → n ≢ 0
      → let v = (submit_locked env q pages w).1 in
        ((submit_locked env q pages w).0 ≡ raised (http_error 500))
        × (is_locked q.build_id v ≡ false)
        × (is_document_build_submitted q.build_id v ≡ true)
        × (delete_document_build_endpoint q.build_id v ≡ (raised (http_error 400), v))
        × (delete_document_build_page_endpoint q.build_id m v ≡ (raised (http_error 400), v))
  unfolding delete_document_build_endpoint delete_document_build_page_endpoint delete_document_build
      delete_document_build_page
  rollback_incomplete e n m i w f h l p z =
      let r = merge_failed e w f h l in
      let s = page_stays n i w p z in
      rw r (refl, unlocked (submitted_world q.build_id w), s, rw s refl, rw s refl)

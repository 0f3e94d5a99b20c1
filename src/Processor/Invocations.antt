-- ===== src/Processor/Invocations.antt =====
-- The attempts to invoke the extraction service: `_invoke_bda` of
-- documentai-api/src/documentai_api/jobs/document_processor/main.py.
use strata_documentai_api_en.Status.{started, is_classified}
use strata_documentai_api_en.Store.Keeps.{bind_returned}
use strata_documentai_api_en.Lifecycle.Claims.{set_bda_processing_status_started}
use strata_documentai_api_en.Classify.Ended.{written-process_status, failed_HasLanded}
use strata_documentai_api_en.Ddb.{update_ddb, written}
use strata_documentai_api_en.Document.{update_record, UpdateDdbRecord}
use strata_documentai_api_en.Finality.{StatusAt}
use strata_documentai_api_en.Prelude.{
  sym, subst, lookup-insert_self, insert, arith, ◌<◌, ℕ, zero, suc, ◌+◌, ◌≡◌, refl, ap, ◌∙◌, Bool,
  true, Option, none, some, String, lookup,
}
use strata_documentai_api_en.Classify.{is_open, classify_as_failed}
use strata_documentai_api_en.Store.{update_document, document_or_empty}
use strata_documentai_api_en.Store.State.{World, Env}
use strata_documentai_api_en.Store.Actions.{returned, raised, retry_error}
use strata_documentai_api_en.Processor.{
  raise, ProcessStatus, Run, invoked, retryable, exhausted, started_job, job_started,
  invoke_attempts, attempts, resolve_project_arn, invoke_bda, info,
}

module _ (env : Env) (run : Run) where
  -- the attempts from `made` on, `n` of them, all fail in a way that is worth another try
  abbrev pub AreRetryable : ℕ → ℕ → Type 0
  AreRetryable made zero = Unit {0}
  AreRetryable made (suc n) = (run.invocation made ≡ retryable) × AreRetryable (suc made) n

  module _ (key project : String) (specific : Bool) where
    attempts_exhausted :
        (left made : ℕ) (w : World)
        → AreRetryable made left
        → invoke_attempts env run left made key project specific w ≡ (returned exhausted, w)
    unfolding invoke_attempts
    attempts_exhausted zero made w h = refl
    attempts_exhausted (suc left) made w (h, hs) = rw h (attempts_exhausted left (suc made) w hs)

    -- `k` attempts from `made` on are to be tried again, and the one after them succeeds
    attempts_decided :
        (k left made n : ℕ) (w : World) (arn : String) (pages seconds : ℕ)
        → k < left
        → made + k ≡ n
        → AreRetryable made k
        → run.invocation n ≡ invoked arn pages seconds
        → invoke_attempts env run left made key project specific w
          ≡ job_started env run key project specific arn pages seconds n w
    unfolding invoke_attempts
    attempts_decided k zero made n w arn pages seconds lt e hs h = absurd (omega arith)
    attempts_decided zero (suc left) made n w arn pages seconds lt e hs h =
        let at : made ≡ n = omega arith in
        rw (ap run.invocation at ∙ h)
          (ap (λ n. job_started env run key project specific arn pages seconds n w) at)
    attempts_decided (suc k) (suc left) made n w arn pages seconds lt e (r, hs) h =
        rw r (
          attempts_decided k left (suc made) n w arn pages seconds (omega arith) (omega arith) hs h)

  abbrev pub started_record : String → String → Bool → String → ℕ → ℕ → ℕ → UpdateDdbRecord
  started_record key project specific arn pages seconds retries =
      record (update_record key started) {
        bda_invocation_arn = some arn;
        bda_project_arn_used = some project;
        used_category_specific_project = specific;
        pages_sent_to_bda = some pages;
        bda_invoke_duration_seconds = some seconds;
        bda_invoke_retry_count = some retries;
      }

  abbrev pub started_world : String → String → String → Bool → ℕ → ℕ → ℕ → World → World
  started_world key project arn specific pages seconds retries w = record w {
    documents =
        insert key
          (written env w.now (lookup key w.documents)
            (started_record key project specific arn pages seconds retries)
            (document_or_empty (lookup key w.documents)))
          w.documents;
  }

  job_started_lem :
      (key project arn : String) (specific : Bool) (pages seconds retries : ℕ) (w : World)
      → job_started env run key project specific arn pages seconds retries w ≡ (
        returned (started_job arn),
        started_world key project arn specific pages seconds retries w,
      )
  unfolding set_bda_processing_status_started update_ddb update_document is_classified
  job_started_lem key project arn specific pages seconds retries w = refl

  module _ (key project : String) (category batch_id : Option String) (specific : Bool) (w : World)
      (p : resolve_project_arn run category w ≡ (returned (some project, specific), w)) where
    -- Where a project is found and every attempt fails in a way that is worth another try, the
    -- invocation ends with the retry error of the last attempt, and a document that was open has the status failed. The
    -- attempts are as many as configured, and at least one.
    pub invoke_bda-exhausted :
        AreRetryable 0 (attempts env run run.max_attempts)
        → is_open (document_or_empty (lookup key w.documents)) ≡ true
        → ((invoke_bda env run key category batch_id w).0 ≡ raised retry_error)
          × StatusAt key ProcessStatus.failed (invoke_bda env run key category batch_id w).1
    unfolding invoke_bda
    invoke_bda-exhausted h o =
        let m =
          classify_as_failed env key "BDA invocation failed" (info run.retry_message) none
            batch_id in
        let f =
          failed_HasLanded env key "BDA invocation failed" (info run.retry_message) none batch_id w
            o in
        let e = bind_returned m (λ _. raise {A = Unit {0}} retry_error) w f.result f.is_returned in
        rw p (
          rw (attempts_exhausted key project specific (attempts env run run.max_attempts) 0 w h)
            (ap (λ r. r.0) e, subst (λ r. StatusAt key ProcessStatus.failed r.1) (sym e) f.at))

    -- Where a project is found, the first `k` attempts fail in a way that is worth another try and the
    -- next one, which is within the limit, succeeds, the invocation returns, and the document has the status
    -- started and is otherwise as the write of the job's identifier, its project, the pages and `k`
    -- retries leaves it; nothing else is changed.
    pub invoke_bda-invoked :
        (k : ℕ) (arn : String) (pages seconds : ℕ)
        → k < attempts env run run.max_attempts
        → AreRetryable 0 k
        → run.invocation k ≡ invoked arn pages seconds
        → (invoke_bda env run key category batch_id w
            ≡ (returned tt, started_world key project arn specific pages seconds k w))
          × StatusAt key started (invoke_bda env run key category batch_id w).1
    unfolding invoke_bda
    invoke_bda-invoked k arn pages seconds lt hs h =
        let e =
          attempts_decided key project specific k (attempts env run run.max_attempts) 0 k w arn
            pages seconds lt (omega arith) hs h
          ∙ job_started_lem key project arn specific pages seconds k w in
        rw p (
          rw e (
            refl,
            record {
              item = _;
              found = lookup-insert_self key _ w.documents;
              has_status =
                  written-process_status env w.now (lookup key w.documents)
                    (started_record key project specific arn pages seconds k)
                    (document_or_empty (lookup key w.documents));
            },
          ))

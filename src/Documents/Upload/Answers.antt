-- ===== src/Documents/Upload/Answers.antt =====
-- What the client is told of an upload, and what the record says then.
use strata_documentai_api_en.Prelude.{
  lookup-insert_self, ◌∙◌, inl, Option, not, ◌&&◌, if_both, joined, ℕ, String, ◌≡◌, refl, sym,
  subst, true, none, some, lookup, ◌⊎◌, inr,
}
use strata_documentai_api_en.Status.{
  ProcessStatus, not_started, ai_consent_declined, conversion_failed, is_classified,
  ddb_non_terminal_condition,
}
use strata_documentai_api_en.Codes.{ResponseCode}
use strata_documentai_api_en.Document.{InternalApiResponse}
use strata_documentai_api_en.Classify.{
  is_open, plain_record, classify_as_ai_consent_declined, classify_as_conversion_failed,
  classify_as_failed,
}
use strata_documentai_api_en.Classify.Ended.{HasLanded, failed_HasLanded, classified_HasLanded}
use strata_documentai_api_en.Finality.{StatusAt}
use strata_documentai_api_en.BatchUpload.{
  charge, Copying, copied, not_converted, refused, broken, detail_data,
}
use strata_documentai_api_en.Store.{document_or_empty}
use strata_documentai_api_en.Store.Keeps.{bind_returned}
use strata_documentai_api_en.Store.State.{World, Env}
use strata_documentai_api_en.Store.Actions.{
  when, attempt, proceed, Outcome, Action, returned, raised, http_error, pure, raise, ◌>>=◌, ◌>>◌,
}
use strata_documentai_api_en.Documents.Upload.Guards.{
  guarded, validate_upload-IsGuard, charge-IsGuard,
}
use strata_documentai_api_en.Lifecycle.Arrivals.{upserted, apply_initial_status}
use strata_documentai_api_en.Lifecycle.Initial.{apply_initial}
use strata_documentai_api_en.Lifecycle.Upload.{minimal_record, insert_minimal_ddb_record}
use strata_documentai_api_en.Documents.Upload.{
  TenantLimits, upload_document, inserted, record_of_upload, validate_upload, UploadRequest,
  UploadResult, ddb_key, Dispatched, conversion_error, dispatch_upload, store_file,
  store_or_decline, declined_result, decline, result_of,
}

module _ (q : UploadRequest) (w : World) where
  -- What the record of the upload says, for each outcome.
  abbrev pub EndsAs : Outcome UploadResult → World → Type 0
  EndsAs (returned r) v = (r.job_id ≡ q.job_id) × StatusAt (ddb_key q) r.job_status v
  EndsAs (raised (http_error code)) v =
      (v.documents ≡ w.documents) ⊎ StatusAt (ddb_key q) ProcessStatus.failed v
  EndsAs (raised e) v = ⊥

  abbrev Ends : Outcome UploadResult × World → Type 0
  Ends x = EndsAs x.0 x.1

  started-is_open :
      (v : World)
      → StatusAt (ddb_key q) not_started v
      → is_open (document_or_empty (lookup (ddb_key q) v.documents)) ≡ true
  unfolding ddb_non_terminal_condition
  started-is_open v h = rw h.found (rw h.has_status refl)

  -- A record that is marked as failed, before an HTTP error is passed on.
  failed_Ends :
      (m : Action InternalApiResponse) (code : ℕ) (v : World)
      → HasLanded (ddb_key q) ProcessStatus.failed (m v)
      → Ends ((m >> raise (http_error code) >>= λ (d : Dispatched). pure (result_of q d)) v)
  failed_Ends m code v h =
      subst
        (λ (x : Outcome Dispatched × World).
          Ends (proceed x.0 (λ (d : Dispatched). pure (result_of q d)) x.1))
        (sym (bind_returned m (λ _. raise (http_error code)) v h.result h.is_returned)) (inr h.at)

  converted_Ends :
      (m : Action InternalApiResponse) (v : World)
      → HasLanded (ddb_key q) conversion_failed (m v)
      → Ends ((m >> pure conversion_error >>= λ (d : Dispatched). pure (result_of q d)) v)
  converted_Ends m v h =
      subst
        (λ (x : Outcome Dispatched × World).
          Ends (proceed x.0 (λ (d : Dispatched). pure (result_of q d)) x.1))
        (sym (bind_returned m (λ _. pure conversion_error) v h.result h.is_returned)) (refl, h.at)

  declined_Ends :
      (m : Action InternalApiResponse) (v : World)
      → HasLanded (ddb_key q) ai_consent_declined (m v)
      → Ends ((m >> pure (declined_result q)) v)
  declined_Ends m v h =
      subst Ends (sym (bind_returned m (λ _. pure (declined_result q)) v h.result h.is_returned))
        (refl, h.at)

  module _ (env : Env) (v : World) (h : StatusAt (ddb_key q) not_started v) where
    conversion_HasLanded :
        (message : String)
        → HasLanded
            (ddb_key q)
            conversion_failed
            (classify_as_conversion_failed env (ddb_key q) message none v)
    unfolding classify_as_conversion_failed is_classified
    conversion_HasLanded message =
        classified_HasLanded env (ddb_key q) conversion_failed
          ResponseCode.internal_processing_error
          (λ r. record (plain_record (ddb_key q) conversion_failed none none r) {
            error_message = some message;
          })
          none v (started-is_open v h) refl

    consent_HasLanded :
        HasLanded
          (ddb_key q)
          ai_consent_declined
          (classify_as_ai_consent_declined env (ddb_key q) none v)
    unfolding classify_as_ai_consent_declined is_classified
    consent_HasLanded =
        classified_HasLanded env (ddb_key q) ai_consent_declined ResponseCode.ai_consent_declined
          (plain_record (ddb_key q) ai_consent_declined none none) none v (started-is_open v h) refl

    dispatched_Ends :
        (c : Copying)
        → Ends (
            (dispatch_upload env (ddb_key q) q.error_text c >>= λ (d : Dispatched).
            pure (result_of q d))
              v)
    dispatched_Ends copied = (refl, h)
    dispatched_Ends (not_converted message) =
        converted_Ends (classify_as_conversion_failed env (ddb_key q) message none) v
          (conversion_HasLanded message)
    dispatched_Ends (refused code detail) =
        failed_Ends (classify_as_failed env (ddb_key q) detail (detail_data detail) none none) code
          v
          (failed_HasLanded env (ddb_key q) detail (detail_data detail) none none v
            (started-is_open v h))
    dispatched_Ends (broken e) =
        let c = detail_data (joined "Unexpected error: " q.error_text) in
        failed_Ends (classify_as_failed env (ddb_key q) q.error_text c none none) 500 v
          (failed_HasLanded env (ddb_key q) q.error_text c none none v (started-is_open v h))

    stored_Ends : Ends (store_or_decline env q v)
    unfolding store_or_decline
    stored_Ends =
        if_both (λ (m : Action UploadResult). Ends (m v)) q.ai_consent_flag (store_file env q)
          (decline env q) (dispatched_Ends q.copying)
          (declined_Ends (classify_as_ai_consent_declined env (ddb_key q) none) v consent_HasLanded)

  -- The upload of a document either returns, and then the record has the status that the client is told; or it fails
  -- with an HTTP error, and then no record is touched, or the one of the upload says that it failed.
  pub upload_document_lem :
      (env : Env) (tenants : String → Option TenantLimits) (today : String)
      → EndsAs (upload_document env tenants today q w).0 (upload_document env tenants today q w).1
  unfolding upload_document insert_minimal_ddb_record
  upload_document_lem env tenants today =
      guarded EndsAs (validate_upload q) _ w (validate_upload-IsGuard q) (λ code v e. inl e)
        (λ _ u d.
          guarded EndsAs
            (when (not q.is_demo && not q.is_test_run) (charge env tenants today q.tenant_id)) _ u
            (charge-IsGuard env tenants today q.tenant_id (not q.is_demo && not q.is_test_run))
            (λ code v e. inl (e ∙ d))
            (λ _ v e.
              subst
                (λ (x : Outcome (Unit {0}) × World).
                  Ends ((attempt (λ v'. x) inserted >> store_or_decline env q) v))
                (sym (upserted env (minimal_record (record_of_upload q)) v))
                (stored_Ends env _ (record {
                  item =
                      apply_initial v.now (minimal_record (record_of_upload q))
                        (document_or_empty (lookup (ddb_key q) v.documents));
                  found = lookup-insert_self (ddb_key q) _ v.documents;
                  has_status =
                      apply_initial_status v.now (minimal_record (record_of_upload q))
                        (document_or_empty (lookup (ddb_key q) v.documents));
                }))))

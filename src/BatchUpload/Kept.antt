-- ===== src/BatchUpload/Kept.antt =====
-- While the files of a request are taken, the item of its batch stays as it was created: a batch that
-- is not in processing counts no file.
use strata_documentai_api_en.Prelude.{
  String, ◌≡◌, sym, ap, ◌∙◌, subst, false, Option, none, some, List, [], ◌∷◌, lookup, has_text,
  is_false, if_both,
}
use strata_documentai_api_en.Status.{
  ProcessStatus, ai_consent_declined, conversion_failed, processing, uploading,
}
use strata_documentai_api_en.Codes.{ResponseCode}
use strata_documentai_api_en.Document.{
  ClassificationData, update_record, UpdateDdbRecord, InternalApiResponse,
}
use strata_documentai_api_en.Quota.{TenantLimits}
use strata_documentai_api_en.Batch.{increment_resolved_count, has_status}
use strata_documentai_api_en.Batch.Counting.{increment_other}
use strata_documentai_api_en.Ddb.{update_ddb}
use strata_documentai_api_en.Classify.{
  write_terminal_status, is_open, after_write, counted, classify_with,
  classify_as_conversion_failed, classify_as_failed, classify_as_ai_consent_declined, plain_record,
}
use strata_documentai_api_en.Classify.Responses.{get_internal_api_response, finalize_v1_response}
use strata_documentai_api_en.Lifecycle.Arrivals.{internal_IsPure}
use strata_documentai_api_en.Lifecycle.Initial.{upsert_ddb, apply_initial}
use strata_documentai_api_en.Lifecycle.Upload.{insert_minimal_ddb_record, minimal_record}
use strata_documentai_api_en.Finality.Batches.{
  OfBatches, Keeps-update_ddb, Keeps-finalize_v1_response, Keeps-update_document,
}
use strata_documentai_api_en.FileValidation.{validate_file_type, is_odt, is_supported}
use strata_documentai_api_en.BatchUpload.{
  detail_data, UploadFile, BatchRequest, Copying, copied, not_converted, refused, broken, charge,
  process_one, after_copying, stored_or_declined, process_files, unique_file_name, record_of_file,
  job_item, BatchJobItem,
}
use strata_documentai_api_en.Store.{batch_or_empty, always}
use strata_documentai_api_en.Store.State.{World, Env, Batch}
use strata_documentai_api_en.Store.Actions.{
  Outcome, conditional_check_failed, returned, raised, pure, raise, ◌>>=◌, ◌>>◌, http_error,
}
use strata_documentai_api_en.Store.Keeps.{Keeps, Keeps-bind, Keeps-then, Keeps-when}

uploading-has_status :
    (b : Batch) → b.batch_status ≡ some uploading → has_status processing b ≡ false
unfolding has_status
uploading-has_status b s = rw s

module _ (batch_id : String) (b : Batch) (s : b.batch_status ≡ some uploading) where
  -- The item under the batch's key is `b`.
  abbrev pub IsUploading : World → Type 0
  IsUploading = OfBatches (λ bs. lookup batch_id bs ≡ some b)

  Keeps-counted : Keeps IsUploading (counted (some batch_id))
  Keeps-counted = Keeps-when (has_text (some batch_id)) (increment_resolved_count batch_id) (λ w p.
      subst (λ r. IsUploading r.1)
        (sym (
          increment_other batch_id w
            (ap (λ o. has_status processing (batch_or_empty o)) p ∙ uploading-has_status b s)))
        p)

  module _ (env : Env) where
    Keeps-after_write :
        (u : UpdateDdbRecord) (o : Outcome (Unit {0}))
        → Keeps IsUploading (after_write env u (some batch_id) none none o)
    Keeps-after_write u (raised conditional_check_failed) = λ w p. p
    Keeps-after_write u (raised _) = λ w p. p
    Keeps-after_write u (returned _) =
        Keeps-then
          (finalize_v1_response env u.object_key u.status u.classification u.error_message
            >> counted (some batch_id))
          (pure tt)
          (Keeps-then
            (finalize_v1_response env u.object_key u.status u.classification u.error_message)
            (counted (some batch_id))
            (Keeps-finalize_v1_response (λ bs. lookup batch_id bs ≡ some b) env u.object_key
              u.status u.classification u.error_message)
            Keeps-counted)
          (λ w p. p)

    Keeps-write :
        (u : UpdateDdbRecord)
        → Keeps IsUploading (write_terminal_status env u (some batch_id) none none)
    unfolding write_terminal_status
    Keeps-write u w p =
        Keeps-after_write u (update_ddb env u is_open w).0 (update_ddb env u is_open w).1
          (Keeps-update_ddb (λ bs. lookup batch_id bs ≡ some b) env u is_open w p)

    Keeps-classify_with :
        (key : String) (code : ResponseCode) (c : Option String)
        (make : InternalApiResponse → UpdateDdbRecord)
        → Keeps IsUploading (classify_with env key code c make (some batch_id) none none)
    unfolding classify_with
    Keeps-classify_with key code c make =
        Keeps-bind (get_internal_api_response key code c none)
          (λ r. write_terminal_status env (make r) (some batch_id) none none >> pure r)
          (λ w p. subst (λ r. IsUploading r.1) (sym (internal_IsPure key code c none w).1) p)
          (λ r.
            Keeps-then (write_terminal_status env (make r) (some batch_id) none none) (pure r)
              (Keeps-write (make r)) (λ w p. p))

    Keeps-declined :
        (key : String) → Keeps IsUploading (classify_as_ai_consent_declined env key (some batch_id))
    unfolding classify_as_ai_consent_declined
    Keeps-declined key =
        Keeps-classify_with key ResponseCode.ai_consent_declined none
          (plain_record key ai_consent_declined none none)

    Keeps-conversion_failed :
        (key message : String)
        → Keeps IsUploading (classify_as_conversion_failed env key message (some batch_id))
    unfolding classify_as_conversion_failed
    Keeps-conversion_failed key message =
        Keeps-classify_with key ResponseCode.internal_processing_error none (λ r.
          record (plain_record key conversion_failed none none r) { error_message = some message })

    Keeps-failed :
        (key message : String) (c : ClassificationData)
        → Keeps IsUploading (classify_as_failed env key message c none (some batch_id))
    unfolding classify_as_failed
    Keeps-failed key message c =
        Keeps-classify_with key ResponseCode.internal_processing_error none (λ r.
          record (update_record key ProcessStatus.failed) {
            internal_api_response = some r;
            error_message = some message;
            classification = some c;
            result_processor_started_at = none;
          })

module _ (env : Env) (tenants : String → Option TenantLimits) (today : String) (q : BatchRequest)
    (b : Batch) (s : b.batch_status ≡ some uploading) where
  Keeps-after_copying :
      (f : UploadFile) (c : Copying)
      → Keeps (IsUploading q.batch_id b s) (after_copying env tenants today q f c)
  Keeps-after_copying f copied = λ w p. p
  Keeps-after_copying f (not_converted message) =
      Keeps-then (classify_as_conversion_failed env (unique_file_name f) message (some q.batch_id))
        (pure (job_item f))
        (Keeps-conversion_failed q.batch_id b s env (unique_file_name f) message) (λ w p. p)
  Keeps-after_copying f (refused status detail) =
      Keeps-then
        (classify_as_failed env (unique_file_name f) detail (detail_data detail) none
          (some q.batch_id))
        (raise {A = BatchJobItem} (http_error status))
        (Keeps-failed q.batch_id b s env (unique_file_name f) detail (detail_data detail))
        (λ w p. p)
  Keeps-after_copying f (broken e) = λ w p. p

  Keeps-stored_or_declined :
      (f : UploadFile)
      → Keeps (IsUploading q.batch_id b s) (stored_or_declined env tenants today q f)
  Keeps-stored_or_declined f =
      if_both (Keeps (IsUploading q.batch_id b s)) (is_false q.ai_consent_flag) _ _
        (Keeps-then (classify_as_ai_consent_declined env (unique_file_name f) (some q.batch_id))
          (pure (job_item f)) (Keeps-declined q.batch_id b s env (unique_file_name f)) (λ w p. p))
        (Keeps-after_copying f f.copying)

  Keeps-charge : Keeps (IsUploading q.batch_id b s) (charge env tenants today q.tenant_id)
  unfolding charge
  Keeps-charge w p = p

  Keeps-validate :
      (detected : String) → Keeps (IsUploading q.batch_id b s) (validate_file_type detected)
  unfolding validate_file_type
  Keeps-validate detected =
      if_both (Keeps (IsUploading q.batch_id b s)) (is_odt detected) _ _ (λ w p. p)
        (if_both (Keeps (IsUploading q.batch_id b s)) (is_supported detected) _ _ (λ w p. p)
          (λ w p. p))

  Keeps-insert_minimal :
      (f : UploadFile)
      → Keeps (IsUploading q.batch_id b s) (insert_minimal_ddb_record env (record_of_file q f))
  unfolding insert_minimal_ddb_record upsert_ddb
  Keeps-insert_minimal f w =
      Keeps-update_document (λ bs. lookup q.batch_id bs ≡ some b) (unique_file_name f)
        (apply_initial w.now (minimal_record (record_of_file q f))) always w

  Keeps-process_one :
      (f : UploadFile) → Keeps (IsUploading q.batch_id b s) (process_one env tenants today q f)
  unfolding process_one
  Keeps-process_one f =
      if_both (Keeps (IsUploading q.batch_id b s)) (has_text f.filename) _ _
        (Keeps-then
          (charge env tenants today q.tenant_id
            >> validate_file_type f.detected
            >> insert_minimal_ddb_record env (record_of_file q f))
          (stored_or_declined env tenants today q f)
          (Keeps-then (charge env tenants today q.tenant_id >> validate_file_type f.detected)
            (insert_minimal_ddb_record env (record_of_file q f))
            (Keeps-then (charge env tenants today q.tenant_id) (validate_file_type f.detected)
              Keeps-charge (Keeps-validate f.detected))
            (Keeps-insert_minimal f))
          (Keeps-stored_or_declined f))
        (λ w p. p)

  pub Keeps-process_files :
      (fs : List UploadFile)
      → Keeps (IsUploading q.batch_id b s) (process_files env tenants today q fs)
  unfolding process_files
  Keeps-process_files [] = λ w p. p
  Keeps-process_files (f ∷ fs) =
      Keeps-bind (process_one env tenants today q f)
        (λ job. process_files env tenants today q fs >>= λ jobs. pure (job ∷ jobs))
        (Keeps-process_one f)
        (λ job.
          Keeps-bind (process_files env tenants today q fs) (λ jobs. pure (job ∷ jobs))
            (Keeps-process_files fs) (λ jobs w p. p))

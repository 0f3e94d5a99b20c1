-- ===== src/Processor/Dispatch.antt =====
-- documentai-api/src/documentai_api/jobs/document_processor/main.py: the dispatch of a document, and
-- the handling of an event.
use strata_documentai_api_en.Prelude.{
  String, Bool, true, false, not, ◌&&◌, ◌||◌, Option, none, some, is_some, is_false, if◌then◌else◌,
}
use strata_documentai_api_en.Status.{
  ProcessStatus, pending_image_optimization, is_awaiting_processing, same_status,
}
use strata_documentai_api_en.Document.{Document}
use strata_documentai_api_en.Response.{truthy}
use strata_documentai_api_en.Classify.{classify_as_ai_consent_declined, classify_as_failed}
use strata_documentai_api_en.FileValidation.{validate_s3_object_is_bda_native}
use strata_documentai_api_en.Lifecycle.Initial.{
  Arrival, PreExtractionResult, upsert_initial_ddb_record,
}
use strata_documentai_api_en.Lifecycle.Claims.{set_processing_status_started}
use strata_documentai_api_en.Store.{get_document}
use strata_documentai_api_en.Store.State.{Env}
use strata_documentai_api_en.Store.Actions.{
  Action, Outcome, runtime_error, returned, raised, pure, raise, attempt, ◌>>=◌, ◌>>◌,
}
use strata_documentai_api_en.Processor.{
  Run, Event, invoke_ocr_mapping_path, invoke_textract, invoke_bda_path, info,
}

module _ (env : Env) (run : Run) where
  abbrev pub unless_handled : String → Document → Bool → Option String → Bool → Action (Unit {0})
  unless_handled ddb_key d apply_grayscale batch_id true = pure tt
  unless_handled ddb_key d apply_grayscale batch_id false =
      invoke_bda_path env run ddb_key d apply_grayscale batch_id

  -- what follows the claim
  abbrev pub extract_if_claimed :
      String
      → Document
      → Bool
      → Option PreExtractionResult
      → String
      → Option String
      → Bool
      → Action (Unit {0})
  extract_if_claimed ddb_key d apply_grayscale result tenant_id batch_id false = pure tt
  extract_if_claimed ddb_key d apply_grayscale result tenant_id batch_id true =
      invoke_ocr_mapping_path run ddb_key d (some tenant_id) batch_id
      >> invoke_textract env run result ddb_key tenant_id batch_id
      >>= unless_handled ddb_key d apply_grayscale batch_id

  abbrev pub with_tenant :
      String
      → ProcessStatus
      → Document
      → Bool
      → Option PreExtractionResult
      → Option String
      → Option String
      → Action (Unit {0})
  with_tenant ddb_key status d apply_grayscale result none batch_id =
      classify_as_failed env ddb_key "tenant_id is required for document processing"
        (info "Missing tenant_id") none batch_id
      >> pure tt
  with_tenant ddb_key status d apply_grayscale result (some tenant_id) batch_id =
      set_processing_status_started ddb_key status
      >>= extract_if_claimed ddb_key d apply_grayscale result tenant_id batch_id

  abbrev pub after_validation :
      String
      → ProcessStatus
      → Document
      → Bool
      → Option PreExtractionResult
      → Option String
      → Option String
      → Outcome String
      → Action (Unit {0})
  after_validation ddb_key status d apply_grayscale result tenant_id batch_id (returned t) =
      with_tenant ddb_key status d apply_grayscale result (truthy tenant_id) batch_id
  after_validation ddb_key status d apply_grayscale result tenant_id batch_id (raised e) =
      classify_as_failed env ddb_key "Uploaded file content is not a supported document type"
        (info run.unsupported_message) none batch_id
      >> pure tt

  -- A document whose status is one to start from.
  abbrev pub dispatch_status :
      String
      → Document
      → Option PreExtractionResult
      → Option String
      → Option String
      → Option ProcessStatus
      → Action (Unit {0})
  dispatch_status ddb_key d result tenant_id batch_id none = pure tt
  dispatch_status ddb_key d result tenant_id batch_id (some status) =
      if same_status status pending_image_optimization || is_awaiting_processing status
      then attempt (validate_s3_object_is_bda_native run.detected) (
          after_validation ddb_key status d (same_status status pending_image_optimization) result
            tenant_id batch_id)
      else pure tt

  -- `_dispatch_document_processor`
  unfoldable pub dispatch :
      String
      → Document
      → Option PreExtractionResult
      → Option String
      → Option String
      → Action (Unit {0})
  unfolding classify_as_ai_consent_declined validate_s3_object_is_bda_native
      set_processing_status_started invoke_ocr_mapping_path invoke_textract invoke_bda_path
      is_awaiting_processing
  dispatch ddb_key d result tenant_id batch_id =
      if is_false d.ai_consent_flag
      then classify_as_ai_consent_declined env ddb_key batch_id >> pure tt
      else dispatch_status ddb_key d result tenant_id batch_id d.process_status

  abbrev pub upload_date_of : Option Document → Option String
  upload_date_of none = none
  upload_date_of (some d) = elim d.created_at [ none ↦ none | some t ↦ some (run.date_of t) ]

  abbrev pub tenant_of_record : Option Document → Option String
  tenant_of_record none = none
  tenant_of_record (some d) = d.tenant_id

  abbrev pub needs_preclassification : Option Document → Bool
  needs_preclassification none = true
  needs_preclassification (some d) =
      elim d.process_status [ none ↦ false | some s ↦ is_awaiting_processing s ]
      && not (is_some d.preclassification_category)

  abbrev pub arrival_of : Event → Option Document → Arrival
  arrival_of event existing = record {
    ddb_key = event.ddb_key;
    tenant_id = tenant_of_record existing;
    upload_date = upload_date_of existing;
    user_provided_document_category = event.user_provided_document_category;
    job_id = event.job_id;
    batch_id = event.batch_id;
    is_password_protected = run.is_password_protected;
    is_processing_selected = run.is_processing_selected;
    blur_outcome = run.blur_outcome;
    preclassification_outcome = run.preclassification_outcome;
  }

  abbrev pub dispatch_found :
      Event → Option PreExtractionResult → Option String → Option Document → Action (Unit {0})
  dispatch_found event result tenant_id none = raise runtime_error
  dispatch_found event result tenant_id (some d) =
      dispatch event.ddb_key d result tenant_id event.batch_id

  -- `_preclassify`, with the dispatch that follows it
  abbrev pub preclassify_and_dispatch : Event → Option Document → Action (Unit {0})
  preclassify_and_dispatch event existing =
      if needs_preclassification existing
      then (upsert_initial_ddb_record env (arrival_of event existing) >>= λ result.
          get_document event.ddb_key >>= dispatch_found event result (tenant_of_record existing))
      else dispatch_found event none (tenant_of_record existing) existing

  -- `main`, after the object is read
  unfoldable pub process_document : Event → Action (Unit {0})
  unfolding get_document dispatch upsert_initial_ddb_record is_awaiting_processing
  process_document event = get_document event.ddb_key >>= preclassify_and_dispatch event

-- ===== src/Processor.antt =====
-- documentai-api/src/documentai_api/jobs/document_processor/main.py: from an uploaded document to an
-- extraction. What the calls of the services find or return for a document is an argument (`Run`). The
-- attributes that `_persist_optimization_metrics` writes are read nowhere, and are left out with the
-- durations and the tracing.
pub mod Dispatch
pub mod Skips
pub mod Invocations
pub mod Fallback
use strata_documentai_api_en.Prelude.{
  ℕ, zero, suc, ◌+◌, String, Bool, true, false, not, ◌&&◌, ◌||◌, Option, none, some, List, [], ◌∷◌,
  ◌++◌, has_text, str_eq, or_else, is_some, is_true, is_false, lookup, Table, if◌then◌else◌,
}
use strata_documentai_api_en.Status.{
  ProcessStatus, pending_image_optimization, is_awaiting_processing, same_status, bda,
}
use strata_documentai_api_en.Document.{
  Document, OcrMappingMessage, no_data, ClassificationData, InternalApiResponse,
}
use strata_documentai_api_en.Response.{truthy}
use strata_documentai_api_en.Classify.{
  classify_as_ai_consent_declined, classify_as_failed, classify_as_not_implemented,
  classify_as_extraction_not_configured, classify_as_no_custom_blueprint_matched,
}
use strata_documentai_api_en.FileValidation.{validate_s3_object_is_bda_native}
use strata_documentai_api_en.Lifecycle.{BlurOutcome, PreclassificationOutcome}
use strata_documentai_api_en.Lifecycle.Initial.{
  Arrival, PreExtractionResult, upsert_initial_ddb_record,
}
use strata_documentai_api_en.Lifecycle.Claims.{
  set_processing_status_started, set_bda_processing_status_started,
}
use strata_documentai_api_en.Textract.{TextractRun, run_textract_pipeline}
use strata_documentai_api_en.Store.{get_document}
use strata_documentai_api_en.Store.State.{World, Env}
use strata_documentai_api_en.Store.Actions.{
  retry_error, Action, Error, Outcome, value_error, runtime_error, returned, raised, pure, raise,
  catch, attempt, ◌>>=◌, ◌>>◌,
}

-- One call of the extraction service: an invocation with its identifier, the pages sent and the time
-- it took, an error that is worth another try, or another error.
pub data Invocation : Type 0 where
  invoked : String → ℕ → ℕ → Invocation
  retryable : Invocation
  fatal : Error → Invocation

pub record Optimization : Type 0 where
  pub too_large : Bool
  pub failed : Bool

-- What is configured, and what the services find for the document. The two messages are the texts of
-- the errors that end the retries and that refuse the type of the content.
pub record Run : Type 0 where
  pub skip_bda_if_unclassified : Bool
  pub project_arns : Table String
  pub default_project : Option String
  pub max_attempts : ℕ
  pub is_ocr_mapping_enabled : Bool
  pub ocr_blocks_uri : Option String
  pub date_of : ℕ → String
  pub is_password_protected : Bool
  pub is_processing_selected : Bool
  pub blur_outcome : BlurOutcome
  pub preclassification_outcome : PreclassificationOutcome
  pub content_type : String
  pub has_bytes : Bool
  pub detected : String
  pub textract_run : TextractRun
  pub optimization : Optimization
  pub invocation : ℕ → Invocation
  pub retry_message : String
  pub unsupported_message : String

-- The event, with what the metadata of the object adds to it.
pub record Event : Type 0 where
  pub ddb_key : String
  pub user_provided_document_category : Option String
  pub job_id : Option String
  pub batch_id : Option String

abbrev pub info : String → ClassificationData
info message = record no_data { additional_info = some message }

abbrev or_text : Option String → String
or_text none = ""
or_text (some s) = s

abbrev of_category : Option String → Action (Option String × Bool)
of_category none = raise value_error
of_category (some arn) = pure (some arn, true)

-- `_should_invoke_bda`
abbrev pub should_invoke_bda : Run → Option String → Bool
should_invoke_bda run category =
    if has_text category && not (str_eq (or_text category) "other_document")
    then true
    else not run.skip_bda_if_unclassified

-- `resolve_project_arn`; the Boolean tells a project of a category
abbrev pub resolve_project_arn : Run → Option String → Action (Option String × Bool)
resolve_project_arn run none = pure (run.default_project, false)
resolve_project_arn run (some category) =
    if has_text (some category)
    then of_category (lookup category run.project_arns)
    else pure (run.default_project, false)

-- How the attempts to invoke the service end.
pub data InvokeEnd : Type 0 where
  started_job : String → InvokeEnd
  exhausted : InvokeEnd

abbrev send_message : OcrMappingMessage → Action (Unit {0})
send_message m w = (returned tt, record w { ocr_mapping_queue = w.ocr_mapping_queue ++ (m ∷ []) })

abbrev enqueued :
    String → String → Option String → Option String → Option String → Action (Unit {0})
enqueued ddb_key document_type tenant_id batch_id none = pure tt
enqueued ddb_key document_type tenant_id batch_id (some uri) = send_message (record {
  ddb_key = ddb_key;
  document_type = document_type;
  ocr_blocks_uri = uri;
  tenant_id = tenant_id;
  batch_id = batch_id;
})

abbrev mapping_of :
    Run → String → Document → Option String → Option String → Option String → Action (Unit {0})
mapping_of run ddb_key d tenant_id batch_id none = pure tt
mapping_of run ddb_key d tenant_id batch_id (some document_type) =
    if run.is_ocr_mapping_enabled || is_true d.is_compare
    then enqueued ddb_key document_type tenant_id batch_id run.ocr_blocks_uri
    else pure tt

-- `_invoke_ocr_mapping_path`; what fails in it is swallowed, and nothing is sent then
unfoldable pub invoke_ocr_mapping_path :
    Run → String → Document → Option String → Option String → Action (Unit {0})
invoke_ocr_mapping_path run ddb_key d tenant_id batch_id =
    mapping_of run ddb_key d tenant_id batch_id (truthy d.preclassification_blueprint_matched_type)

abbrev pub is_identity : Option PreExtractionResult → Bool
is_identity none = false
is_identity (some r) = r.is_identity_document

abbrev pub not_handled : Error → Action Bool
not_handled e = pure false

module _ (env : Env) (run : Run) where
  -- the body of an attempt, once the service is invoked
  abbrev pub job_started : String → String → Bool → String → ℕ → ℕ → ℕ → Action InvokeEnd
  job_started ddb_key project specific arn pages seconds retries =
      set_bda_processing_status_started env ddb_key arn (some project) specific (some pages)
        (some seconds) (some retries)
      >> pure (started_job arn)

  -- What an attempt comes to, where `rest` is the next one.
  abbrev pub after_attempt :
      String → String → Bool → ℕ → Action InvokeEnd → Invocation → Action InvokeEnd
  after_attempt ddb_key project specific made rest (invoked arn pages seconds) =
      job_started ddb_key project specific arn pages seconds made
  after_attempt ddb_key project specific made rest retryable = rest
  after_attempt ddb_key project specific made rest (fatal e) = raise e

  -- The attempts that are left, and the number of those that were made.
  unfoldable pub invoke_attempts : ℕ → ℕ → String → String → Bool → Action InvokeEnd
  unfolding set_bda_processing_status_started
  invoke_attempts zero made ddb_key project specific = pure exhausted
  invoke_attempts (suc left) made ddb_key project specific =
      let rest = invoke_attempts left (suc made) ddb_key project specific in
      after_attempt ddb_key project specific made rest (run.invocation made)

  -- `stop_after_attempt` makes a first attempt always.
  abbrev pub attempts : ℕ → ℕ
  attempts zero = 1
  attempts (suc n) = suc n

  abbrev pub invoke_project : String → Option String × Bool → Action InvokeEnd
  invoke_project ddb_key (none, specific) = raise value_error
  invoke_project ddb_key (some project, specific) =
      invoke_attempts (attempts run.max_attempts) 0 ddb_key project specific

  abbrev pub after_invoke : String → Option String → InvokeEnd → Action (Unit {0})
  after_invoke ddb_key batch_id (started_job arn) = pure tt
  after_invoke ddb_key batch_id exhausted =
      classify_as_failed env ddb_key "BDA invocation failed" (info run.retry_message) none batch_id
      >> raise retry_error

  unfoldable pub invoke_bda : String → Option String → Option String → Action (Unit {0})
  unfolding invoke_attempts classify_as_failed
  invoke_bda ddb_key category batch_id =
      resolve_project_arn run category >>= invoke_project ddb_key >>= after_invoke ddb_key batch_id

  -- `_invoke_textract_if_identity_path`
  unfoldable pub invoke_textract :
      Option PreExtractionResult → String → String → Option String → Action Bool
  unfolding run_textract_pipeline
  invoke_textract result ddb_key tenant_id batch_id =
      if is_identity result && has_text (some run.content_type) && run.has_bytes
      then catch
          (run_textract_pipeline env run.textract_run ddb_key run.content_type tenant_id batch_id)
          not_handled
      else pure false

  abbrev pub configured_or_invoke :
      String → Option String → Option String → Option String × Bool → Action (Unit {0})
  configured_or_invoke ddb_key category batch_id (none, specific) =
      classify_as_no_custom_blueprint_matched env ddb_key
        (info
          "No category matched by blueprint matching and no default BDA project configured; BDA skipped")
        none batch_id bda
      >> pure tt
  configured_or_invoke ddb_key category batch_id (some project, specific) =
      invoke_bda ddb_key category batch_id

  -- `_invoke_bda_path`
  unfoldable pub invoke_bda_path : String → Document → Bool → Option String → Action (Unit {0})
  unfolding classify_as_not_implemented classify_as_extraction_not_configured
      classify_as_no_custom_blueprint_matched invoke_bda
  invoke_bda_path ddb_key d apply_grayscale batch_id =
      if apply_grayscale && (run.optimization.too_large || run.optimization.failed)
      then classify_as_not_implemented env ddb_key
          (info (
            if run.optimization.too_large
            then "File too large after conversion"
            else "Failed to download file for optimization"))
          batch_id
        >> pure tt
      else if not (should_invoke_bda run d.preclassification_category)
      then classify_as_extraction_not_configured env ddb_key
          (info "Preclassified as other_document; BDA skipped per feature flag") batch_id
        >> pure tt
      else (resolve_project_arn run d.preclassification_blueprint_match_category
          >>= configured_or_invoke ddb_key d.preclassification_blueprint_match_category batch_id)

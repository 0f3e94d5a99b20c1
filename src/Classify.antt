-- ===== src/Classify.antt =====
-- documentai-api/src/documentai_api/classifiers/document_classification.py, the writes of a terminal
-- status, with the functions that they call of classifiers/api_response.py and
-- utils/response_builder.py.
pub mod Responses
pub mod Extraction
pub mod Terminal
pub mod Landing
pub mod Methods
pub mod Ended
pub mod Refused
use strata_documentai_api_en.Prelude.{
  ℕ, String, Bool, true, false, not, ◌&&◌, Option, none, some, List, [], ◌∷◌, ◌++◌, has_text,
  is_some, if◌then◌else◌, lookup, insert,
}
use strata_documentai_api_en.Status.{
  ProcessStatus, ai_consent_declined, conversion_failed, excluded_per_preclassification,
  multiple_documents_in_multipage, multiple_documents_on_single_page, no_custom_blueprint_matched,
  no_document_detected, success, same_status, ExtractMethod, bda, textract, ocr_mapping,
  ddb_non_terminal_condition,
}
use strata_documentai_api_en.Codes.{ResponseCode, get_message, is_success_response_code}
use strata_documentai_api_en.Rules.{get_missing_required_fields}
use strata_documentai_api_en.Document.{
  Field, V1Response, ClassificationData, ExtractionResult, DurationEntry, InternalApiResponse,
  UpdateDdbRecord, Document, update_record, from_extraction_result,
}
use strata_documentai_api_en.Confidence.{calculate_average_non_empty_confidence, is_below}
use strata_documentai_api_en.Response.{build_v1_api_response, list_or_empty}
use strata_documentai_api_en.Ddb.{update_ddb, get_user_provided_document_category, uri_of}
use strata_documentai_api_en.Batch.{increment_resolved_count}
use strata_documentai_api_en.Store.{update_document, always, document_or_empty}
use strata_documentai_api_en.Store.State.{World, Env}
use strata_documentai_api_en.Store.Actions.{
  Action, Error, Outcome, conditional_check_failed, validation_error, value_error, returned, raised,
  pure, raise, attempt, ◌>>=◌, ◌>>◌, when,
}
use Responses.{get_internal_api_response, finalize_v1_response, write_extract_method_response}

-- `condition_expression` of `build_ddb_non_terminal_condition`
abbrev pub is_open : Document → Bool
is_open d = ddb_non_terminal_condition d.process_status

-- Whether a method's result is the authoritative one: every method but the mapping by a model.
abbrev pub is_authoritative : Option ExtractMethod → Bool
is_authoritative (some ocr_mapping) = false
is_authoritative _ = true

abbrev pub counted : Option String → Action (Unit {0})
counted none = pure tt
counted (some batch_id) = when (has_text (some batch_id)) (increment_resolved_count batch_id)

abbrev pub method_response :
    Env → UpdateDdbRecord → Option ExtractionResult → Option ExtractMethod → Action (Unit {0})
method_response env r result none = pure tt
method_response env r result (some method) =
    write_extract_method_response env r.object_key r.status method result r.classification
      r.error_message

-- What follows the conditional write: a failed condition ends the function without an error.
abbrev pub after_write :
    Env
    → UpdateDdbRecord
    → Option String
    → Option ExtractionResult
    → Option ExtractMethod
    → Outcome (Unit {0})
    → Action (Unit {0})
after_write env r batch_id result method (raised conditional_check_failed) = pure tt
after_write env r batch_id result method (raised e) = raise e
after_write env r batch_id result method (returned _) =
    finalize_v1_response env r.object_key r.status r.classification r.error_message
    >> counted batch_id
    >> method_response env r result method

-- `_write_terminal_status`
unfoldable pub write_terminal_status :
    Env
    → UpdateDdbRecord
    → Option String
    → Option ExtractionResult
    → Option ExtractMethod
    → Action (Unit {0})
unfolding update_ddb
write_terminal_status env r batch_id result method =
    if is_authoritative method
    then attempt (update_ddb env r is_open) (after_write env r batch_id result method)
    else method_response env r result method

-- `get_internal_api_response`, the write of the record that holds it, and the response returned
unfoldable pub classify_with :
    Env
    → String
    → ResponseCode
    → Option String
    → (InternalApiResponse → UpdateDdbRecord)
    → Option String
    → Option ExtractionResult
    → Option ExtractMethod
    → Action InternalApiResponse
unfolding write_terminal_status
classify_with env object_key code matched_document_class make batch_id result method =
    get_internal_api_response object_key code matched_document_class none >>= λ response.
    write_terminal_status env (make response) batch_id result method >> pure response

unfoldable pub classify_as_success :
    Env
    → String
    → ResponseCode
    → ClassificationData
    → ExtractMethod
    → Bool
    → Option Bool
    → Option (List String)
    → Option (List String)
    → Option ℕ
    → Option Bool
    → Option ℕ
    → Option String
    → Option ExtractionResult
    → Action InternalApiResponse
unfolding classify_with
classify_as_success env object_key code c method below configured missing required floor
      used_default started_at batch_id result =
    classify_with env object_key code c.matched_document_class
      (λ r. record (update_record object_key success) {
        internal_api_response = some r;
        classification = some c;
        extraction_method = method;
        below_extraction_confidence_floor = below;
        extraction_rules_configured = configured;
        missing_required_field_list = missing;
        required_field_list = required;
        applied_extraction_confidence_floor = floor;
        used_default_confidence_floor = used_default;
        result_processor_started_at = started_at;
      })
      batch_id result (some method)

unfoldable pub classify_as_failed :
    Env
    → String
    → String
    → ClassificationData
    → Option ℕ
    → Option String
    → Action InternalApiResponse
unfolding classify_with
classify_as_failed env object_key error_message c started_at batch_id =
    classify_with env object_key ResponseCode.internal_processing_error none
      (λ r. record (update_record object_key ProcessStatus.failed) {
        internal_api_response = some r;
        error_message = some error_message;
        classification = some c;
        result_processor_started_at = started_at;
      })
      batch_id none none

-- The record that most of the functions below write.
abbrev pub plain_record :
    String
    → ProcessStatus
    → Option ClassificationData
    → Option ℕ
    → InternalApiResponse
    → UpdateDdbRecord
plain_record object_key status c started_at r = record (update_record object_key status) {
  internal_api_response = some r;
  classification = c;
  result_processor_started_at = started_at;
}

module _ (env : Env) (object_key : String) where
  unfoldable pub classify_as_not_implemented :
      ClassificationData → Option String → Action InternalApiResponse
  unfolding classify_with
  classify_as_not_implemented c batch_id =
      classify_with env object_key ResponseCode.no_blueprint_matched none
        (plain_record object_key success (some c) none) batch_id none none

  unfoldable pub classify_as_no_document_detected :
      ClassificationData → Option ℕ → Option String → ExtractMethod → Action InternalApiResponse
  unfolding classify_with
  classify_as_no_document_detected c started_at batch_id method =
      classify_with env object_key ResponseCode.no_document_detected none
        (plain_record object_key no_document_detected (some c) started_at) batch_id none
        (some method)

  unfoldable pub classify_as_ai_consent_declined : Option String → Action InternalApiResponse
  unfolding classify_with
  classify_as_ai_consent_declined batch_id =
      classify_with env object_key ResponseCode.ai_consent_declined none
        (plain_record object_key ai_consent_declined none none) batch_id none none

  unfoldable pub classify_as_conversion_failed : String → Option String → Action InternalApiResponse
  unfolding classify_with
  classify_as_conversion_failed error_message batch_id =
      classify_with env object_key ResponseCode.internal_processing_error none
        (λ r. record (plain_record object_key conversion_failed none none r) {
          error_message = some error_message;
        })
        batch_id none none

  unfoldable pub classify_as_no_custom_blueprint_matched :
      ClassificationData → Option ℕ → Option String → ExtractMethod → Action InternalApiResponse
  unfolding classify_with
  classify_as_no_custom_blueprint_matched c started_at batch_id method =
      classify_with env object_key ResponseCode.no_blueprint_matched none
        (plain_record object_key no_custom_blueprint_matched (some c) started_at) batch_id none
        (some method)

  unfoldable pub classify_as_extraction_not_configured :
      ClassificationData → Option String → Action InternalApiResponse
  unfolding classify_with
  classify_as_extraction_not_configured c batch_id =
      classify_with env object_key ResponseCode.skipped_per_preclassification none
        (plain_record object_key excluded_per_preclassification (some c) none) batch_id none none

  unfoldable pub classify_as_multiple_documents_on_page :
      ClassificationData → Option String → Action InternalApiResponse
  unfolding classify_with
  classify_as_multiple_documents_on_page c batch_id =
      classify_with env object_key ResponseCode.multiple_documents_on_single_page none
        (plain_record object_key multiple_documents_on_single_page (some c) none) batch_id none none

  unfoldable pub classify_as_multiple_documents_in_multipage :
      ClassificationData → Option String → Action InternalApiResponse
  unfolding classify_with
  classify_as_multiple_documents_in_multipage c batch_id =
      classify_with env object_key ResponseCode.multiple_documents_in_multipage none
        (plain_record object_key multiple_documents_in_multipage (some c) none) batch_id none none

-- ===== src/Response.antt =====
-- documentai-api/src/documentai_api/classifiers/api_response.py: the response that clients read,
-- built from a document's record. What `read_output` finds in S3 is the argument `fields`, the rules
-- table is `rules`, and `missing_geo` is the flag `is_missing_geo_included_with_missing_fields`.
pub mod Outcome
use strata_documentai_api_en.Prelude.{
  String, Bool, true, false, Option, none, some, List, [], ◌∷◌, ◌++◌, ◌&&◌, has_text, or_else,
  nonzero, is_true, is_false, if◌then◌else◌,
}
use strata_documentai_api_en.Status.{
  ProcessStatus, ai_consent_declined, blurry_document_detected, conversion_failed, deleted, failed,
  multiple_documents_in_multipage, multiple_documents_on_single_page, no_custom_blueprint_matched,
  no_document_detected, password_protected, processing_excluded, success, same_status,
}
use strata_documentai_api_en.Codes.{ResponseCode, get_message}
use strata_documentai_api_en.Rules.{RulesTable, apply_extraction_rules}
use strata_documentai_api_en.Document.{V1JobStatus, Field, V1Response, ClassificationData, Document}

pub record TerminalResponse : Type 0 where
  pub job_status : V1JobStatus
  pub message : String
  pub error : Option String
  pub fields : Option (List (String × Field))
  pub response_code : Option ResponseCode

abbrev completed_with : String → ResponseCode → Option TerminalResponse
completed_with message code = some (record {
  job_status = V1JobStatus.completed;
  message = message;
  error = none;
  fields = none;
  response_code = some code;
})

-- `_TERMINAL_STATUS_RESPONSES`
unfoldable pub terminal_response : ProcessStatus → Option TerminalResponse
terminal_response no_custom_blueprint_matched = some (record {
  job_status = V1JobStatus.completed;
  message = "No matching blueprint found";
  error = none;
  fields = some [];
  response_code = some ResponseCode.no_blueprint_matched;
})
terminal_response failed = some (record {
  job_status = V1JobStatus.failed;
  message = "Processing failed";
  error = some "Processing failed";
  fields = none;
  response_code = some ResponseCode.internal_processing_error;
})
terminal_response no_document_detected =
    completed_with "Unable to extract meaningful document content" ResponseCode.no_document_detected
terminal_response blurry_document_detected =
    completed_with "Document is blurry" ResponseCode.blurry_document_detected
terminal_response ai_consent_declined = some (record {
  job_status = V1JobStatus.ai_consent_declined;
  message = "Document not processed - AI consent not provided";
  error = none;
  fields = none;
  response_code = some ResponseCode.ai_consent_declined;
})
terminal_response deleted = some (record {
  job_status = V1JobStatus.deleted;
  message = "Document has been deleted";
  error = none;
  fields = none;
  response_code = none;
})
terminal_response conversion_failed = some (record {
  job_status = V1JobStatus.conversion_failed;
  message = "Image format conversion failed";
  error = none;
  fields = none;
  response_code = some ResponseCode.internal_processing_error;
})
terminal_response password_protected =
    completed_with "Document type not supported" ResponseCode.password_protected
terminal_response multiple_documents_on_single_page =
    completed_with "Document type not supported" ResponseCode.multiple_documents_on_single_page
terminal_response multiple_documents_in_multipage =
    completed_with "Document type not supported" ResponseCode.multiple_documents_in_multipage
terminal_response processing_excluded =
    completed_with "Document not chosen for extraction" ResponseCode.processing_excluded
terminal_response _ = none

-- `a` if it is a text that counts as true in Python
abbrev pub truthy : Option String → Option String
truthy a = if has_text a then a else none

abbrev pub list_or_empty : Option (List String) → List String
list_or_empty none = []
list_or_empty (some l) = l

abbrev nonempty : List String → Option (List String)
nonempty [] = none
nonempty (x ∷ xs) = some (x ∷ xs)

abbrev pub is_empty {ℓ} : {A : Type ℓ} → List A → Bool
is_empty [] = true
is_empty (x ∷ xs) = false

abbrev missing_names : Bool → Document → List String
missing_names missing_geo d =
    if missing_geo
    then list_or_empty d.field_missing_geometry_list ++ list_or_empty d.field_empty_list
    else []

abbrev apply_rules_of :
    RulesTable
    → Bool
    → Document
    → Option String
    → Option String
    → List (String × Field)
    → List (String × Field) × List String
apply_rules_of rules missing_geo d (some tenant_id) (some document_type) fields =
    let result =
      apply_extraction_rules rules tenant_id document_type fields (missing_names missing_geo d) in
    (result.fields, result.missing_required_field_list)
apply_rules_of rules missing_geo d _ _ fields = (fields, [])

-- `_apply_extraction_rules`
unfoldable pub extraction_rules_of :
    RulesTable → Bool → Document → List (String × Field) → List (String × Field) × List String
extraction_rules_of rules missing_geo d fields =
    if is_empty fields
    then (fields, [])
    else apply_rules_of rules missing_geo d (truthy d.tenant_id) (truthy d.matched_document_class)
        fields

abbrev terminal_code : Option TerminalResponse → Option ResponseCode
terminal_code none = none
terminal_code (some t) = t.response_code

-- `_resolve_response_code`
unfoldable pub resolve_response_code :
    ProcessStatus → Document → List String → Option ResponseCode × Bool
unfolding terminal_response same_status
resolve_response_code job_status d missing_required =
    let below_floor = is_true d.below_extraction_confidence_floor in
    let miscategorized = is_false d.preclassification_category_match in
    if same_status job_status success
    then (
      some (
          if is_empty missing_required
          then (if miscategorized
              then ResponseCode.miscategorized
              else if below_floor
              then ResponseCode.low_extraction_confidence
              else ResponseCode.success)
          else ResponseCode.missing_fields),
      below_floor,
    )
    else if same_status job_status no_custom_blueprint_matched && miscategorized
    then (some ResponseCode.miscategorized, false)
    else (terminal_code (terminal_response job_status), false)

-- The keys that every branch of `build_v1_api_response` starts from.
unfoldable pub base_response : Document → V1JobStatus → String → V1Response
base_response d job_status message = record {
  job_id = d.job_id;
  job_status = job_status;
  created_at = d.created_at;
  completed_at = or_else d.extraction_completed_at d.bda_completed_at;
  total_processing_time_seconds = nonzero d.total_processing_time_seconds;
  matched_document_class = truthy d.matched_document_class;
  user_provided_document_category = truthy d.user_provided_document_category;
  fields = none;
  missing_required_field_list = none;
  message = message;
  response_code = none;
  response_message = none;
  inferred_document_type = none;
  below_extraction_confidence_floor = none;
  additional_info = none;
  error = none;
}

abbrev message_of : Option ResponseCode → Option String
message_of none = none
message_of (some c) = some (get_message c)

-- The branch of a successful document.
unfoldable pub success_response : RulesTable → Bool → Document → List (String × Field) → V1Response
unfolding base_response extraction_rules_of resolve_response_code
success_response rules missing_geo d fields =
    let (kept, missing_required) = extraction_rules_of rules missing_geo d fields in
    let (response_code, below_floor) = resolve_response_code success d missing_required in
    record (base_response d V1JobStatus.completed "Document processed successfully") {
      fields = some kept;
      missing_required_field_list = nonempty missing_required;
      response_code = response_code;
      response_message = message_of response_code;
      inferred_document_type = d.preclassification_category;
      below_extraction_confidence_floor = if below_floor then some true else none;
    }

abbrev info_of : Option ClassificationData → Option String
info_of none = none
info_of (some c) = truthy c.additional_info

-- The branch of a status that `_TERMINAL_STATUS_RESPONSES` lists.
unfoldable pub terminal_branch :
    TerminalResponse
    → ProcessStatus
    → Document
    → Option ClassificationData
    → Option String
    → V1Response
unfolding base_response resolve_response_code same_status
terminal_branch t job_status d classification error_message =
    let response_code = or_else (resolve_response_code job_status d []).0 t.response_code in
    record (base_response d t.job_status t.message) {
      fields = t.fields;
      response_code = response_code;
      response_message = message_of response_code;
      additional_info = info_of classification;
      error =
          if same_status job_status failed && has_text error_message
          then error_message
          else t.error;
    }

abbrev other_branch :
    Option TerminalResponse
    → ProcessStatus
    → Document
    → Option ClassificationData
    → Option String
    → V1Response
other_branch (some t) job_status d classification error_message =
    terminal_branch t job_status d classification error_message
other_branch none job_status d classification error_message =
    base_response d V1JobStatus.processing "Document processing in progress"

unfoldable pub build_v1_api_response :
    RulesTable
    → Bool
    → List (String × Field)
    → Document
    → ProcessStatus
    → Option ClassificationData
    → Option String
    → V1Response
unfolding success_response terminal_branch same_status
build_v1_api_response rules missing_geo fields d job_status classification error_message =
    if same_status job_status success
    then success_response rules missing_geo d fields
    else other_branch (terminal_response job_status) job_status d classification error_message

-- ===== src/Codes.antt =====
-- documentai-api/src/documentai_api/utils/response_codes.py. A code that the program writes is one
-- of the class's constants, so the codes are an enumeration with the text of each.
use text.Mathlib.Text.{starts_with}
use strata_documentai_api_en.Prelude.{String, Bool, Option, none, some, ◌||◌, str_eq}

pub data ResponseCode : Type 0 where
  success no_blueprint_matched ai_consent_declined processing_excluded : ResponseCode
  skipped_per_preclassification blueprint_disabled missing_fields miscategorized : ResponseCode
  no_document_detected blurry_document_detected low_extraction_confidence : ResponseCode
  password_protected multiple_documents_on_single_page multiple_documents_in_multipage :
      ResponseCode
  internal_processing_error : ResponseCode

unfoldable pub code : ResponseCode → String
code success = "000"
code no_blueprint_matched = "002"
code ai_consent_declined = "003"
code processing_excluded = "004"
code skipped_per_preclassification = "005"
code blueprint_disabled = "006"
code missing_fields = "101"
code miscategorized = "102"
code no_document_detected = "103"
code blurry_document_detected = "104"
code low_extraction_confidence = "105"
code password_protected = "106"
code multiple_documents_on_single_page = "400"
code multiple_documents_in_multipage = "401"
code internal_processing_error = "999"

unfoldable pub get_message : ResponseCode → String
get_message success = "Document validation passed"
get_message processing_excluded = "Document not chosen for extraction"
get_message skipped_per_preclassification = "Skipped per preclassification"
get_message blueprint_disabled = "Tenant disabled blueprint"
get_message no_blueprint_matched = "No matching blueprint found"
get_message ai_consent_declined = "Document not processed - AI consent not provided"
get_message missing_fields = "Missing fields"
get_message miscategorized = "Document category mismatch"
get_message low_extraction_confidence = "Average field confidence below tenant threshold"
get_message password_protected = "Password protected document"
get_message no_document_detected = "No document detected"
get_message blurry_document_detected = "Document is blurry"
get_message multiple_documents_on_single_page = "Multiple documents detected on single page"
get_message multiple_documents_in_multipage =
    "Pages are not continuations of a single document instance"
get_message internal_processing_error = "Internal processing error"

unfoldable pub get_evaluation_key : ResponseCode → Option String
get_evaluation_key blurry_document_detected = some "blur"
get_evaluation_key missing_fields = some "missingFields"
get_evaluation_key miscategorized = some "miscategorization"
get_evaluation_key low_extraction_confidence = some "extractionConfidence"
get_evaluation_key password_protected = some "passwordProtected"
get_evaluation_key no_document_detected = some "documentDetected"
get_evaluation_key _ = none

unfoldable pub same_code : ResponseCode → ResponseCode → Bool
unfolding code
same_code a b = str_eq (code a) (code b)

unfoldable pub is_document_type_identified : ResponseCode → Bool
unfolding same_code
is_document_type_identified c =
    same_code c success
    || same_code c missing_fields
    || same_code c miscategorized
    || same_code c low_extraction_confidence

unfoldable pub is_success_response_code : ResponseCode → Bool
unfolding code
is_success_response_code c = starts_with (code c) "0"

-- ===== src/Status.antt =====
-- documentai-api/src/documentai_api/constants/processing.py: the status enumerations and how a
-- document's status is classified. A member of a `StrEnum` is its text, so membership in a list of
-- members compares the texts.
pub mod Partition
use strata_documentai_api_en.Prelude.{
  String, Bool, true, false, Option, none, some, List, [], ◌∷◌, ◌||◌, str_eq, text_in,
  if◌then◌else◌, map,
}

pub data ProcessStatus : Type 0 where
  ai_consent_declined blurry_document_detected conversion_failed deleted : ProcessStatus
  excluded_per_preclassification failed multiple_documents_in_multipage : ProcessStatus
  multiple_documents_on_single_page no_custom_blueprint_matched : ProcessStatus
  no_document_detected not_implemented not_started password_protected : ProcessStatus
  pending_image_optimization pending_upload blueprint_disabled : ProcessStatus
  processing_excluded started success timed_out : ProcessStatus

unfoldable pub value : ProcessStatus → String
value ai_consent_declined = "ai_consent_declined"
value blurry_document_detected = "blurry_document_detected"
value conversion_failed = "conversion_failed"
value deleted = "deleted"
value excluded_per_preclassification = "excluded_per_preclassification"
value ProcessStatus.failed = "failed"
value multiple_documents_in_multipage = "multiple_documents_in_multipage"
value multiple_documents_on_single_page = "multiple_documents_single_page"
value no_custom_blueprint_matched = "no_custom_blueprint_matched"
value no_document_detected = "no_document_detected"
value not_implemented = "not_implemented"
value not_started = "not_started"
value password_protected = "password_protected"
value pending_image_optimization = "pending_image_optimization"
value pending_upload = "pending_upload"
value blueprint_disabled = "blueprint_disabled"
value processing_excluded = "processing_excluded"
value started = "started"
value success = "success"
value timed_out = "timed_out"

-- `a == b` of two members
unfoldable pub same_status : ProcessStatus → ProcessStatus → Bool
unfolding value
same_status a b = str_eq (value a) (value b)

unfoldable pub is_in : ProcessStatus → List ProcessStatus → Bool
unfolding same_status
is_in s [] = false
is_in s (t ∷ ts) = same_status s t || is_in s ts

unfoldable pub is_completed : ProcessStatus → Bool
unfolding is_in
is_completed s = is_in s (
    ai_consent_declined ∷ blueprint_disabled ∷ conversion_failed ∷ processing_excluded ∷ success
    ∷ failed ∷ no_document_detected ∷ no_custom_blueprint_matched ∷ timed_out ∷ [])

unfoldable pub is_classified : ProcessStatus → Bool
unfolding is_in
is_classified s = is_in s (
    ai_consent_declined ∷ blueprint_disabled ∷ blurry_document_detected ∷ conversion_failed
    ∷ deleted ∷ failed ∷ multiple_documents_in_multipage ∷ multiple_documents_on_single_page
    ∷ no_custom_blueprint_matched ∷ no_document_detected ∷ not_implemented
    ∷ excluded_per_preclassification ∷ password_protected ∷ processing_excluded ∷ success
    ∷ timed_out ∷ [])

unfoldable pub is_not_supported : ProcessStatus → Bool
unfolding is_in
is_not_supported s =
    is_in s (
      multiple_documents_in_multipage ∷ multiple_documents_on_single_page ∷ password_protected ∷ [])

unfoldable pub is_pending_extraction : ProcessStatus → Bool
unfolding is_in
is_pending_extraction s = is_in s (pending_image_optimization ∷ not_started ∷ [])

unfoldable pub is_awaiting_processing : ProcessStatus → Bool
unfolding is_in
is_awaiting_processing s = is_in s (not_started ∷ pending_upload ∷ [])

unfoldable pub pending_message : ProcessStatus → String
unfolding is_awaiting_processing
pending_message s =
    if is_awaiting_processing s then "Awaiting processing" else "Processing in progress"

unfoldable pub is_successful : ProcessStatus → Bool
unfolding is_in
is_successful s =
    is_in s (
      success ∷ no_custom_blueprint_matched ∷ not_implemented ∷ excluded_per_preclassification ∷ [])

unfoldable pub non_terminal : List ProcessStatus
non_terminal = started ∷ not_started ∷ pending_upload ∷ pending_image_optimization ∷ []

-- `attribute_not_exists(processStatus) OR processStatus IN (…)`, as DynamoDB evaluates it on the
-- item's attribute. The comparison is of the stored texts.
unfoldable pub ddb_non_terminal_condition : Option ProcessStatus → Bool
unfolding value non_terminal
ddb_non_terminal_condition none = true
ddb_non_terminal_condition (some s) = text_in (value s) (map value non_terminal)

pub data BatchStatus : Type 0 where
  uploading processing completed partial failed : BatchStatus

unfoldable pub batch_value : BatchStatus → String
batch_value uploading = "uploading"
batch_value processing = "processing"
batch_value completed = "completed"
batch_value partial = "partial"
batch_value BatchStatus.failed = "failed"

unfoldable pub same_batch_status : BatchStatus → BatchStatus → Bool
unfolding batch_value
same_batch_status a b = str_eq (batch_value a) (batch_value b)

pub data ExtractMethod : Type 0 where
  bda textract ocr_mapping : ExtractMethod

-- `BdaJobStatus`: the service reports a text, which need not be a member.
unfoldable pub is_running : String → Bool
is_running status = text_in status ("Created" ∷ "InProgress" ∷ [])

unfoldable pub is_job_completed : String → Bool
is_job_completed status = str_eq status "Success"

unfoldable pub is_job_failed : String → Bool
is_job_failed status = text_in status ("ServiceError" ∷ "ClientError" ∷ [])

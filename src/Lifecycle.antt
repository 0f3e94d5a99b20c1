-- ===== src/Lifecycle.antt =====
-- documentai-api/src/documentai_api/pipeline/document_lifecycle.py: the first record of a document,
-- with the decision that precedes extraction, and the claims on a document. What the blur detection,
-- the preclassification and the matching of blueprints find is their argument here (`none` for a call
-- that raises); the attributes of the record that no modelled operation reads, such as sizes,
-- durations and the reasons of a result, are left out, and so is the count of tokens.
pub mod Initial
pub mod Decision
pub mod Claims
pub mod Counted
pub mod Arrivals
pub mod Uncounted
pub mod Upload
use strata_documentai_api_en.Prelude.{
  ℕ, suc, String, Bool, true, false, not, ◌&&◌, ◌||◌, Option, none, some, List, [], ◌∷◌, ltb,
  has_text, or_else, is_some, text_in, if◌then◌else◌, lookup,
}
use strata_documentai_api_en.Status.{
  ProcessStatus, blueprint_disabled, blurry_document_detected, multiple_documents_in_multipage,
  multiple_documents_on_single_page, no_document_detected, not_started, password_protected,
  pending_image_optimization, processing_excluded, started, is_pending_extraction, same_status,
  ExtractMethod,
}
use strata_documentai_api_en.Codes.{ResponseCode}
use strata_documentai_api_en.Document.{
  Document, InternalApiResponse, UpdateDdbRecord, update_record, V1Response,
}
use strata_documentai_api_en.Response.{truthy}
use strata_documentai_api_en.Ddb.{update_ddb}
use strata_documentai_api_en.Classify.{counted}
use strata_documentai_api_en.Classify.Responses.{get_internal_api_response, finalize_v1_response}
use strata_documentai_api_en.Quota.{decrement}
use strata_documentai_api_en.Store.{update_document, always}
use strata_documentai_api_en.Store.State.{World, Env}
use strata_documentai_api_en.Store.Actions.{
  Action, Outcome, conditional_check_failed, returned, raised, pure, raise, attempt, ◌>>=◌, ◌>>◌,
  when,
}

-- Fractions of documents and random values are in ten-thousandths.
abbrev whole : ℕ
whole = 10000

abbrev is_chosen : ℕ → ℕ → Bool × Option ℕ × Option ℕ
is_chosen percent selected_value =
    if ltb percent whole
    then (ltb selected_value percent, some percent, some selected_value)
    else (true, some percent, none)

-- `get_processing_percentage` and `random.random()` are arguments.
unfoldable pub is_selected_for_processing :
    (String → String → ℕ) → ℕ → Option String → Option String → Bool × Option ℕ × Option ℕ
is_selected_for_processing percentage random (some tenant_id) (some category) =
    if has_text (some tenant_id) && has_text (some category)
    then is_chosen (percentage tenant_id category) random
    else (true, none, none)
is_selected_for_processing percentage random _ _ = (true, none, none)

pub record BlurResult : Type 0 where
  pub is_blurry : Bool
  pub is_not_document : Bool
  pub analysis_failed : Bool

pub record BlurOutcome : Type 0 where
  pub blur_result : BlurResult
  pub decided : Option (ProcessStatus × ResponseCode)

abbrev pub unless_blurry : Bool → BlurResult → Option (ProcessStatus × ResponseCode)
unless_blurry enforced detected =
    if detected.is_blurry && enforced
    then some (blurry_document_detected, ResponseCode.blurry_document_detected)
    else none

-- `_get_blur_outcome`, where detection is enabled and where its rejections are enforced
unfoldable pub get_blur_outcome : Bool → Bool → BlurResult → BlurOutcome
get_blur_outcome false enforced detected = record {
  blur_result = record { is_blurry = false; is_not_document = false; analysis_failed = false };
  decided = none;
}
get_blur_outcome true enforced detected = record {
  blur_result = detected;
  decided =
      if detected.is_not_document && enforced
      then some (no_document_detected, ResponseCode.no_document_detected)
      else unless_blurry enforced detected;
}

-- What the preclassification by a model finds.
pub record Preclassification : Type 0 where
  pub document_type : Option String
  pub category_match : Option Bool
  pub max_document_count_on_page : ℕ
  pub has_multipage_inconsistency : Bool
  pub is_identity_document : Bool

pub record BlueprintMatch : Type 0 where
  pub matched_document_type : Option String
  pub match_category : Option String

-- `PreClassificationDdbFields.from_results`
pub record PreClassificationDdbFields : Type 0 where
  pub document_type : Option String
  pub category_match : Option Bool
  pub blueprint_matched_document_type : Option String
  pub blueprint_match_category : Option String

abbrev matched_type : Option BlueprintMatch → Option String
matched_type none = none
matched_type (some b) = b.matched_document_type

abbrev matched_category : Option BlueprintMatch → Option String
matched_category none = none
matched_category (some b) = b.match_category

unfoldable pub from_results : Preclassification → Option BlueprintMatch → PreClassificationDdbFields
from_results c b = record {
  document_type = c.document_type;
  category_match = c.category_match;
  blueprint_matched_document_type = matched_type b;
  blueprint_match_category = matched_category b;
}

pub record PreclassificationOutcome : Type 0 where
  pub process_status : ProcessStatus
  pub response_code : ResponseCode
  pub pre_classification : Option PreClassificationDdbFields
  pub is_identity_document : Bool

-- The status of a document that goes on to extraction.
abbrev pub pending_status : Bool → ProcessStatus
pending_status grayscale = if grayscale then pending_image_optimization else not_started

abbrev pub is_disabled : Option (List String) → Option String → Option BlueprintMatch → Bool
is_disabled (some disabled) tenant_id (some b) = elim (truthy b.matched_document_type) [
  | none ↦ false
  | some t ↦ has_text tenant_id && text_in t disabled
]
is_disabled _ tenant_id _ = false

abbrev pub has_many_pages : Option ℕ → Bool
has_many_pages none = false
has_many_pages (some n) = ltb 1 n

abbrev pub terminal_outcome :
    ProcessStatus
    → ResponseCode
    → Preclassification
    → Option BlueprintMatch
    → PreclassificationOutcome
terminal_outcome status code c b = record {
  process_status = status;
  response_code = code;
  pre_classification = some (from_results c b);
  is_identity_document = false;
}

-- The facts that a decision reads besides the calls' results: the content type's class, the flag on
-- multipage documents, the tenant and the blueprints that it has disabled (an item without the list,
-- or with an empty one, disables none).
pub record Settings : Type 0 where
  pub grayscale_convertible : Bool
  pub multipage_flagging : Bool
  pub tenant_id : Option String
  pub disabled_blueprint_list : Option (List String)

abbrev pub pending_outcome :
    Settings → Preclassification → Option BlueprintMatch → PreclassificationOutcome
pending_outcome settings c b = record {
  process_status = pending_status settings.grayscale_convertible;
  response_code = ResponseCode.success;
  pre_classification = some (from_results c b);
  is_identity_document = c.is_identity_document;
}

abbrev pub unless_disabled :
    Settings → Preclassification → Option BlueprintMatch → PreclassificationOutcome
unless_disabled settings c b =
    if is_disabled settings.disabled_blueprint_list settings.tenant_id b
    then terminal_outcome blueprint_disabled ResponseCode.blueprint_disabled c b
    else pending_outcome settings c b

abbrev pub unless_multipage :
    Settings → Option ℕ → Preclassification → Option BlueprintMatch → PreclassificationOutcome
unless_multipage settings pages c b =
    if has_many_pages pages && c.has_multipage_inconsistency && settings.multipage_flagging
    then terminal_outcome multiple_documents_in_multipage
        ResponseCode.multiple_documents_in_multipage c none
    else unless_disabled settings c b

-- `_run_preclassification`
unfoldable pub run_preclassification :
    Settings
    → Option ℕ
    → Option Preclassification
    → Option BlueprintMatch
    → PreclassificationOutcome
unfolding from_results
run_preclassification settings pages none b = record {
  process_status = pending_status settings.grayscale_convertible;
  response_code = ResponseCode.success;
  pre_classification = none;
  is_identity_document = false;
}
run_preclassification settings pages (some c) b =
    if ltb 1 c.max_document_count_on_page
    then terminal_outcome multiple_documents_on_single_page
        ResponseCode.multiple_documents_on_single_page c none
    else unless_multipage settings pages c b

-- ===== src/Classify/Extraction.antt =====
-- `classify_extraction_result` of documentai-api/src/documentai_api/classifiers/document_classification.py
-- and the two functions on a tenant's confidence floor of utils/tenants.py.
use strata_documentai_api_en.Prelude.{ℕ, String, Bool, not, Option, none, some, is_some}
use strata_documentai_api_en.Status.{ExtractMethod}
use strata_documentai_api_en.Codes.{ResponseCode}
use strata_documentai_api_en.Rules.{get_missing_required_fields}
use strata_documentai_api_en.Document.{
  ExtractionResult, InternalApiResponse, from_extraction_result,
}
use strata_documentai_api_en.Confidence.{calculate_average_non_empty_confidence, is_below}
use strata_documentai_api_en.Response.{truthy}
use strata_documentai_api_en.Classify.{classify_as_success}
use strata_documentai_api_en.Store.State.{Env}
use strata_documentai_api_en.Store.Actions.{Action, value_error, raise}

abbrev floor_of : Env → Option String → Option ℕ
floor_of env none = none
floor_of env (some tenant_id) = env.confidence_floor tenant_id

-- `SystemDefaults.FIELD_CONFIDENCE_THRESHOLD`, 0.65
abbrev pub default_floor : ℕ
default_floor = 6500

unfoldable pub get_extraction_confidence_floor : Env → Option String → ℕ
get_extraction_confidence_floor env tenant_id = elim (floor_of env (truthy tenant_id)) [
  | none ↦ default_floor
  | some floor ↦ floor
]

unfoldable pub tenant_has_confidence_floor : Env → Option String → Bool
tenant_has_confidence_floor env tenant_id = is_some (floor_of env (truthy tenant_id))

abbrev pub first_of {ℓ} : {A B : Type ℓ} → Option (A × B) → Option A
first_of none = none
first_of (some p) = some p.0

abbrev pub second_of {ℓ} : {A B : Type ℓ} → Option (A × B) → Option B
second_of none = none
second_of (some p) = some p.1

unfoldable pub classify_extraction_result :
    Env
    → String
    → ExtractionResult
    → Option String
    → Option String
    → Option String
    → Option ℕ
    → ExtractMethod
    → Action InternalApiResponse
unfolding classify_as_success from_extraction_result get_extraction_confidence_floor
    tenant_has_confidence_floor get_missing_required_fields calculate_average_non_empty_confidence
    is_below
classify_extraction_result env key result none tenant_id batch_id started_at method =
    raise value_error
classify_extraction_result env key result (some output_uri) tenant_id batch_id started_at method =
    let confidence_floor = get_extraction_confidence_floor env tenant_id in
    let avg =
      calculate_average_non_empty_confidence result.field_confidence_scores result.field_empty_list
        result.field_missing_geometry_list in
    let rule_fields =
      get_missing_required_fields env.rules tenant_id (some result.document_type)
        result.field_empty_list result.field_missing_geometry_list in
    classify_as_success env key ResponseCode.success
      (from_extraction_result result (some output_uri)) method (is_below avg confidence_floor)
      (some (is_some rule_fields)) (first_of rule_fields) (second_of rule_fields)
      (some confidence_floor) (some (not (tenant_has_confidence_floor env tenant_id))) started_at
      batch_id (some result)

-- ===== src/Response/Outcome.antt =====
-- What the response of a document says for each status.
use strata_documentai_api_en.Prelude.{
  String, ◌≡◌, refl, Bool, true, false, Option, none, some, List, [], ◌∷◌, arith, ◌⊎◌, ◌≢◌, ◌↔◌,
  is_false, is_true, if◌then◌else◌,
}
use strata_documentai_api_en.Status.{
  ProcessStatus, ai_consent_declined, excluded_per_preclassification, not_implemented,
  blueprint_disabled, success, timed_out, is_classified, is_in,
}
use strata_documentai_api_en.Codes.{ResponseCode, get_message}
use strata_documentai_api_en.Rules.{RulesTable}
use strata_documentai_api_en.Document.{V1JobStatus, Field, V1Response, ClassificationData, Document}
use strata_documentai_api_en.Response.{extraction_rules_of, is_empty, build_v1_api_response}

module _ (rules : RulesTable) (missing_geo : Bool) (fields : List (String × Field)) (d : Document)
    (classification : Option ClassificationData) (error_message : Option String) where
  abbrev response : ProcessStatus → V1Response
  response s = build_v1_api_response rules missing_geo fields d s classification error_message

  -- The response calls a document unfinished exactly when its status is not classified, or is one of
  -- four classified statuses for which the table of terminal responses has no entry: blueprint
  -- disabled, excluded per preclassification, not implemented and timed out.
  pub processing_iff :
      (s : ProcessStatus)
      → ((response s).job_status ≡ V1JobStatus.processing) ↔ (
          (is_classified s ≡ false)
          ⊎ (is_in s (
                blueprint_disabled ∷ excluded_per_preclassification ∷ not_implemented ∷ timed_out
                ∷ [])
              ≡ true))
  unfolding build_v1_api_response is_classified is_in
  processing_iff ai_consent_declined = (λ h. ground arith, λ h. ground arith)
  processing_iff _ = (λ h. ground arith, λ h. ground arith)

  -- A response code other than none is always accompanied by its message.
  pub code_has_message :
      (s : ProcessStatus) {c : ResponseCode}
      → (response s).response_code ≡ some c
      → (response s).response_message ≡ some (get_message c)
  unfolding build_v1_api_response
  code_has_message ai_consent_declined h = ground arith
  code_has_message _ h = ground arith

-- The ways to the response code of a successful document, in the order in which the code decides.
pub data CodeOfSuccess (missing : List String) (category_match below_floor : Option Bool)
    : ResponseCode → Type 0 where
  by_missing_fields :
      missing ≢ [] → CodeOfSuccess missing category_match below_floor ResponseCode.missing_fields
  by_category :
      missing ≡ []
      → category_match ≡ some false
      → CodeOfSuccess missing category_match below_floor ResponseCode.miscategorized
  by_confidence :
      missing ≡ []
      → category_match ≢ some false
      → below_floor ≡ some true
      → CodeOfSuccess missing category_match below_floor ResponseCode.low_extraction_confidence
  by_success :
      missing ≡ []
      → category_match ≢ some false
      → below_floor ≢ some true
      → CodeOfSuccess missing category_match below_floor ResponseCode.success

choose :
    (missing : List String) (category_match below_floor : Option Bool)
    → CodeOfSuccess missing category_match below_floor (
        if is_empty missing
        then (if is_false category_match
            then ResponseCode.miscategorized
            else if is_true below_floor
            then ResponseCode.low_extraction_confidence
            else ResponseCode.success)
        else ResponseCode.missing_fields)
choose (x ∷ xs) m b = by_missing_fields (λ e. cc)
choose [] (some false) b = by_category refl refl
choose [] (some true) (some true) = by_confidence refl (λ e. cc) refl
choose [] (some true) (some false) = by_success refl (λ e. cc) (λ e. cc)
choose [] (some true) none = by_success refl (λ e. cc) (λ e. cc)
choose [] none (some true) = by_confidence refl (λ e. cc) refl
choose [] none (some false) = by_success refl (λ e. cc) (λ e. cc)
choose [] none none = by_success refl (λ e. cc) (λ e. cc)

-- The response of a successful document is marked completed and carries a code: that missing
-- required fields are reported, or else that the category does not match, or else that the confidence
-- is below the floor, or else that all is well.
pub success_code :
    (rules : RulesTable) (missing_geo : Bool) (fields : List (String × Field)) (d : Document)
    (classification : Option ClassificationData) (error_message : Option String)
    → let r =
        build_v1_api_response rules missing_geo fields d success classification error_message in
      (r.job_status ≡ V1JobStatus.completed)
      × (c : ResponseCode) × (r.response_code ≡ some c)
      × CodeOfSuccess
          (extraction_rules_of rules missing_geo d fields).1
          d.preclassification_category_match
          d.below_extraction_confidence_floor
          c
unfolding build_v1_api_response
success_code rules missing_geo fields d classification error_message = (
  refl,
  _,
  refl,
  choose (extraction_rules_of rules missing_geo d fields).1 d.preclassification_category_match
      d.below_extraction_confidence_floor,
)

-- ===== src/Classify/Refused.antt =====
-- The classifications of documentai-api/src/documentai_api/classifiers/document_classification.py that
-- name a method, on an open document that has no map of responses by method.
use strata_documentai_api_en.Prelude.{
  ℕ, String, Bool, ◌≡◌, refl, ap, sym, subst, true, Option, none, some, lookup, List, is_some, not,
}
use strata_documentai_api_en.Status.{ProcessStatus, ExtractMethod, success, is_classified}
use strata_documentai_api_en.Codes.{ResponseCode}
use strata_documentai_api_en.Rules.{get_missing_required_fields}
use strata_documentai_api_en.Document.{
  UpdateDdbRecord, ClassificationData, ExtractionResult, InternalApiResponse, update_record,
  from_extraction_result,
}
use strata_documentai_api_en.Classify.{
  write_terminal_status, is_open, is_authoritative, classify_with, classify_as_success,
}
use strata_documentai_api_en.Classify.Extraction.{
  classify_extraction_result, first_of, second_of, get_extraction_confidence_floor,
  tenant_has_confidence_floor,
}
use strata_documentai_api_en.Classify.Ended.{write_HasLanded}
use strata_documentai_api_en.Classify.Methods.{write_without_map}
use strata_documentai_api_en.Finality.{StatusAt}
use strata_documentai_api_en.Lifecycle.Arrivals.{internal_IsPure}
use strata_documentai_api_en.Store.{document_or_empty}
use strata_documentai_api_en.Store.State.{World, Env}
use strata_documentai_api_en.Store.Actions.{
  Outcome, Error, Action, raised, validation_error, pure, proceed, ◌>>=◌, ◌>>◌,
}

-- The action raised `e`, and left the status `s` under the key all the same.
pub record HasRaised {A : Type 0} (key : String) (s : ProcessStatus) (e : Error)
    (r : Outcome A × World) : Type 0 where
  pub is_raised : r.0 ≡ raised e
  pub at : StatusAt key s r.1

pub bind_HasRaised :
    {A B : Type 0} (m : Action A) (f : A → Action B) (key : String) (s : ProcessStatus) (e : Error)
    (w : World)
    → HasRaised key s e (m w)
    → HasRaised key s e ((m >>= f) w)
bind_HasRaised m f key s e w h =
    subst (HasRaised key s e) (sym (ap (λ o. proceed o f (m w).1) h.is_raised))
      (record { is_raised = refl; at = h.at })

module _ (env : Env) (key : String) (w : World) where
  write_HasRaised :
      (r : UpdateDdbRecord) (batch_id : Option String) (result : Option ExtractionResult)
      (m : ExtractMethod)
      → is_open (document_or_empty (lookup r.object_key w.documents)) ≡ true
      → is_classified r.status ≡ true
      → is_authoritative (some m) ≡ true
      → (document_or_empty (lookup r.object_key w.documents)).api_responses_by_method ≡ none
      → HasRaised r.object_key r.status validation_error
          (write_terminal_status env r batch_id result (some m) w)
  write_HasRaised r batch_id result m o c a n =
      subst (HasRaised r.object_key r.status validation_error)
        (sym (write_without_map env r batch_id result m w o c a n))
        (record { is_raised = refl; at = (write_HasLanded env r batch_id result w o c).at })

  module _ (o : is_open (document_or_empty (lookup key w.documents)) ≡ true)
      (n : (document_or_empty (lookup key w.documents)).api_responses_by_method ≡ none) where
    success_HasRaised :
        (code : ResponseCode) (c : ClassificationData) (m : ExtractMethod) (below : Bool)
        (configured : Option Bool) (missing required : Option (List String)) (floor : Option ℕ)
        (used_default : Option Bool) (started_at : Option ℕ) (batch_id : Option String)
        (result : ExtractionResult)
        → is_authoritative (some m) ≡ true
        → HasRaised key success validation_error (
            classify_as_success env key code c m below configured missing required floor
              used_default started_at batch_id
              (some result)
              w)
    unfolding classify_as_success classify_with is_classified
    success_HasRaised code c m below configured missing required floor used_default started_at
          batch_id result a =
        let make : InternalApiResponse → UpdateDdbRecord = λ r. record (update_record key success) {
          internal_api_response = some r;
          classification = some c;
          extraction_method = m;
          below_extraction_confidence_floor = below;
          extraction_rules_configured = configured;
          missing_required_field_list = missing;
          required_field_list = required;
          applied_extraction_confidence_floor = floor;
          used_default_confidence_floor = used_default;
          result_processor_started_at = started_at;
        } in
        let (r, e) = internal_IsPure key code c.matched_document_class none w in
        subst (HasRaised key success validation_error)
          (sym (
            ap
              (λ (x : Outcome InternalApiResponse × World).
                proceed x.0
                  (λ r.
                    write_terminal_status env (make r) batch_id (some result) (some m) >> pure r)
                  x.1)
              e))
          (bind_HasRaised (write_terminal_status env (make r) batch_id (some result) (some m)) _ key
            success validation_error w
            (write_HasRaised (make r) batch_id (some result) m o refl a n))

    -- For an open document without a map of responses by method, the classification of an extraction
    -- ends with DynamoDB's validation error, and the document has the status success.
    pub extraction_HasRaised :
        (result : ExtractionResult) (uri : String) (tenant_id batch_id : Option String)
        (started_at : Option ℕ) (m : ExtractMethod)
        → is_authoritative (some m) ≡ true
        → HasRaised key success validation_error
            (classify_extraction_result env key result (some uri) tenant_id batch_id started_at m w)
    unfolding classify_extraction_result
    extraction_HasRaised result uri tenant_id batch_id started_at m a =
        let rule_fields =
          get_missing_required_fields env.rules tenant_id (some result.document_type)
            result.field_empty_list result.field_missing_geometry_list in
        success_HasRaised ResponseCode.success (from_extraction_result result (some uri)) m _
          (some (is_some rule_fields)) (first_of rule_fields) (second_of rule_fields)
          (some (get_extraction_confidence_floor env tenant_id))
          (some (not (tenant_has_confidence_floor env tenant_id))) started_at batch_id result a

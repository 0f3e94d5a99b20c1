-- ===== src/Results/Persisting.antt =====
-- What the pipeline makes of a result where the document has no map of responses by method.
use strata_documentai_api_en.Classify.Methods.{write_without_map}
use strata_documentai_api_en.Store.{document_or_empty}
use strata_documentai_api_en.Classify.Responses.{get_internal_api_response}
use strata_documentai_api_en.Status.{
  success, no_custom_blueprint_matched, no_document_detected, value, is_classified, ExtractMethod,
  bda, same_status,
}
use strata_documentai_api_en.Classify.{
  plain_record, classify_as_no_document_detected, classify_as_success,
  classify_as_no_custom_blueprint_matched, write_terminal_status, classify_with, is_open,
}
use strata_documentai_api_en.Lifecycle.Arrivals.{internal_IsPure, IsPure}
use strata_documentai_api_en.Results.{
  to_runtime_error, with_extraction, without_extraction, classify_result, run_bda_result_pipeline,
  BdaResult, ProcessorResult, unmatched_result, no_match_data, min_char_length, timed,
}
use strata_documentai_api_en.Classify.Extraction.{
  classify_extraction_result, first_of, second_of, get_extraction_confidence_floor,
  tenant_has_confidence_floor,
}
use strata_documentai_api_en.Rules.{get_missing_required_fields}
use strata_documentai_api_en.Codes.{ResponseCode}
use strata_documentai_api_en.Document.{
  from_extraction_result, update_record, ClassificationData, ExtractionResult, UpdateDdbRecord,
  Document, InternalApiResponse,
}
use strata_documentai_api_en.Store.State.{World, Env}
use strata_documentai_api_en.Store.Actions.{
  catch, runtime_error, pure, Error, recover, proceed, ◌>>=◌, validation_error, raised, Action,
}
use strata_documentai_api_en.Prelude.{
  ℕ, String, ◌≡◌, refl, ap, ◌∙◌, true, Option, none, some, lookup, is_some, has_text, if_both, ltb,
  Bool, not, List,
}

abbrev error_of : Option ExtractionResult → Error
error_of none = validation_error
error_of (some result) = runtime_error

abbrev IsRefused : Action InternalApiResponse → World → Type 0
IsRefused m w = (m w).0 ≡ raised validation_error

bind_refused :
    {A B : Type 0} (m : Action A) (f : A → Action B) (w : World)
    → IsPure m w
    → ((x : A) → (f x w).0 ≡ raised validation_error)
    → ((m >>= f) w).0 ≡ raised validation_error
bind_refused m f w (x, e) k = ap (λ r. (proceed r.0 f r.1).0) e ∙ k x

module _ (env : Env) (key : String) (code : ResponseCode) (c : Option String)
    (make : InternalApiResponse → UpdateDdbRecord) (batch_id : Option String)
    (result : Option ExtractionResult) (m : ExtractMethod) (w : World) where
  classify_IsRefused :
      ((r : InternalApiResponse)
        → (write_terminal_status env (make r) batch_id result (some m) w).0
          ≡ raised validation_error)
      → IsRefused (classify_with env key code c make batch_id result (some m)) w
  unfolding classify_with
  classify_IsRefused h =
      bind_refused (get_internal_api_response key code c none) _ w
        (internal_IsPure key code c none w)
        (λ r.
          ap
            (λ o.
              (proceed o (λ _. pure r)
                (write_terminal_status env (make r) batch_id result (some m) w).1).0)
            (h r))

caught :
    (m : Action InternalApiResponse) (w : World)
    → IsRefused m w
    → (catch m to_runtime_error w).0 ≡ raised runtime_error
caught m w e = ap (λ r. (recover r to_runtime_error (m w).1).0) e

module _ (env : Env) (uri file_name : String) (d : Document) (b : BdaResult) (started_at : Option ℕ)
    (w : World) where
  write_refused :
      (r : UpdateDdbRecord) (batch_id : Option String) (result : Option ExtractionResult)
      → r.object_key ≡ file_name
      → is_classified r.status ≡ true
      → lookup file_name w.documents ≡ some d
      → is_open d ≡ true
      → d.api_responses_by_method ≡ none
      → (write_terminal_status env r batch_id result (some bda) w).0 ≡ raised validation_error
  write_refused r batch_id result k c h o n =
      let found : document_or_empty (lookup r.object_key w.documents) ≡ d =
        ap (λ j. document_or_empty (lookup j w.documents)) k ∙ ap document_or_empty h in
      ap (λ x. x.0)
        (write_without_map env r batch_id result bda w (ap is_open found ∙ o) c refl
          (ap (λ x. x.api_responses_by_method) found ∙ n))

  module _ (h : lookup file_name w.documents ≡ some d) (o : is_open d ≡ true)
      (n : d.api_responses_by_method ≡ none) where
    classified_IsRefused :
        (code : ResponseCode) (c : Option String) (make : InternalApiResponse → UpdateDdbRecord)
        (batch_id : Option String) (result : Option ExtractionResult)
        → ((r : InternalApiResponse) → (make r).object_key ≡ file_name)
        → ((r : InternalApiResponse) → is_classified (make r).status ≡ true)
        → IsRefused (classify_with env file_name code c make batch_id result (some bda)) w
    classified_IsRefused code c make batch_id result k s =
        classify_IsRefused env file_name code c make batch_id result bda w
          (λ r. write_refused (make r) batch_id result (k r) (s r) h o n)

    no_match_IsRefused :
        (c : ClassificationData)
        → IsRefused
            (classify_as_no_custom_blueprint_matched env file_name c started_at d.batch_id bda)
            w
    unfolding classify_as_no_custom_blueprint_matched is_classified
    no_match_IsRefused c =
        classified_IsRefused ResponseCode.no_blueprint_matched none
          (plain_record file_name no_custom_blueprint_matched (some c) started_at) d.batch_id none
          (λ r. refl) (λ r. refl)

    no_document_IsRefused :
        (c : ClassificationData)
        → IsRefused (classify_as_no_document_detected env file_name c started_at d.batch_id bda) w
    unfolding classify_as_no_document_detected is_classified
    no_document_IsRefused c =
        classified_IsRefused ResponseCode.no_document_detected none
          (plain_record file_name no_document_detected (some c) started_at) d.batch_id none
          (λ r. refl) (λ r. refl)

    unmatched_IsRefused :
        IsRefused (classify_result env (without_extraction uri file_name d b started_at)) w
    unfolding classify_result same_status value
    unmatched_IsRefused =
        if_both (λ (r : ProcessorResult). IsRefused (classify_result env r) w)
          (ltb min_char_length b.alphanumerics)
          (unmatched_result uri file_name d b started_at _ no_custom_blueprint_matched)
          (unmatched_result uri file_name d b started_at _ no_document_detected)
          (no_match_IsRefused (no_match_data uri b _))
          (no_document_IsRefused (no_match_data uri b _))

    success_IsRefused :
        (code : ResponseCode) (c : ClassificationData) (below : Bool) (configured : Option Bool)
        (missing required : Option (List String)) (floor : Option ℕ) (used_default : Option Bool)
        (result : ExtractionResult)
        → IsRefused
            (classify_as_success env file_name code c bda below configured missing required floor
              used_default started_at d.batch_id
              (some result))
            w
    unfolding classify_as_success is_classified
    success_IsRefused code c below configured missing required floor used_default result =
        classified_IsRefused code c.matched_document_class
          (λ r. record (update_record file_name success) {
            internal_api_response = some r;
            classification = some c;
            extraction_method = bda;
            below_extraction_confidence_floor = below;
            extraction_rules_configured = configured;
            missing_required_field_list = missing;
            required_field_list = required;
            applied_extraction_confidence_floor = floor;
            used_default_confidence_floor = used_default;
            result_processor_started_at = started_at;
          })
          d.batch_id (some result) (λ r. refl) (λ r. refl)

    extraction_IsRefused :
        (result : ExtractionResult) (tenant_id : Option String)
        → IsRefused
            (classify_extraction_result env file_name result
              (some uri)
              tenant_id
              d.batch_id
              started_at
              bda)
            w
    unfolding classify_extraction_result
    extraction_IsRefused result tenant_id =
        let rule_fields =
          get_missing_required_fields env.rules tenant_id (some result.document_type)
            result.field_empty_list result.field_missing_geometry_list in
        success_IsRefused ResponseCode.success (from_extraction_result result (some uri)) _
          (some (is_some rule_fields)) (first_of rule_fields) (second_of rule_fields)
          (some (get_extraction_confidence_floor env tenant_id))
          (some (not (tenant_has_confidence_floor env tenant_id))) result

    extracted_refused :
        (result : ExtractionResult)
        → (classify_result env
            (with_extraction uri file_name d b started_at w.now (some result))
            w).0
          ≡ raised runtime_error
    unfolding classify_result
    extracted_refused result =
        let r = timed d.extraction_started_at w.now result in
        caught
          (classify_extraction_result env file_name r (some uri) d.tenant_id d.batch_id started_at
            bda)
          w (extraction_IsRefused r d.tenant_id)

    result_refused :
        (x : Option ExtractionResult)
        → (classify_result env (with_extraction uri file_name d b started_at w.now x) w).0
          ≡ raised (error_of x)
    result_refused none = unmatched_IsRefused
    result_refused (some result) = extracted_refused result

  -- Where the record that belongs to a result is stored, open and without a map of responses by
  -- method, the pipeline ends with an error whatever the result holds: with a runtime error if it holds
  -- an extraction, with DynamoDB's validation error if it holds none.
  pub pipeline_refused :
      has_text (some uri) ≡ true
      → lookup file_name w.documents ≡ some d
      → is_open d ≡ true
      → d.api_responses_by_method ≡ none
      → (run_bda_result_pipeline env (some uri) (some (file_name, d)) (some b) started_at w).0
        ≡ raised (error_of b.extraction_result)
  unfolding run_bda_result_pipeline
  pipeline_refused t h o n = rw t (result_refused h o n b.extraction_result)

-- ===== src/Processor/Fallback.antt =====
-- An identity document whose extraction by Textract cannot be stored by method:
-- documentai-api/src/documentai_api/jobs/document_processor/main.py on what pipeline/textract.py raises.
use strata_documentai_api_en.Store.Keeps.{bind_returned}
use strata_documentai_api_en.Processor.Dispatch.{unless_handled}
use strata_documentai_api_en.Processor.Invocations.{invoke_bda-invoked, AreRetryable}
use strata_documentai_api_en.Prelude.{
  ◌||◌, ◌<◌, ℕ, String, Bool, ◌≡◌, refl, ap, ◌∙◌, sym, subst, true, false, Option, none, some,
  lookup, insert, lookup-insert_self, has_text, text_in, ◌∷◌, ◌&&◌, Table,
}
use strata_documentai_api_en.Status.{started, success, textract}
use strata_documentai_api_en.Document.{ExtractionResult, Document}
use strata_documentai_api_en.Response.{truthy}
use strata_documentai_api_en.Ddb.{set_extract_method}
use strata_documentai_api_en.Classify.{is_open}
use strata_documentai_api_en.Classify.Extraction.{classify_extraction_result}
use strata_documentai_api_en.Classify.Refused.{HasRaised, bind_HasRaised, extraction_HasRaised}
use strata_documentai_api_en.Finality.{StatusAt}
use strata_documentai_api_en.Lifecycle.Initial.{PreExtractionResult}
use strata_documentai_api_en.Store.{update_document, document_or_empty}
use strata_documentai_api_en.Store.State.{World, Env}
use strata_documentai_api_en.Store.Actions.{
  ◌>>=◌, Outcome, Action, Error, returned, raised, runtime_error, validation_error, pure, recover,
  proceed, catch, ◌>>◌,
}
use strata_documentai_api_en.Textract.{
  TextractRun, TextractField, Analysis, run_textract_pipeline, extract_textract_identity,
  after_extraction, persisted, to_runtime_error, result_of, with_supplemental, started_or,
  supported_content_types,
}
use strata_documentai_api_en.Processor.{
  invoked, attempts, resolve_project_arn, should_invoke_bda, invoke_bda_path, Run, invoke_textract,
  is_identity, not_handled,
}

-- What an analysis has to find for its result to be classified.
pub record IsFound (run : TextractRun) (content_type c uri : String) : Type 0 where
  pub analysis : Analysis
  pub field : String × TextractField
  pub fields : Table TextractField
  pub is_enabled : run.is_enabled ≡ true
  pub is_supported : text_in content_type supported_content_types ≡ true
  pub is_analysed : run.analysis ≡ some analysis
  pub has_class : truthy analysis.document_class ≡ some c
  pub has_fields : analysis.fields ≡ field ∷ fields
  pub has_output : run.output_uri ≡ some uri

abbrev marked_world : String → World → World
marked_world key w = record w {
  documents =
      insert key
        (record (document_or_empty (lookup key w.documents)) {
          extraction_started_at = some (started_or w.now (lookup key w.documents));
          extract_method = some textract;
        })
        w.documents;
}

recovered :
    {A : Type 0} (m : Action A) (f : Error → Action A) (w : World) (e : Error)
    → (m w).0 ≡ raised e
    → catch m f w ≡ f e (m w).1
recovered m f w e h = ap (λ o. recover o f (m w).1) h

module _ (env : Env) (run : TextractRun) (key content_type tenant_id c uri : String)
    (batch_id : Option String) (w : World) (found : IsFound run content_type c uri) where
  abbrev extracted_result : ExtractionResult
  extracted_result =
      result_of c (with_supplemental (found.field ∷ found.fields) found.analysis.supplemental)
        (started_or w.now (lookup key w.documents)) w.now

  extracted :
      extract_textract_identity run content_type key w
      ≡ (returned (some extracted_result), marked_world key w)
  unfolding extract_textract_identity set_extract_method update_document
  extracted =
      rw (found.is_enabled, found.is_supported)
        (rw found.is_analysed (rw (found.has_class, found.has_fields) refl))

  module _ (o : is_open (document_or_empty (lookup key w.documents)) ≡ true)
      (n : (document_or_empty (lookup key w.documents)).api_responses_by_method ≡ none) where
    persisted-HasRaised :
        (result : ExtractionResult)
        → HasRaised key success runtime_error
            (persisted env key tenant_id batch_id result (some uri) (marked_world key w))
    persisted-HasRaised result =
        let v = marked_world key w in
        let marked = ap document_or_empty (lookup-insert_self key _ w.documents) in
        let m =
          classify_extraction_result env key result (some uri) (some tenant_id) batch_id none
            textract in
        let h =
          bind_HasRaised m (λ _. pure true) key success validation_error v
            (extraction_HasRaised env key v (ap is_open marked ∙ o)
              (ap (λ d. d.api_responses_by_method) marked ∙ n) result uri (some tenant_id) batch_id
              none textract refl) in
        subst (HasRaised key success runtime_error)
          (sym (recovered (m >> pure true) to_runtime_error v validation_error h.is_raised))
          (record { is_raised = refl; at = h.at })

    pipeline_HasRaised :
        HasRaised key success runtime_error
          (run_textract_pipeline env run key content_type tenant_id batch_id w)
    unfolding run_textract_pipeline
    pipeline_HasRaised =
        subst
          (λ (x : Outcome (Option ExtractionResult) × World).
            HasRaised key success runtime_error
              (proceed x.0 (after_extraction env run key tenant_id batch_id) x.1))
          (sym extracted)
          (subst
            (λ u.
              HasRaised key success runtime_error
                (persisted env key tenant_id batch_id extracted_result u (marked_world key w)))
            (sym found.has_output) (persisted-HasRaised extracted_result))

-- The conditions under which the extraction by Textract cannot be stored by method.
pub record IsUnstorable (run : Run) (result : Option PreExtractionResult) (key : String) (w : World)
    : Type 0 where
  pub document_class : String
  pub uri : String
  pub is_found : IsFound run.textract_run run.content_type document_class uri
  pub is_tried : is_identity result && has_text (some run.content_type) && run.has_bytes ≡ true
  pub was_open : is_open (document_or_empty (lookup key w.documents)) ≡ true
  pub has_no_map : (document_or_empty (lookup key w.documents)).api_responses_by_method ≡ none

-- For an identity document in which Textract finds a class and a field, and that is open and has no map of responses
-- by method (as every document that is not a comparison), the attempt reports that nothing was
-- handled, so that the job goes on to the other service, though the document has the status success.
invoke_textract_lem :
    (env : Env) (run : Run) (result : Option PreExtractionResult) (key tenant_id : String)
    (batch_id : Option String) (w : World)
    → IsUnstorable run result key w
    → ((invoke_textract env run result key tenant_id batch_id w).0 ≡ returned false)
      × StatusAt key success (invoke_textract env run result key tenant_id batch_id w).1
unfolding invoke_textract
invoke_textract_lem env run result key tenant_id batch_id w u =
    let m = run_textract_pipeline env run.textract_run key run.content_type tenant_id batch_id in
    let h =
      pipeline_HasRaised env run.textract_run key run.content_type tenant_id u.document_class u.uri
        batch_id w u.is_found u.was_open u.has_no_map in
    let e = recovered m not_handled w runtime_error h.is_raised in
    rw u.is_tried (ap (λ r. r.0) e, subst (λ r. StatusAt key success r.1) (sym e) h.at)

-- For an identity document in which Textract finds a class and a field, and that is open and has no map of responses
-- by method, the attempt by Textract leaves the status success; and where the image, if it is to be
-- converted to gray first, is neither too large nor lost by that, and the other service is to be
-- invoked, has a project and takes the document at one of the attempts, the job goes on to start it,
-- so that the final status is overwritten by started.
pub restarted :
    (env : Env) (run : Run) (result : Option PreExtractionResult) (key tenant_id : String)
    (batch_id : Option String) (d : Document) (w : World) (project arn : String) (specific : Bool)
    (k pages seconds : ℕ) (apply_grayscale : Bool)
    → IsUnstorable run result key w
    → apply_grayscale && (run.optimization.too_large || run.optimization.failed) ≡ false
    → should_invoke_bda run d.preclassification_category ≡ true
    → ((v : World)
        → resolve_project_arn run d.preclassification_blueprint_match_category v
          ≡ (returned (some project, specific), v))
    → k < attempts env run run.max_attempts
    → AreRetryable env run 0 k
    → run.invocation k ≡ invoked arn pages seconds
    → StatusAt key success (invoke_textract env run result key tenant_id batch_id w).1
      × StatusAt key started
          ((invoke_textract env run result key tenant_id batch_id
              >>= unless_handled env run key d apply_grayscale batch_id)
            w).1
unfolding invoke_bda_path
restarted env run result key tenant_id batch_id d w project arn specific k pages seconds
      apply_grayscale u g s p lt hs h =
    let m = invoke_textract env run result key tenant_id batch_id in
    let (f, at) = invoke_textract_lem env run result key tenant_id batch_id w u in
    let v = (m w).1 in
    (
      at,
      rw (bind_returned m (unless_handled env run key d apply_grayscale batch_id) w false f) (
          rw (g, s)
            (rw (p v)
              (invoke_bda-invoked env run key project d.preclassification_blueprint_match_category
                batch_id specific v (p v) k arn pages seconds lt hs h).1)),
    )

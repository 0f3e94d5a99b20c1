-- ===== src/Textract.antt =====
-- The extraction of identity documents: documentai-api/src/documentai_api/extractors/textract.py,
-- processors/textract.py and pipeline/textract.py. What the services find in a document is an
-- argument.
use strata_documentai_api_en.Prelude.{
  ℕ, String, Bool, true, false, Option, none, some, List, [], ◌∷◌, has_text, text_in, map, insert,
  Table, if◌then◌else◌, lookup,
}
use strata_documentai_api_en.Status.{textract}
use strata_documentai_api_en.Document.{Document, ExtractionResult, ScoreMap}
use strata_documentai_api_en.Response.{truthy}
use strata_documentai_api_en.Timing.{get_elapsed_time_seconds}
use strata_documentai_api_en.Ddb.{set_extract_method}
use strata_documentai_api_en.Classify.Extraction.{classify_extraction_result}
use strata_documentai_api_en.Store.State.{Env}
use strata_documentai_api_en.Store.Actions.{
  Action, Error, runtime_error, pure, raise, catch, ◌>>=◌, ◌>>◌,
}

pub record TextractField : Type 0 where
  pub confidence : ℕ
  pub value : Option String

-- What `analyze_id` finds: the class of the document, its fields, and those that a second reading adds
-- (none where that fails or is not configured).
pub record Analysis : Type 0 where
  pub document_class : Option String
  pub fields : Table TextractField
  pub supplemental : Table TextractField

-- Whether the extraction is enabled, what the analysis finds (nothing where it raises), and where the
-- output is written (nothing where that raises).
pub record TextractRun : Type 0 where
  pub is_enabled : Bool
  pub analysis : Option Analysis
  pub output_uri : Option String

abbrev pub supported_content_types : List String
supported_content_types = "image/jpeg" ∷ "image/png" ∷ "application/pdf" ∷ []

abbrev pub with_supplemental : Table TextractField → Table TextractField → Table TextractField
with_supplemental fields [] = fields
with_supplemental fields ((name, f) ∷ more) = with_supplemental (insert name f fields) more

abbrev names_of : Table TextractField → List String
names_of [] = []
names_of ((name, f) ∷ fields) =
    let rest = names_of fields in if has_text f.value then rest else name ∷ rest

abbrev scores_of_fields : Table TextractField → List ScoreMap
scores_of_fields = map (λ p. record { first = (p.0, p.1.confidence); others = [] })

abbrev pub started_or : ℕ → Option Document → ℕ
started_or now none = now
started_or now (some d) = elim d.extraction_started_at [ none ↦ now | some t ↦ t ]

abbrev pub result_of : String → Table TextractField → ℕ → ℕ → ExtractionResult
result_of document_class fields started completed = record {
  document_type = document_class;
  field_confidence_scores = scores_of_fields fields;
  processing_started_at = some started;
  processing_completed_at = some completed;
  processing_duration_seconds = some (get_elapsed_time_seconds started completed);
  field_empty_list = names_of fields;
  field_missing_geometry_list = [];
  matched_blueprint_name = none;
  matched_blueprint_confidence = none;
}

abbrev pub mapped :
    String
    → Option String
    → Table TextractField
    → Table TextractField
    → Action (Option ExtractionResult)
mapped ddb_key none fields supplemental w = pure none w
mapped ddb_key (some c) [] supplemental w = pure none w
mapped ddb_key (some c) fields supplemental w =
    let started = started_or w.now (lookup ddb_key w.documents) in
    (set_extract_method ddb_key textract started
        >> pure (some (result_of c (with_supplemental fields supplemental) started w.now)))
      w

abbrev pub of_analysis : String → Option Analysis → Action (Option ExtractionResult)
of_analysis ddb_key none = pure none
of_analysis ddb_key (some a) = mapped ddb_key (truthy a.document_class) a.fields a.supplemental

unfoldable pub extract_textract_identity :
    TextractRun → String → String → Action (Option ExtractionResult)
unfolding set_extract_method get_elapsed_time_seconds
extract_textract_identity run content_type ddb_key =
    if run.is_enabled
    then if text_in content_type supported_content_types
      then of_analysis ddb_key run.analysis
      else pure none
    else pure none

abbrev pub to_runtime_error : {A : Type 0} → Error → Action A
to_runtime_error e = raise runtime_error

abbrev pub persisted :
    Env → String → String → Option String → ExtractionResult → Option String → Action Bool
persisted env ddb_key tenant_id batch_id result none = raise runtime_error
persisted env ddb_key tenant_id batch_id result (some uri) =
    catch
      (classify_extraction_result env ddb_key result (some uri) (some tenant_id) batch_id none
          textract
        >> pure true)
      to_runtime_error

-- `process_textract_result`, for a tenant that is known, and the classification
abbrev pub after_extraction :
    Env → TextractRun → String → String → Option String → Option ExtractionResult → Action Bool
after_extraction env run ddb_key tenant_id batch_id none = pure false
after_extraction env run ddb_key tenant_id batch_id (some result) =
    persisted env ddb_key tenant_id batch_id result run.output_uri

unfoldable pub run_textract_pipeline :
    Env → TextractRun → String → String → String → Option String → Action Bool
unfolding extract_textract_identity classify_extraction_result
run_textract_pipeline env run ddb_key content_type tenant_id batch_id =
    extract_textract_identity run content_type ddb_key
    >>= after_extraction env run ddb_key tenant_id batch_id

-- ===== src/Results.antt =====
-- documentai-api/src/documentai_api/processors/bda.py and pipeline/bda.py: from a result of the
-- extraction service to a classification. What is read of the result is an argument: what
-- `extract_bda_result` returns, and the number of letters and digits of the text that it holds (zero
-- without a text). The text of an error is not modelled.
pub mod Persisting
use strata_documentai_api_en.Prelude.{
  ℕ, String, Bool, true, false, Option, none, some, ltb, has_text, if◌then◌else◌,
}
use strata_documentai_api_en.Status.{
  ProcessStatus, no_custom_blueprint_matched, no_document_detected, same_status, bda,
}
use strata_documentai_api_en.Document.{
  ClassificationData, no_data, ExtractionResult, InternalApiResponse, Document,
}
use strata_documentai_api_en.Timing.{get_elapsed_time_seconds}
use strata_documentai_api_en.Classify.{
  classify_as_no_custom_blueprint_matched, classify_as_no_document_detected,
}
use strata_documentai_api_en.Classify.Extraction.{classify_extraction_result}
use strata_documentai_api_en.Store.State.{World, Env}
use strata_documentai_api_en.Store.Actions.{
  Action, Error, value_error, runtime_error, pure, raise, returned, catch, ◌>>=◌,
}

pub record BdaResult : Type 0 where
  pub extraction_result : Option ExtractionResult
  pub matched_blueprint_name : String
  pub matched_blueprint_confidence : Option ℕ
  pub document_type : Option String
  pub alphanumerics : ℕ

pub record ProcessorResult : Type 0 where
  pub object_key : String
  pub tenant_id : Option String
  pub batch_id : Option String
  pub result_processor_started_at : Option ℕ
  pub extraction_result : Option ExtractionResult
  pub output_uri : Option String
  pub classification_data : Option ClassificationData
  pub status : Option ProcessStatus

-- `SystemDefaults.BDA_DOCUMENT_DETECTION_MIN_CHAR_LENGTH`
abbrev min_char_length : ℕ
min_char_length = 50

abbrev timed : Option ℕ → ℕ → ExtractionResult → ExtractionResult
timed none now result = result
timed (some t) now result = record result {
  processing_started_at = some t;
  processing_completed_at = some now;
  processing_duration_seconds = some (get_elapsed_time_seconds t now);
}

abbrev no_match_data : String → BdaResult → String → ClassificationData
no_match_data uri b message = record no_data {
  bda_output_s3_uri = some uri;
  matched_document_class = b.document_type;
  matched_blueprint_name = some b.matched_blueprint_name;
  matched_blueprint_confidence = b.matched_blueprint_confidence;
  additional_info = some message;
}

abbrev base_result : String → Document → Option ℕ → ProcessorResult
base_result file_name d started_at = record {
  object_key = file_name;
  tenant_id = d.tenant_id;
  batch_id = d.batch_id;
  result_processor_started_at = started_at;
  extraction_result = none;
  output_uri = none;
  classification_data = none;
  status = none;
}

abbrev unmatched_result :
    String → String → Document → BdaResult → Option ℕ → String → ProcessStatus → ProcessorResult
unmatched_result uri file_name d b started_at message status =
    record (base_result file_name d started_at) {
      classification_data = some (no_match_data uri b message);
      status = some status;
    }

abbrev without_extraction : String → String → Document → BdaResult → Option ℕ → ProcessorResult
without_extraction uri file_name d b started_at =
    if ltb min_char_length b.alphanumerics
    then unmatched_result uri file_name d b started_at
        "No matching custom blueprint found. Document detected, but not implemented."
        no_custom_blueprint_matched
    else unmatched_result uri file_name d b started_at
        "No matching custom blueprint found. Unable to extract meaningful document content."
        no_document_detected

abbrev with_extraction :
    String
    → String
    → Document
    → BdaResult
    → Option ℕ
    → ℕ
    → Option ExtractionResult
    → ProcessorResult
with_extraction uri file_name d b started_at now none =
    without_extraction uri file_name d b started_at
with_extraction uri file_name d b started_at now (some result) =
    record (base_result file_name d started_at) {
      extraction_result = some (timed d.extraction_started_at now result);
      output_uri = some uri;
    }

-- `process_bda_result`: the URI of the output, the record that it belongs to, and the result, each of
-- which may be missing
unfoldable pub process_bda_result :
    Option String
    → Option (String × Document)
    → Option BdaResult
    → Option ℕ
    → Action ProcessorResult
unfolding get_elapsed_time_seconds
process_bda_result (some uri) (some (file_name, d)) (some b) started_at w =
    if has_text (some uri)
    then (returned (with_extraction uri file_name d b started_at w.now b.extraction_result), w)
    else raise value_error w
process_bda_result _ _ _ started_at w = raise value_error w

abbrev to_runtime_error : Error → Action InternalApiResponse
to_runtime_error e = raise runtime_error

abbrev classify_status :
    Env
    → ProcessorResult
    → Option ProcessStatus
    → Option ClassificationData
    → Action InternalApiResponse
classify_status env r (some status) (some c) =
    if same_status status no_custom_blueprint_matched
    then classify_as_no_custom_blueprint_matched env r.object_key c r.result_processor_started_at
        r.batch_id bda
    else classify_as_no_document_detected env r.object_key c r.result_processor_started_at
        r.batch_id bda
classify_status env r _ _ = raise value_error

abbrev classify_by : Env → ProcessorResult → Option ExtractionResult → Action InternalApiResponse
classify_by env r none = classify_status env r r.status r.classification_data
classify_by env r (some result) =
    catch
      (classify_extraction_result env r.object_key result r.output_uri r.tenant_id r.batch_id
        r.result_processor_started_at bda)
      to_runtime_error

-- `_classify`
unfoldable pub classify_result : Env → ProcessorResult → Action InternalApiResponse
unfolding same_status classify_as_no_custom_blueprint_matched classify_as_no_document_detected
    classify_extraction_result
classify_result env r = classify_by env r r.extraction_result

unfoldable pub run_bda_result_pipeline :
    Env
    → Option String
    → Option (String × Document)
    → Option BdaResult
    → Option ℕ
    → Action InternalApiResponse
unfolding process_bda_result classify_result
run_bda_result_pipeline env uri found b started_at =
    process_bda_result uri found b started_at >>= classify_result env

-- ===== src/Classify/Responses.antt =====
-- The responses that a classification writes: `get_internal_api_response` of
-- documentai-api/src/documentai_api/utils/response_builder.py, and `finalize_v1_response` and
-- `write_extract_method_response` of classifiers/api_response.py.
use strata_documentai_api_en.Prelude.{
  ℤ, String, ◌&&◌, Option, none, some, List, [], has_text, or_else, is_some, if◌then◌else◌, lookup,
  insert,
}
use strata_documentai_api_en.Status.{
  ProcessStatus, success, same_status, ExtractMethod, bda, textract, ocr_mapping,
}
use strata_documentai_api_en.Codes.{ResponseCode, get_message, is_success_response_code}
use strata_documentai_api_en.Document.{
  DurationEntry, Field, V1Response, ClassificationData, ExtractionResult, InternalApiResponse,
  Document,
}
use strata_documentai_api_en.Response.{build_v1_api_response}
use strata_documentai_api_en.Ddb.{get_user_provided_document_category, uri_of}
use strata_documentai_api_en.Store.{update_document, always, document_or_empty}
use strata_documentai_api_en.Store.State.{Env}
use strata_documentai_api_en.Store.Actions.{
  Action, validation_error, value_error, returned, raised, pure, raise, ◌>>=◌, ◌>>◌,
}

abbrev pub category_or_stored : String → Option String → Action (Option String)
category_or_stored object_key category =
    if has_text category then pure category else get_user_provided_document_category object_key

unfoldable pub get_internal_api_response :
    String → ResponseCode → Option String → Option String → Action InternalApiResponse
unfolding get_user_provided_document_category is_success_response_code
get_internal_api_response object_key code matched_document_class category =
    category_or_stored object_key category >>= λ document_category. pure (record {
      validation_passed = is_success_response_code code;
      document_category = document_category;
      matched_document_class = matched_document_class;
      response_code = code;
      response_message = get_message code;
    })

abbrev pub v1_or_error :
    Env
    → ProcessStatus
    → Option ClassificationData
    → Option String
    → Option Document
    → Action V1Response
v1_or_error env status c error_message none = raise value_error
v1_or_error env status c error_message (some d) =
    pure (
      build_v1_api_response env.rules env.missing_geo (env.output_fields d) d status c
        error_message)

-- `build_v1_api_response` with its read of the record
unfoldable pub stored_v1_response :
    Env → String → ProcessStatus → Option ClassificationData → Option String → Action V1Response
unfolding build_v1_api_response
stored_v1_response env object_key status c error_message w =
    v1_or_error env status c error_message (lookup object_key w.documents) w

abbrev pub set_v1 : V1Response → Document → Document
set_v1 v1 d = record d {
  v1_api_response_json = some v1;
  response_code = or_else v1.response_code d.response_code;
}

unfoldable pub finalize_v1_response :
    Env → String → ProcessStatus → Option ClassificationData → Option String → Action (Unit {0})
unfolding stored_v1_response update_document
finalize_v1_response env object_key status c error_message =
    stored_v1_response env object_key status c error_message >>= λ v1.
    update_document object_key (set_v1 v1) always

unfoldable pub method_key : ExtractMethod → String
method_key bda = "bda"
method_key textract = "textract"
method_key ocr_mapping = "ocr-mapping"

abbrev pub set_or_refuse {ℓ} :
    {V : Type ℓ}
    → String
    → (List (String × V) → Document)
    → String
    → V
    → Option (List (String × V))
    → Action (Unit {0})
set_or_refuse object_key assign key value none w = (raised validation_error, w)
set_or_refuse object_key assign key value (some m) w = (
  returned tt,
  record w { documents = insert object_key (assign (insert key value m)) w.documents },
)

-- `SET attribute.#method = :value`: DynamoDB refuses the path where the attribute holds no map.
abbrev pub set_in_map {ℓ} :
    {V : Type ℓ}
    → String
    → (Document → Option (List (String × V)))
    → (Document → List (String × V) → Document)
    → String
    → V
    → Action (Unit {0})
set_in_map object_key attribute assign key value w =
    let d = document_or_empty (lookup object_key w.documents) in
    set_or_refuse object_key (assign d) key value (attribute d) w

abbrev pub set_responses : Document → List (String × V1Response) → Document
set_responses d m = record d { api_responses_by_method = some m }

abbrev pub set_durations : Document → List (String × DurationEntry) → Document
set_durations d m = record d { durations_by_method = some m }

abbrev pub method_fields_of :
    Env
    → Document
    → ProcessStatus
    → ExtractMethod
    → Option ExtractionResult
    → Option ClassificationData
    → List (String × Field)
method_fields_of env d status method result c =
    if same_status status success && is_some result
    then env.method_fields d (uri_of c) method
    else []

abbrev pub duration_entry : String → ExtractMethod → ExtractionResult → Option ℤ → Action (Unit {0})
duration_entry object_key method result none = pure tt
duration_entry object_key method result (some seconds) =
    set_in_map object_key (λ d. d.durations_by_method) set_durations (method_key method)
      (record {
        extraction_duration_seconds = seconds;
        processing_started_at = result.processing_started_at;
        processing_completed_at = result.processing_completed_at;
      })

abbrev pub write_duration : String → ExtractMethod → Option ExtractionResult → Action (Unit {0})
write_duration object_key method none = pure tt
write_duration object_key method (some result) =
    duration_entry object_key method result result.processing_duration_seconds

unfoldable pub write_extract_method_response :
    Env
    → String
    → ProcessStatus
    → ExtractMethod
    → Option ExtractionResult
    → Option ClassificationData
    → Option String
    → Action (Unit {0})
unfolding stored_v1_response same_status method_key
write_extract_method_response env object_key status method result c error_message =
    stored_v1_response env object_key status c error_message
    >>= (λ v1 w.
        set_in_map object_key (λ d. d.api_responses_by_method) set_responses (method_key method)
          (record v1 {
            fields = some (
                method_fields_of env (document_or_empty (lookup object_key w.documents)) status
                  method result c);
          })
          w)
    >> write_duration object_key method result

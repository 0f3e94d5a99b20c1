-- ===== src/Document.antt =====
-- The data that the pipeline passes around: documentai-api/src/documentai_api/dtos/classification.py,
-- dtos/processing.py, dtos/ddb.py, constants/api.py and the attributes of schemas/document_metadata.py
-- that the modelled operations read or write. An attribute that an item may lack is an `Option`.
-- A time is a number of hundredths of a second, the precision that the program keeps; a confidence, a
-- `float` of at most four decimals in the program, is a number of ten-thousandths. A day is the number
-- of days since the clock's zero.
use strata_documentai_api_en.Prelude.{ℕ, ℤ, String, Bool, false, Option, none, some, List}
use strata_documentai_api_en.Status.{ProcessStatus, ExtractMethod, bda}
use strata_documentai_api_en.Codes.{ResponseCode}

pub data V1JobStatus : Type 0 where
  ai_consent_declined completed conversion_failed deleted failed processing : V1JobStatus

-- One extracted field: its confidence and the text that was read.
pub record Field : Type 0 where
  pub confidence : ℕ
  pub value : Option String

-- The dictionary written to `v1ApiResponseJson`; a key that it lacks is `none`.
pub record V1Response : Type 0 where
  pub job_id : Option String
  pub job_status : V1JobStatus
  pub created_at : Option ℕ
  pub completed_at : Option ℕ
  pub total_processing_time_seconds : Option ℤ
  pub matched_document_class : Option String
  pub user_provided_document_category : Option String
  pub fields : Option (List (String × Field))
  pub missing_required_field_list : Option (List String)
  pub message : String
  pub response_code : Option ResponseCode
  pub response_message : Option String
  pub inferred_document_type : Option String
  pub below_extraction_confidence_floor : Option Bool
  pub additional_info : Option String
  pub error : Option String

pub record InternalApiResponse : Type 0 where
  pub validation_passed : Bool
  pub document_category : Option String
  pub matched_document_class : Option String
  pub response_code : ResponseCode
  pub response_message : String

-- `dict[str, float]` with at least one entry, in order: every reader makes one entry for each field.
pub record ScoreMap : Type 0 where
  pub first : String × ℕ
  pub others : List (String × ℕ)

pub record ClassificationData : Type 0 where
  pub bda_output_s3_uri : Option String
  pub matched_document_class : Option String
  pub matched_blueprint_name : Option String
  pub matched_blueprint_confidence : Option ℕ
  pub field_confidence_scores : Option (List ScoreMap)
  pub field_below_threshold_list : Option (List String)
  pub field_empty_list : Option (List String)
  pub field_missing_geometry_list : Option (List String)
  pub additional_info : Option String

abbrev pub no_data : ClassificationData
no_data = record {
  bda_output_s3_uri = none;
  matched_document_class = none;
  matched_blueprint_name = none;
  matched_blueprint_confidence = none;
  field_confidence_scores = none;
  field_below_threshold_list = none;
  field_empty_list = none;
  field_missing_geometry_list = none;
  additional_info = none;
}

-- A mean, kept as the fraction that it is.
pub record Fraction : Type 0 where
  pub total : ℕ
  pub count : ℕ

pub record FieldMetrics : Type 0 where
  pub field_count : ℕ
  pub field_count_not_empty : ℕ
  pub field_not_empty_avg_confidence : Option Fraction

pub record UpdateDdbRecord : Type 0 where
  pub object_key : String
  pub status : ProcessStatus
  pub internal_api_response : Option InternalApiResponse
  pub classification : Option ClassificationData
  pub bda_invocation_arn : Option String
  pub bda_project_arn_used : Option String
  pub used_category_specific_project : Bool
  pub error_message : Option String
  pub below_extraction_confidence_floor : Bool
  pub extraction_rules_configured : Option Bool
  pub missing_required_field_list : Option (List String)
  pub required_field_list : Option (List String)
  pub applied_extraction_confidence_floor : Option ℕ
  pub used_default_confidence_floor : Option Bool
  pub pages_sent_to_bda : Option ℕ
  pub bda_invoke_duration_seconds : Option ℕ
  pub bda_invoke_retry_count : Option ℕ
  pub result_processor_started_at : Option ℕ
  pub extraction_method : ExtractMethod

-- The defaults of the class, over the two fields that have none. Its field `data` is
-- `classification` here.
abbrev pub update_record : String → ProcessStatus → UpdateDdbRecord
update_record object_key status = record {
  object_key = object_key;
  status = status;
  internal_api_response = none;
  classification = none;
  bda_invocation_arn = none;
  bda_project_arn_used = none;
  used_category_specific_project = false;
  error_message = none;
  below_extraction_confidence_floor = false;
  extraction_rules_configured = none;
  missing_required_field_list = none;
  required_field_list = none;
  applied_extraction_confidence_floor = none;
  used_default_confidence_floor = none;
  pages_sent_to_bda = none;
  bda_invoke_duration_seconds = none;
  bda_invoke_retry_count = none;
  result_processor_started_at = none;
  extraction_method = bda;
}

-- dtos/extraction.py, the attributes that classification reads
pub record ExtractionResult : Type 0 where
  pub document_type : String
  pub field_confidence_scores : List ScoreMap
  pub processing_started_at : Option ℕ
  pub processing_completed_at : Option ℕ
  pub processing_duration_seconds : Option ℤ
  pub field_empty_list : List String
  pub field_missing_geometry_list : List String
  pub matched_blueprint_name : Option String
  pub matched_blueprint_confidence : Option ℕ

pub record DurationEntry : Type 0 where
  pub extraction_duration_seconds : ℤ
  pub processing_started_at : Option ℕ
  pub processing_completed_at : Option ℕ

unfoldable pub from_extraction_result : ExtractionResult → Option String → ClassificationData
from_extraction_result r output_uri = record {
  bda_output_s3_uri = output_uri;
  matched_document_class = some r.document_type;
  matched_blueprint_name = r.matched_blueprint_name;
  matched_blueprint_confidence = r.matched_blueprint_confidence;
  field_confidence_scores = some r.field_confidence_scores;
  field_below_threshold_list = none;
  field_empty_list = some r.field_empty_list;
  field_missing_geometry_list = some r.field_missing_geometry_list;
  additional_info = none;
}

-- `OcrMappingMessage` of dtos/processing.py
pub record OcrMappingMessage : Type 0 where
  pub ddb_key : String
  pub document_type : String
  pub ocr_blocks_uri : String
  pub tenant_id : Option String
  pub batch_id : Option String

-- An item of the document-metadata table, under its key `fileName`.
pub record Document : Type 0 where
  pub process_status : Option ProcessStatus
  pub job_id : Option String
  pub batch_id : Option String
  pub tenant_id : Option String
  pub user_provided_document_category : Option String
  pub ai_consent_flag : Option Bool
  pub is_compare : Option Bool
  pub created_at : Option ℕ
  pub updated_at : Option ℕ
  pub preclassification_category : Option String
  pub preclassification_category_match : Option Bool
  pub preclassification_blueprint_match_category : Option String
  pub preclassification_blueprint_matched_type : Option String
  pub output_s3_uri : Option String
  pub matched_blueprint_name : Option String
  pub matched_blueprint_confidence : Option ℕ
  pub matched_document_class : Option String
  pub field_confidence_scores : Option (List ScoreMap)
  pub field_empty_list : Option (List String)
  pub field_missing_geometry_list : Option (List String)
  pub field_below_threshold_list : Option (List String)
  pub field_count : Option ℕ
  pub field_count_not_empty : Option ℕ
  pub field_not_empty_avg_confidence : Option Fraction
  pub additional_info : Option String
  pub response_json : Option InternalApiResponse
  pub response_code : Option ResponseCode
  pub v1_api_response_json : Option V1Response
  pub error_message : Option String
  pub bda_invocation_arn : Option String
  pub bda_invocation_id : Option String
  pub bda_region_used : Option String
  pub bda_project_arn_used : Option String
  pub extract_method : Option ExtractMethod
  pub used_category_specific_project : Option Bool
  pub below_extraction_confidence_floor : Option Bool
  pub extraction_rules_configured : Option Bool
  pub missing_required_field_list : Option (List String)
  pub required_field_list : Option (List String)
  pub extraction_confidence_threshold : Option ℕ
  pub used_default_extraction_confidence_threshold : Option Bool
  pub pages_sent_to_bda : Option ℕ
  pub bda_invoke_duration_seconds : Option ℕ
  pub bda_invoke_retry_count : Option ℕ
  pub result_processor_started_at : Option ℕ
  pub extraction_started_at : Option ℕ
  pub extraction_completed_at : Option ℕ
  pub processed_date : Option ℕ
  pub extraction_wait_time_seconds : Option ℤ
  pub extraction_processing_time_seconds : Option ℤ
  pub total_processing_time_seconds : Option ℤ
  pub bda_started_at : Option ℕ
  pub bda_completed_at : Option ℕ
  pub api_responses_by_method : Option (List (String × V1Response))
  pub durations_by_method : Option (List (String × DurationEntry))
  pub deletion_type : Option String
  pub is_password_protected : Option Bool
  pub is_document_blurry : Option Bool
  pub is_document_blurry_reason : Option String

-- An item that has its key alone, as an update of an absent item starts from.
abbrev pub empty_document : Document
empty_document = record {
  process_status = none;
  job_id = none;
  batch_id = none;
  tenant_id = none;
  user_provided_document_category = none;
  ai_consent_flag = none;
  is_compare = none;
  created_at = none;
  updated_at = none;
  preclassification_category = none;
  preclassification_category_match = none;
  preclassification_blueprint_match_category = none;
  preclassification_blueprint_matched_type = none;
  output_s3_uri = none;
  matched_blueprint_name = none;
  matched_blueprint_confidence = none;
  matched_document_class = none;
  field_confidence_scores = none;
  field_empty_list = none;
  field_missing_geometry_list = none;
  field_below_threshold_list = none;
  field_count = none;
  field_count_not_empty = none;
  field_not_empty_avg_confidence = none;
  additional_info = none;
  response_json = none;
  response_code = none;
  v1_api_response_json = none;
  error_message = none;
  bda_invocation_arn = none;
  bda_invocation_id = none;
  bda_region_used = none;
  bda_project_arn_used = none;
  extract_method = none;
  used_category_specific_project = none;
  below_extraction_confidence_floor = none;
  extraction_rules_configured = none;
  missing_required_field_list = none;
  required_field_list = none;
  extraction_confidence_threshold = none;
  used_default_extraction_confidence_threshold = none;
  pages_sent_to_bda = none;
  bda_invoke_duration_seconds = none;
  bda_invoke_retry_count = none;
  result_processor_started_at = none;
  extraction_started_at = none;
  extraction_completed_at = none;
  processed_date = none;
  extraction_wait_time_seconds = none;
  extraction_processing_time_seconds = none;
  total_processing_time_seconds = none;
  bda_started_at = none;
  bda_completed_at = none;
  api_responses_by_method = none;
  durations_by_method = none;
  deletion_type = none;
  is_password_protected = none;
  is_document_blurry = none;
  is_document_blurry_reason = none;
}

-- An item of the document-builds table, under the build's id and its page number; page 0 holds what
-- is known of the build (schemas/document_builds.py). Attributes that no operation reads are left out.
pub record BuildItem : Type 0 where
  pub is_build_metadata : Option Bool
  pub s3_path : Option String
  pub original_file_name : Option String
  pub category : Option String
  pub created_at : Option ℕ
  pub submitted_at : Option ℕ
  pub ai_consent_flag : Option Bool
  pub tenant_id : Option String
  pub api_key_name : Option String

-- ===== src/Metrics.antt =====
-- documentai-api/src/documentai_api/jobs/metrics_aggregator/main.py: the statistics of a day's records.
-- A record is a row of the query, whose values are texts. What Python's `int`, `float` (in hundredths)
-- and the hour of `datetime.fromisoformat` make of a text is an argument; it is a number that is not
-- negative, or nothing where the call raises. An average is kept as the fraction before it is rounded.
pub mod Summary
pub mod Aggregate
pub mod Counters
pub mod Merging
pub mod Balance
pub mod Totals
use strata_documentai_api_en.Prelude.{
  ℕ, suc, ◌+◌, String, Bool, true, false, Option, none, some, List, [], ◌∷◌, ◌||◌, has_text, str_eq,
  text_in, ltb, lookup, insert, Table, if◌then◌else◌, codes, lower_code, strip, before, same_codes,
  map,
}
use strata_documentai_api_en.Codes.{
  code, success, missing_fields, miscategorized, low_extraction_confidence,
}
use strata_documentai_api_en.Document.{Fraction}
use strata_documentai_api_en.Response.{truthy}
use strata_documentai_api_en.Batch.{or_zero}

pub record Readings : Type 0 where
  pub read_int : String → Option ℕ
  pub read_seconds : String → Option ℕ
  pub read_hour : String → Option String

pub record RawRecord : Type 0 where
  pub tenant_id : Option String
  pub process_status : Option String
  pub bda_matched_document_class : Option String
  pub response_code : Option String
  pub content_type : Option String
  pub user_provided_document_category : Option String
  pub upload_method : Option String
  pub bda_invocation_arn : Option String
  pub extraction_method : Option String
  pub created_at : Option String
  pub file_size_bytes : Option String
  pub pages_detected : Option String
  pub pages_sent_to_bda : Option String
  pub preclassification_input_tokens : Option String
  pub crop_input_tokens : Option String
  pub preclassification_output_tokens : Option String
  pub crop_output_tokens : Option String
  pub total_processing_time_seconds : Option String
  pub extraction_processing_time_seconds : Option String
  pub bda_processing_time_seconds : Option String
  pub extraction_wait_time_seconds : Option String
  pub bda_wait_time_seconds : Option String

pub record Timing : Type 0 where
  pub sum : ℕ
  pub count : ℕ
  pub avg : Option Fraction

-- The item's date is left out: nothing reads it.
pub record Stats : Type 0 where
  pub total_records : ℕ
  pub total_bda_invocations : ℕ
  pub total_textract_extractions : ℕ
  pub total_extraction_invocations : ℕ
  pub total_documents_recognized : ℕ
  pub by_status : Table ℕ
  pub by_classification : Table ℕ
  pub by_response_code : Table ℕ
  pub by_file_type : Table ℕ
  pub by_user_category : Table ℕ
  pub by_upload_method : Table ℕ
  pub by_hour : Table ℕ
  pub total_processing_time : Timing
  pub bda_processing_time : Timing
  pub bda_wait_time : Timing
  pub total_file_size_bytes : ℕ
  pub total_pages : ℕ
  pub total_bda_pages : ℕ
  pub total_bedrock_input_tokens : ℕ
  pub total_bedrock_output_tokens : ℕ

abbrev pub no_timing : Timing
no_timing = record { sum = 0; count = 0; avg = none }

-- `_initialize_stats`
abbrev pub empty_stats : Stats
empty_stats = record {
  total_records = 0;
  total_bda_invocations = 0;
  total_textract_extractions = 0;
  total_extraction_invocations = 0;
  total_documents_recognized = 0;
  by_status = [];
  by_classification = [];
  by_response_code = [];
  by_file_type = [];
  by_user_category = [];
  by_upload_method = [];
  by_hour = [];
  total_processing_time = no_timing;
  bda_processing_time = no_timing;
  bda_wait_time = no_timing;
  total_file_size_bytes = 0;
  total_pages = 0;
  total_bda_pages = 0;
  total_bedrock_input_tokens = 0;
  total_bedrock_output_tokens = 0;
}

-- `table[key] = table.get(key, 0) + n`
unfoldable pub add_to : String → ℕ → Table ℕ → Table ℕ
add_to key n t = insert key (or_zero (lookup key t) + n) t

-- `value or default`
abbrev pub value_or : String → Option String → String
value_or default none = default
value_or default (some s) = if has_text (some s) then s else default

-- `record.get(key, default)`
abbrev pub get_or : String → Option String → String
get_or default none = default
get_or default (some s) = s

-- `is_legacy_unset`
unfoldable pub is_legacy_unset : String → Bool
is_legacy_unset s =
    let cs = map lower_code (strip (codes s)) in
    same_codes cs (codes "unknown")
    || same_codes cs (codes "not specified")
    || same_codes cs (codes "null")
    || same_codes cs []

abbrev extensions : List (String × String)
extensions =
    ("application/pdf", "pdf")
    ∷ ("application/msword", "doc")
    ∷ ("application/vnd.openxmlformats-officedocument.wordprocessingml.document", "docx")
    ∷ ("image/jpeg", "jpg")
    ∷ ("image/jpg", "jpg")
    ∷ ("image/png", "png")
    ∷ ("image/tiff", "tiff")
    ∷ ("image/bmp", "bmp")
    ∷ ("image/heic", "heic")
    ∷ ("image/heif", "heif")
    ∷ ("image/webp", "webp")
    ∷ ("image/gif", "gif")
    ∷ []

abbrev extension_in : List ℕ → List (String × String) → String → String
extension_in cs [] unknown = unknown
extension_in cs ((content_type, extension) ∷ es) unknown =
    let rest = extension_in cs es unknown in
    if same_codes cs (codes content_type) then extension else rest

unfoldable pub get_extension : String → String → String
get_extension content_type unknown =
    extension_in (strip (before b';' (map lower_code (codes content_type)))) extensions unknown

unfoldable pub user_category : RawRecord → String
unfolding is_legacy_unset
user_category r =
    if is_legacy_unset (value_or "" r.user_provided_document_category)
    then "not specified"
    else value_or "" r.user_provided_document_category

abbrev pub file_type : RawRecord → String
file_type r = get_extension (value_or "" r.content_type) "unknown"

abbrev pub is_textract : RawRecord → Bool
is_textract r = str_eq (get_or "" r.extraction_method) "textract"

abbrev pub is_invoked : RawRecord → Bool
is_invoked r = has_text r.bda_invocation_arn || is_textract r

abbrev pub is_recognized : RawRecord → Bool
is_recognized r =
    text_in (value_or "null" r.response_code) (
      code success
      ∷ code missing_fields
      ∷ code miscategorized
      ∷ code low_extraction_confidence
      ∷ [])

abbrev pub add_if : Bool → ℕ → ℕ
add_if b n = if b then suc n else n

-- A value that is read if it is there: `if value: … read(value)`
abbrev pub read_if : {A : Type 0} → (String → Option A) → Option String → Option A
read_if read o = elim (truthy o) [ none ↦ none | some s ↦ read s ]

-- the processing time of the extraction, under its newer name or the older one
abbrev pub either : Option String → Option String → Option String
either a b = if has_text a then a else b

abbrev pub add_time : Option ℕ → Timing → Timing
add_time none t = t
add_time (some seconds) t = record t { sum = t.sum + seconds; count = suc t.count }

abbrev pub add_hour : Option String → Table ℕ → Table ℕ
add_hour none t = t
add_hour (some hour) t = add_to hour 1 t

unfoldable pub process_record : Readings → RawRecord → Stats → Stats
unfolding add_to user_category get_extension
process_record rd r s = record {
  total_records = suc s.total_records;
  total_bda_invocations = add_if (has_text r.bda_invocation_arn) s.total_bda_invocations;
  total_textract_extractions = add_if (is_textract r) s.total_textract_extractions;
  total_extraction_invocations = add_if (is_invoked r) s.total_extraction_invocations;
  total_documents_recognized = add_if (is_recognized r) s.total_documents_recognized;
  by_status = add_to (get_or "unknown" r.process_status) 1 s.by_status;
  by_classification = add_to (value_or "null" r.bda_matched_document_class) 1 s.by_classification;
  by_response_code = add_to (value_or "null" r.response_code) 1 s.by_response_code;
  by_file_type = add_to (file_type r) 1 s.by_file_type;
  by_user_category = add_to (user_category r) 1 s.by_user_category;
  by_upload_method = add_to (value_or "unknown" r.upload_method) 1 s.by_upload_method;
  by_hour = add_hour (read_if rd.read_hour r.created_at) s.by_hour;
  total_processing_time =
      add_time (read_if rd.read_seconds r.total_processing_time_seconds) s.total_processing_time;
  bda_processing_time =
      add_time
        (read_if rd.read_seconds
          (either r.extraction_processing_time_seconds r.bda_processing_time_seconds))
        s.bda_processing_time;
  bda_wait_time =
      add_time
        (read_if rd.read_seconds (either r.extraction_wait_time_seconds r.bda_wait_time_seconds))
        s.bda_wait_time;
  total_file_size_bytes = s.total_file_size_bytes + or_zero (read_if rd.read_int r.file_size_bytes);
  total_pages = s.total_pages + or_zero (read_if rd.read_int r.pages_detected);
  total_bda_pages = s.total_bda_pages + or_zero (read_if rd.read_int r.pages_sent_to_bda);
  total_bedrock_input_tokens =
      s.total_bedrock_input_tokens
      + or_zero (read_if rd.read_int r.preclassification_input_tokens)
      + or_zero (read_if rd.read_int r.crop_input_tokens);
  total_bedrock_output_tokens =
      s.total_bedrock_output_tokens
      + or_zero (read_if rd.read_int r.preclassification_output_tokens)
      + or_zero (read_if rd.read_int r.crop_output_tokens);
}

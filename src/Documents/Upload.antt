-- ===== src/Documents/Upload.antt =====
-- documentai-api/src/documentai_api/routers/documents.py and pipeline/uploads.py: the upload of one document. What
-- becomes of the file's copy into S3 is part of the request, with the text of an error that is no HTTP
-- error; the attributes of the record that no modelled operation reads (whether it is of a
-- demonstration or a test, its time to live, what traces it) are left out, and so is the place that
-- they choose for the file.
pub mod Guards
pub mod Answers
use strata_documentai_api_en.Prelude.{
  ℕ, String, Bool, not, ◌&&◌, Option, none, some, joined, has_text, ltb, if◌then◌else◌,
}
use strata_documentai_api_en.Status.{
  ProcessStatus, not_started, ai_consent_declined, conversion_failed,
}
use strata_documentai_api_en.Quota.{TenantLimits}
use strata_documentai_api_en.Classify.{
  classify_as_ai_consent_declined, classify_as_conversion_failed, classify_as_failed,
}
use strata_documentai_api_en.Lifecycle.Upload.{DocumentRecord, insert_minimal_ddb_record}
use strata_documentai_api_en.FileValidation.{validate_file_type}
use strata_documentai_api_en.BatchUpload.{
  Copying, copied, not_converted, refused, broken, charge, detail_data,
}
use strata_documentai_api_en.Store.State.{Env}
use strata_documentai_api_en.Store.Actions.{
  Action, Outcome, returned, raised, http_error, pure, raise, attempt, when, ◌>>=◌, ◌>>◌,
}

-- `stem` and `extension` are the two parts of the sanitized name, `size` the size that the header
-- tells or a probe finds, `detected` the type that the bytes show, `error_text` the text of the error
-- where the copy is broken off.
pub record UploadRequest : Type 0 where
  pub tenant_id : String
  pub category : Option String
  pub ai_consent_flag : Bool
  pub is_demo : Bool
  pub is_test_run : Bool
  pub is_compare : Bool
  pub filename : Option String
  pub stem : String
  pub extension : String
  pub job_id : String
  pub size : ℕ
  pub detected : String
  pub copying : Copying
  pub error_text : String

-- `_UploadResult`
pub record UploadResult : Type 0 where
  pub job_id : String
  pub job_status : ProcessStatus
  pub message : String

abbrev pub max_upload_size : ℕ
max_upload_size = 524288000

-- `generate_unique_filename`, of a name that is there
abbrev pub ddb_key : UploadRequest → String
ddb_key q = joined q.stem (joined "-" (joined q.job_id q.extension))

unfoldable pub validate_upload : UploadRequest → Action String
unfolding validate_file_type
validate_upload q =
    if has_text q.filename
    then if ltb max_upload_size q.size
      then raise (http_error 400)
      else validate_file_type q.detected
    else raise (http_error 400)

abbrev pub record_of_upload : UploadRequest → DocumentRecord
record_of_upload q = record {
  ddb_key = ddb_key q;
  job_id = q.job_id;
  tenant_id = q.tenant_id;
  process_status = not_started;
  category = q.category;
  batch_id = none;
  ai_consent_flag = some q.ai_consent_flag;
  is_compare = q.is_compare;
}

-- How `dispatch_upload` ends where it raises no HTTP error: with the file stored, or with the
-- `ImageConversionError` that its caller takes.
pub data Dispatched : Type 0 where
  stored conversion_error : Dispatched

abbrev result_of : UploadRequest → Dispatched → UploadResult
result_of q stored = record {
  job_id = q.job_id;
  job_status = not_started;
  message = "Document uploaded successfully";
}
result_of q conversion_error = record {
  job_id = q.job_id;
  job_status = conversion_failed;
  message = "Image conversion failed";
}

abbrev pub declined_result : UploadRequest → UploadResult
declined_result q = record {
  job_id = q.job_id;
  job_status = ai_consent_declined;
  message = "Document not processed - AI consent not provided";
}

-- an insertion that fails is answered with 500
abbrev pub inserted : Outcome (Unit {0}) → Action (Unit {0})
inserted (returned u) = pure tt
inserted (raised e) = raise (http_error 500)

module _ (env : Env) where
  abbrev pub dispatch_upload : String → String → Copying → Action Dispatched
  dispatch_upload key error_text copied = pure stored
  dispatch_upload key error_text (not_converted message) =
      classify_as_conversion_failed env key message none >> pure conversion_error
  dispatch_upload key error_text (refused code detail) =
      classify_as_failed env key detail (detail_data detail) none none >> raise (http_error code)
  dispatch_upload key error_text (broken e) =
      classify_as_failed env key error_text (detail_data (joined "Unexpected error: " error_text))
        none none
      >> raise (http_error 500)

  abbrev pub store_file : UploadRequest → Action UploadResult
  store_file q = dispatch_upload (ddb_key q) q.error_text q.copying >>= λ (d : Dispatched).
      pure (result_of q d)

  abbrev pub decline : UploadRequest → Action UploadResult
  decline q = classify_as_ai_consent_declined env (ddb_key q) none >> pure (declined_result q)

  -- what follows the record
  unfoldable pub store_or_decline : UploadRequest → Action UploadResult
  unfolding classify_as_ai_consent_declined classify_as_conversion_failed classify_as_failed
  store_or_decline q = if q.ai_consent_flag then store_file q else decline q

  module _ (tenants : String → Option TenantLimits) (today : String) where
    unfoldable pub upload_document : UploadRequest → Action UploadResult
    unfolding validate_upload charge insert_minimal_ddb_record store_or_decline
    upload_document q =
        validate_upload q
        >> (when (not q.is_demo && not q.is_test_run) (charge env tenants today q.tenant_id)
            >> (attempt (insert_minimal_ddb_record env (record_of_upload q)) inserted
                >> store_or_decline q))

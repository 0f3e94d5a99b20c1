-- ===== src/BatchUpload.antt =====
-- documentai-api/src/documentai_api/routers/batch.py: the upload of several files as one batch. The
-- files are taken one after the other, in the order of the list, and the first that fails ends the
-- upload (the source starts them together, and a failure cancels those that have not ended). What a
-- request brings, and what becomes of a file's copy into S3, are arguments.
pub mod Kept
pub mod Endings
use strata_documentai_api_en.Prelude.{
  ℕ, String, Bool, true, false, Option, none, some, List, [], ◌∷◌, joined, has_text, is_false, ltb,
  is_some, length, count_if, ◌-◌, if◌then◌else◌,
}
use strata_documentai_api_en.Status.{
  ProcessStatus, not_started, BatchStatus, uploading, processing, is_completed, is_classified,
  same_status,
}
use strata_documentai_api_en.Document.{Document, no_data, ClassificationData}
use strata_documentai_api_en.Quota.{TenantLimits, increment_and_check}
use strata_documentai_api_en.Batch.{
  create_batch, update_batch_status, get_batch, query_jobs_by_batch_id,
}
use strata_documentai_api_en.Classify.{
  classify_as_ai_consent_declined, classify_as_conversion_failed, classify_as_failed,
}
use strata_documentai_api_en.Lifecycle.Upload.{DocumentRecord, insert_minimal_ddb_record}
use strata_documentai_api_en.FileValidation.{validate_file_type}
use strata_documentai_api_en.Store.State.{World, Env, Batch}
use strata_documentai_api_en.Store.Actions.{
  Action, Error, Outcome, http_error, runtime_error, returned, raised, pure, raise, attempt, ◌>>=◌,
  ◌>>◌,
}

-- How `upload_document_for_processing` ends: the file is stored, its image cannot be converted, S3
-- refuses it, which is an HTTP error, or another error ends it.
pub data Copying : Type 0 where
  copied : Copying
  not_converted : String → Copying
  refused : ℕ → String → Copying
  broken : Error → Copying

-- A file of the request. `stem` and `extension` are the two parts of its sanitized name, `position`
-- the text of its place in the request, `detected` the type that its bytes show.
pub record UploadFile : Type 0 where
  pub filename : Option String
  pub stem : String
  pub extension : String
  pub position : String
  pub job_id : String
  pub detected : String
  pub copying : Copying

pub record BatchRequest : Type 0 where
  pub batch_id : String
  pub tenant_id : String
  pub api_key_name : String
  pub category : Option String
  pub ai_consent_flag : Option Bool
  pub files : List UploadFile

pub record BatchJobItem : Type 0 where
  pub file_name : Option String
  pub job_id : String
  pub batch_position : String

pub record BatchUploadResponse : Type 0 where
  pub batch_id : String
  pub batch_status : BatchStatus
  pub total_files : ℕ
  pub created_at : ℕ
  pub jobs : List BatchJobItem

-- `f"{idx}-{generate_unique_filename(file.filename, job_id)}"`
abbrev pub unique_file_name : UploadFile → String
unique_file_name f =
    joined f.position (joined "-" (joined f.stem (joined "-" (joined f.job_id f.extension))))

abbrev pub record_of_file : BatchRequest → UploadFile → DocumentRecord
record_of_file q f = record {
  ddb_key = unique_file_name f;
  job_id = f.job_id;
  tenant_id = q.tenant_id;
  process_status = not_started;
  category = q.category;
  batch_id = some q.batch_id;
  ai_consent_flag = q.ai_consent_flag;
  is_compare = false;
}

abbrev pub job_item : UploadFile → BatchJobItem
job_item f = record { file_name = f.filename; job_id = f.job_id; batch_position = f.position }

abbrev pub detail_data : String → ClassificationData
detail_data detail = record no_data { additional_info = some detail }

-- What the routes read besides the request: the tenants' limits and the date.
module _ (env : Env) (tenants : String → Option TenantLimits) (today : String) where
  -- The count of the tenant's writes, in the shared state.
  unfoldable pub charge : String → Action (Unit {0})
  unfolding increment_and_check
  charge tenant_id w =
      let (r, counts) = increment_and_check tenants tenant_id today w.request_counts in
      (r, record w { request_counts = counts })

  abbrev pub after_copying : BatchRequest → UploadFile → Copying → Action BatchJobItem
  after_copying q f copied = pure (job_item f)
  after_copying q f (not_converted message) =
      classify_as_conversion_failed env (unique_file_name f) message (some q.batch_id)
      >> pure (job_item f)
  after_copying q f (refused status detail) =
      classify_as_failed env (unique_file_name f) detail (detail_data detail) none (some q.batch_id)
      >> raise (http_error status)
  after_copying q f (broken e) = raise e

  abbrev pub stored_or_declined : BatchRequest → UploadFile → Action BatchJobItem
  stored_or_declined q f =
      if is_false q.ai_consent_flag
      then classify_as_ai_consent_declined env (unique_file_name f) (some q.batch_id)
        >> pure (job_item f)
      else after_copying q f f.copying

  -- `_process_one`
  unfoldable pub process_one : BatchRequest → UploadFile → Action BatchJobItem
  unfolding charge validate_file_type insert_minimal_ddb_record classify_as_conversion_failed
      classify_as_failed classify_as_ai_consent_declined
  process_one q f =
      if has_text f.filename
      then charge q.tenant_id
        >> validate_file_type f.detected
        >> insert_minimal_ddb_record env (record_of_file q f)
        >> stored_or_declined q f
      else raise (http_error 400)

  unfoldable pub process_files : BatchRequest → List UploadFile → Action (List BatchJobItem)
  unfolding process_one
  process_files q [] = pure []
  process_files q (f ∷ fs) =
      let rest = process_files q fs in process_one q f >>= λ job. rest >>= λ jobs. pure (job ∷ jobs)

  -- `_process_batch_files`; `has_location` tells whether the place for uploads is configured
  unfoldable pub process_batch_files : Bool → BatchRequest → Action (List BatchJobItem)
  unfolding process_files
  process_batch_files has_location q =
      if has_location then process_files q q.files else raise (http_error 500)

  abbrev pub finish_upload : BatchRequest → ℕ → List BatchJobItem → Action BatchUploadResponse
  finish_upload q created_at jobs =
      update_batch_status q.batch_id processing none none
      >> pure (record {
        batch_id = q.batch_id;
        batch_status = processing;
        total_files = length q.files;
        created_at = created_at;
        jobs = jobs;
      })

  abbrev pub uploaded : Bool → BatchRequest → Action BatchUploadResponse
  uploaded has_location q =
      create_batch q.batch_id (length q.files) q.category uploading (some q.tenant_id)
        (some q.api_key_name)
      >>= λ created_at. process_batch_files has_location q >>= finish_upload q created_at

  abbrev pub default_error_message : String
  default_error_message = "Internal processing error"

  abbrev pub mark_failed : BatchRequest → Option Batch → Action (Unit {0})
  mark_failed q none = pure tt
  mark_failed q (some b) =
      update_batch_status q.batch_id BatchStatus.failed (some default_error_message) none >> pure tt

  -- the two handlers of `_execute_batch`
  abbrev pub handled : BatchRequest → Outcome BatchUploadResponse → Action BatchUploadResponse
  handled q (returned r) = pure r
  handled q (raised (http_error status)) = raise (http_error status)
  handled q (raised e) = get_batch q.batch_id >>= mark_failed q >> raise (http_error 500)

  unfoldable pub execute_batch : Bool → BatchRequest → Action BatchUploadResponse
  unfolding create_batch process_batch_files update_batch_status get_batch
  execute_batch has_location q = attempt (uploaded has_location q) (handled q)

  abbrev max_batch_size : ℕ
  max_batch_size = 25

  unfoldable pub upload_document_batch : Bool → BatchRequest → Action BatchUploadResponse
  unfolding execute_batch
  upload_document_batch has_location q =
      if ltb 0 (length q.files)
      then if ltb max_batch_size (length q.files)
        then raise (http_error 400)
        else execute_batch has_location q
      else raise (http_error 400)

-- What a client is told of a batch.
pub record BatchStatusResponse : Type 0 where
  pub batch_status : Option BatchStatus
  pub total_jobs : ℕ
  pub completed : ℕ
  pub in_progress : ℕ
  pub failed : ℕ
  pub created_at : Option ℕ
  pub category : Option String

abbrev pub status_holds : (ProcessStatus → Bool) → Document → Bool
status_holds p d = elim d.process_status [ none ↦ false | some s ↦ p s ]

abbrev pub status_response : Option Batch → List Document → Action BatchStatusResponse
status_response none jobs = raise (http_error 404)
status_response (some b) jobs = pure (record {
  batch_status = b.batch_status;
  total_jobs = length jobs;
  completed = count_if (status_holds is_completed) jobs;
  in_progress = length jobs - count_if (status_holds is_classified) jobs;
  failed = count_if (status_holds (λ s. same_status s ProcessStatus.failed)) jobs;
  created_at = b.created_at;
  category = b.category;
})

unfoldable pub get_batch_status : String → Action BatchStatusResponse
unfolding get_batch query_jobs_by_batch_id is_completed is_classified same_status
get_batch_status batch_id =
    get_batch batch_id >>= λ b. query_jobs_by_batch_id batch_id >>= λ jobs. status_response b jobs

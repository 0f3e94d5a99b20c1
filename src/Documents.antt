-- ===== src/Documents.antt =====
-- documentai-api/src/documentai_api/routers/documents.py, utils/jobs.py and the purge of utils/uploads.py: the
-- results, the deletion and the search of documents. What `extract_field_values` finds with the
-- extracted data is the argument `extracted` (`none` where it raises), and whether the deletion at a
-- place fails is `fails`. A presented response has its fields as they are stored, without the nesting;
-- the two flags that follow from its status and the HTTP headers are left out.
pub mod Deleted
pub mod Refused
pub mod Upload
pub mod Presigned
use strata_documentai_api_en.Prelude.{
  ℕ, String, Bool, true, false, not, ◌||◌, ◌&&◌, Option, none, some, List, [], ◌∷◌, length, ltb,
  map, lookup, is_some, has_text, str_eq, if◌then◌else◌,
}
use strata_documentai_api_en.Status.{
  ProcessStatus, success, deleted, not_started, same_status, is_classified, pending_message,
}
use strata_documentai_api_en.Document.{Document, Field, V1Response, V1JobStatus}
use strata_documentai_api_en.Response.{build_v1_api_response, is_empty, truthy}
use strata_documentai_api_en.Ddb.{mark_document_deleted}
use strata_documentai_api_en.TenantAccess.{
  is_tenant, tenant_of_document, validate_document_tenant_access,
}
use strata_documentai_api_en.Store.State.{World, Env}
use strata_documentai_api_en.Store.Actions.{
  Action, Outcome, returned, raised, http_error, value_error, runtime_error, validation_error, pure,
  raise, attempt, ◌>>=◌, ◌>>◌,
}

pub record JobStatus : Type 0 where
  pub ddb_record : Option Document
  pub object_key : Option String
  pub process_status : Option ProcessStatus
  pub v1_response_json : Option V1Response

-- whether an item has the job's identifier
abbrev pub has_job_id : String → Option String → Bool
has_job_id job_id none = false
has_job_id job_id (some i) = str_eq i job_id

-- `get_ddb_by_job_id`: the first item of the index, with its key
unfoldable pub find_job : String → List (String × Document) → Option (String × Document)
find_job job_id [] = none
find_job job_id ((key, d) ∷ table) =
    let rest = find_job job_id table in if has_job_id job_id d.job_id then some (key, d) else rest

abbrev pub job_of : Option (String × Document) → JobStatus
job_of none = record {
  ddb_record = none;
  object_key = none;
  process_status = none;
  v1_response_json = none;
}
job_of (some (key, d)) = record {
  ddb_record = some d;
  object_key = some key;
  process_status = d.process_status;
  v1_response_json = d.v1_api_response_json;
}

unfoldable pub get_job_status : String → Action JobStatus
unfolding find_job
get_job_status job_id w = (returned (job_of (find_job job_id w.documents)), w)

-- The text of `job_status`: an internal status, one of the API, or one of the two of the search.
pub data ReportedStatus : Type 0 where
  internal : ProcessStatus → ReportedStatus
  external : V1JobStatus → ReportedStatus
  not_found error : ReportedStatus

-- models/job_status.py; `details` is the response that the other fields are taken from
pub record JobStatusResponse : Type 0 where
  pub job_id : String
  pub job_status : ReportedStatus
  pub message : String
  pub details : Option V1Response

abbrev reported : String → ReportedStatus → String → JobStatusResponse
reported job_id job_status message = record {
  job_id = job_id;
  job_status = job_status;
  message = message;
  details = none;
}

-- A response without an identifier is refused by the model.
unfoldable pub from_v1 : V1Response → Outcome JobStatusResponse
from_v1 r = elim r.job_id [
  | none ↦ raised validation_error
  | some job_id ↦ returned (record {
    job_id = job_id;
    job_status = external r.job_status;
    message = r.message;
    details = some r;
  })
]

abbrev status_or_not_started : Option ProcessStatus → ProcessStatus
status_or_not_started none = not_started
status_or_not_started (some s) = s

unfoldable pub pending_response : String → Option ProcessStatus → JobStatusResponse
unfolding pending_message
pending_response job_id s =
    let current_status = status_or_not_started s in
    reported job_id (internal current_status) (pending_message current_status)

abbrev pub is_deleted : Option ProcessStatus → Bool
is_deleted none = false
is_deleted (some s) = same_status s deleted

abbrev pub has_ended : Option ProcessStatus → Bool
has_ended none = false
has_ended (some s) = is_classified s

module _ (env : Env) (extracted : Document → Option (List (String × Field))) where
  abbrev build_of : ProcessStatus → Document → Option (List (String × Field)) → Outcome V1Response
  build_of s d none = raised runtime_error
  build_of s d (some fields) =
      returned (build_v1_api_response env.rules env.missing_geo fields d s none none)

  abbrev build_for : ProcessStatus → Option Document → Outcome V1Response
  build_for s none = raised value_error
  build_for s (some d) = build_of s d (if same_status s success then extracted d else some [])

  -- `build_v1_api_response` with the extracted data, presented
  unfoldable pub built_response : String → ProcessStatus → World → Outcome JobStatusResponse
  unfolding build_v1_api_response lookup from_v1
  built_response key s w = elim (build_for s (lookup key w.documents)) [
    | raised e ↦ raised e
    | returned r ↦ from_v1 r
  ]

  -- The response with the extracted data, of a record that has its key and its status.
  abbrev extracted_response :
      Option String
      → Option ProcessStatus
      → Outcome JobStatusResponse
      → World
      → Outcome JobStatusResponse
  extracted_response (some key) (some s) incomplete w = built_response key s w
  extracted_response _ _ incomplete w = incomplete

  -- The stored response, or one that is built anew.
  abbrev pub answer_of :
      String
      → Bool
      → JobStatus
      → Outcome JobStatusResponse
      → Option V1Response
      → World
      → Outcome JobStatusResponse
  answer_of job_id include_extracted_data j incomplete none w =
      returned (pending_response job_id j.process_status)
  answer_of job_id include_extracted_data j incomplete (some r) w =
      if include_extracted_data
      then extracted_response (truthy j.object_key) j.process_status incomplete w
      else from_v1 r

  abbrev results_of : String → Bool → JobStatus → Action JobStatusResponse
  results_of job_id include_extracted_data j w =
      if is_deleted j.process_status then (raised (http_error 404), w) else (
        answer_of job_id include_extracted_data j (raised (http_error 500)) j.v1_response_json w,
        w,
      )

  -- the handlers of `get_document_results`
  abbrev as_http : Outcome JobStatusResponse → Action JobStatusResponse
  as_http (returned r) = pure r
  as_http (raised (http_error code)) = raise (http_error code)
  as_http (raised e) = raise (http_error 500)

  unfoldable pub get_document_results : String → String → Bool → Bool → Action JobStatusResponse
  unfolding get_job_status validate_document_tenant_access
  get_document_results job_id tenant_id include_extracted_data include_bounding_box =
      attempt
        (get_job_status job_id >>= λ j.
          validate_document_tenant_access j.ddb_record tenant_id
          >> results_of job_id (include_bounding_box || include_extracted_data) j)
        as_http

  abbrev or_failed : String → Outcome JobStatusResponse → JobStatusResponse
  or_failed job_id (returned r) = r
  or_failed job_id (raised e) = reported job_id error "Failed to retrieve results"

  -- One turn of the loop of `search_documents`.
  unfoldable pub search_one : String → Bool → World → String → JobStatusResponse
  unfolding find_job
  search_one tenant_id include_extracted_data w job_id =
      let j = job_of (find_job job_id w.documents) in
      if is_tenant tenant_id (tenant_of_document j.ddb_record)
      then or_failed job_id (
          answer_of job_id include_extracted_data j
            (returned (reported job_id error "Incomplete record")) j.v1_response_json w)
      else reported job_id not_found "Job ID not found"

  abbrev pub max_search_job_ids : ℕ
  max_search_job_ids = 25

  unfoldable pub search_documents : List String → String → Bool → Action (List JobStatusResponse)
  unfolding search_one
  search_documents job_ids tenant_id include_extracted_data w =
      if is_empty job_ids || ltb max_search_job_ids (length job_ids)
      then (raised (http_error 400), w)
      else (returned (map (search_one tenant_id include_extracted_data w) job_ids), w)

-- Where the documents are kept, as configured.
pub record Locations : Type 0 where
  pub input : Option String
  pub preprocessing : Option String
  pub output : Option String

abbrev places : Locations → List (String × Option String)
places l =
    ("input", l.input)
    ∷ ("input_truncated", l.input)
    ∷ ("preprocessing", l.preprocessing)
    ∷ ("output", l.output)
    ∷ []

abbrev failed_places : (String → Bool) → List (String × Option String) → List String
failed_places fails [] = []
failed_places fails ((label, location) ∷ rest) =
    let failures = failed_places fails rest in
    if has_text location && fails label then label ∷ failures else failures

unfoldable pub purge_document_s3_artifacts : Locations → (String → Bool) → List String
purge_document_s3_artifacts l fails = failed_places fails (places l)

module _ (locations : Locations) (fails : String → Bool) where
  abbrev delete_at : Bool → String → Action (Unit {0})
  delete_at true key = mark_document_deleted key "soft"
  delete_at false key =
      if is_empty (purge_document_s3_artifacts locations fails)
      then mark_document_deleted key "hard"
      else raise (http_error 500)

  abbrev delete_with_key : Bool → Option String → Action (Unit {0})
  delete_with_key soft_delete none = raise (http_error 500)
  delete_with_key soft_delete (some key) = delete_at soft_delete key

  abbrev delete_job : Bool → JobStatus → Action (Unit {0})
  delete_job soft_delete j =
      if is_deleted j.process_status
      then raise (http_error 404)
      else if has_ended j.process_status
      then delete_with_key soft_delete (truthy j.object_key)
      else raise (http_error 400)

  unfoldable pub delete_document : String → String → Bool → Action (Unit {0})
  unfolding get_job_status validate_document_tenant_access mark_document_deleted
      purge_document_s3_artifacts
  delete_document job_id tenant_id soft_delete = get_job_status job_id >>= λ j.
      validate_document_tenant_access j.ddb_record tenant_id >> delete_job soft_delete j

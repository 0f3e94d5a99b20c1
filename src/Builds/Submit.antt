-- ===== src/Builds/Submit.antt =====
-- The submission of a build: `_submit_build` of documentai-api/src/documentai_api/routers/build.py, and the
-- routes that delete. The identifiers that it makes, the merging of the pages (the error it raises, if any) and
-- the copy of the result into S3 are part of the request.
use strata_documentai_api_en.Prelude.{
  ℕ, String, Bool, true, false, not, ◌||◌, Option, none, some, List, [], ◌∷◌, has_text, is_false,
  str_eq, length, if◌then◌else◌,
}
use strata_documentai_api_en.Status.{ProcessStatus, ai_consent_declined, not_started}
use strata_documentai_api_en.Document.{BuildItem}
use strata_documentai_api_en.Lifecycle.Upload.{DocumentRecord, insert_minimal_ddb_record}
use strata_documentai_api_en.Classify.{classify_as_ai_consent_declined}
use strata_documentai_api_en.BatchUpload.{Copying, copied, not_converted, refused, broken}
use strata_documentai_api_en.Store.State.{Env}
use strata_documentai_api_en.Store.Actions.{
  Action, Error, Outcome, returned, raised, runtime_error, value_error, http_error, pure, raise,
  attempt, ◌>>=◌, ◌>>◌,
}
use strata_documentai_api_en.Builds.{
  PageMetadata, get_build_metadata, get_document_build_pages, mark_document_build_submitted,
  clear_submitted_at, delete_document_build_page, delete_document_build,
}

pub record SubmitRequest : Type 0 where
  pub build_id : String
  pub job_id : String
  pub declined_key : String
  pub unique_file_name : String
  pub tenant_id : String
  pub api_key_name : String
  pub has_location : Bool
  pub merge_error : Option Error
  pub copying : Copying

pub record SubmitResult : Type 0 where
  pub job_id : String
  pub job_status : ProcessStatus
  pub page_count : ℕ

-- whether a category differs from one before it
abbrev pub are_mixed : Option String → List PageMetadata → Bool
are_mixed c [] = false
are_mixed none (p ∷ ps) = are_mixed p.category ps
are_mixed (some c) (p ∷ ps) =
    elim p.category [ none ↦ false | some d ↦ not (str_eq c d) ] || are_mixed (some c) ps

abbrev pub category_of_pages : List PageMetadata → Option String
category_of_pages [] = none
category_of_pages (p ∷ ps) =
    let rest = category_of_pages ps in if has_text p.category then p.category else rest

abbrev pub declined_record : SubmitRequest → BuildItem → String → DocumentRecord
declined_record q i tenant_id = record {
  ddb_key = q.declined_key;
  job_id = q.job_id;
  tenant_id = tenant_id;
  process_status = not_started;
  category = i.category;
  batch_id = none;
  ai_consent_flag = some false;
  is_compare = false;
}

abbrev pub merged_record : SubmitRequest → List PageMetadata → DocumentRecord
merged_record q pages = record {
  ddb_key = q.unique_file_name;
  job_id = q.job_id;
  tenant_id = q.tenant_id;
  process_status = not_started;
  category = category_of_pages pages;
  batch_id = none;
  ai_consent_flag = none;
  is_compare = false;
}

abbrev pub merged : Option Error → Action (Unit {0})
merged none = pure tt
merged (some e) = raise e

abbrev pub copied_or_raised : Copying → Action (Unit {0})
copied_or_raised copied = pure tt
copied_or_raised (not_converted message) = raise runtime_error
copied_or_raised (refused status detail) = raise (http_error status)
copied_or_raised (broken e) = raise e

-- the handlers that follow the lock
abbrev pub rolled_back : SubmitRequest → Outcome SubmitResult → Action SubmitResult
rolled_back q (returned r) = pure r
rolled_back q (raised (http_error status)) = raise (http_error status)
rolled_back q (raised e) = clear_submitted_at q.build_id >> raise (http_error 500)

module _ (env : Env) where
  abbrev pub submitted : SubmitRequest → List PageMetadata → Action SubmitResult
  submitted q pages =
      merged q.merge_error
      >> insert_minimal_ddb_record env (merged_record q pages)
      >> copied_or_raised q.copying
      >> pure (record { job_id = q.job_id; job_status = not_started; page_count = length pages })

  -- what follows the validation
  unfoldable pub submit_locked : SubmitRequest → List PageMetadata → Action SubmitResult
  unfolding mark_document_build_submitted insert_minimal_ddb_record clear_submitted_at
  submit_locked q pages =
      mark_document_build_submitted q.build_id >> attempt (submitted q pages) (rolled_back q)

  abbrev pub submit_pages : SubmitRequest → List PageMetadata → Action SubmitResult
  submit_pages q [] = raise (http_error 400)
  submit_pages q (p ∷ ps) =
      if not q.has_location
      then raise (http_error 500)
      else if are_mixed none (p ∷ ps)
      then raise (http_error 400)
      else submit_locked q (p ∷ ps)

  abbrev pub declined_for :
      SubmitRequest → BuildItem → Option String → Option String → Action SubmitResult
  declined_for q i (some tenant_id) (some api_key_name) =
      insert_minimal_ddb_record env (declined_record q i tenant_id)
      >> classify_as_ai_consent_declined env q.declined_key none
      >> get_document_build_pages q.build_id
      >>= λ pages. pure (record {
        job_id = q.job_id;
        job_status = ai_consent_declined;
        page_count = length pages;
      })
  declined_for q i none name = raise runtime_error
  declined_for q i (some tenant_id) none = raise runtime_error

  abbrev pub unless_declined : SubmitRequest → Option BuildItem → Action SubmitResult
  unless_declined q none = get_document_build_pages q.build_id >>= submit_pages q
  unless_declined q (some i) =
      if is_false i.ai_consent_flag
      then declined_for q i i.tenant_id i.api_key_name
      else (get_document_build_pages q.build_id >>= submit_pages q)

  unfoldable pub submit_build : SubmitRequest → Action SubmitResult
  unfolding get_build_metadata get_document_build_pages submit_locked insert_minimal_ddb_record
      classify_as_ai_consent_declined
  submit_build q = get_build_metadata q.build_id >>= unless_declined q

abbrev pub deletion_answer : Outcome Bool → Action (Unit {0})
deletion_answer (returned true) = pure tt
deletion_answer (returned false) = raise (http_error 404)
deletion_answer (raised value_error) = raise (http_error 400)
deletion_answer (raised (http_error status)) = raise (http_error status)
deletion_answer (raised e) = raise (http_error 500)

unfoldable pub delete_document_build_page_endpoint : String → ℕ → Action (Unit {0})
unfolding delete_document_build_page
delete_document_build_page_endpoint build_id n =
    attempt (delete_document_build_page build_id n) deletion_answer

unfoldable pub delete_document_build_endpoint : String → Action (Unit {0})
unfolding delete_document_build
delete_document_build_endpoint build_id = attempt (delete_document_build build_id) deletion_answer

-- ===== src/Scenarios/Deletions.antt =====
-- The upload of a document, a request for an address to upload to, and deletions.
use strata_documentai_api_en.Prelude.{
  String, ◌≡◌, refl, Bool, true, false, Option, none, some, List, [], ◌∷◌, lookup, ◌⊎◌, ap, sym,
}
use strata_documentai_api_en.Status.{success, same_status, is_classified}
use strata_documentai_api_en.Document.{Document, Field, V1Response, V1JobStatus}
use strata_documentai_api_en.Response.{base_response}
use strata_documentai_api_en.Store.State.{World}
use strata_documentai_api_en.Store.Actions.{returned, raised, http_error}
use strata_documentai_api_en.Documents.{
  Locations, JobStatusResponse, from_v1, external, find_job, get_document_results, delete_document,
  search_documents, purge_document_s3_artifacts,
}
use strata_documentai_api_en.Documents.Deleted.{
  key_or, document_or, after_deletion, delete_document_lem, search_deleted,
}
use strata_documentai_api_en.Documents.Refused.{IsRefused, IsDone, deletion_ends}
use strata_documentai_api_en.Quota.{TenantLimits}
use strata_documentai_api_en.BatchUpload.{not_converted}
use strata_documentai_api_en.Documents.Upload.{UploadRequest, upload_document}
use strata_documentai_api_en.Documents.Upload.Answers.{EndsAs, upload_document_lem}
use strata_documentai_api_en.Documents.Presigned.{
  PresignedRequest, PresignedEnds, configured, create_presigned_upload_url,
  create_presigned_upload_url_lem,
}
use strata_documentai_api_en.Scenarios.Data.{env, world, done_document}

abbrev locations : Locations
locations = record { input = some "in"; preprocessing = none; output = some "out" }

abbrev fails : String → Bool
fails label = false

abbrev output_fails : String → Bool
output_fails label = true

abbrev response : V1Response
response = base_response done_document V1JobStatus.completed "Document processed successfully"

abbrev owned : Document
owned = record done_document { tenant_id = some "tenant"; v1_api_response_json = some response }

abbrev with_owned : World
with_owned = record world { documents = ("b.pdf", owned) ∷ [] }

abbrev shown : JobStatusResponse
shown = record {
  job_id = "job-1";
  job_status = external V1JobStatus.completed;
  message = "Document processed successfully";
  details = some response;
}

abbrev extracted : Document → Option (List (String × Field))
extracted d = some []

delete_document_lem_example :
    let v = after_deletion false "b.pdf" with_owned owned in
    (delete_document locations fails "job-1" "tenant" false with_owned ≡ (returned tt, v))
    × (get_document_results env extracted "job-1" "tenant" true false v
        ≡ (raised (http_error 404), v))
    × (delete_document locations fails "job-1" "tenant" true v ≡ (raised (http_error 404), v))
unfolding find_job lookup purge_document_s3_artifacts same_status is_classified
delete_document_lem_example =
    delete_document_lem locations fails "job-1" "b.pdf" "tenant" owned success with_owned refl refl
      env extracted false "tenant" true false true refl refl refl refl refl refl

search_deleted_example :
    let v = (delete_document locations fails "job-1" "tenant" true with_owned).1 in
    search_documents env extracted ("job-1" ∷ []) "tenant" false v ≡ (returned (shown ∷ []), v)
unfolding find_job lookup from_v1 base_response same_status is_classified
search_deleted_example =
    search_deleted locations fails "job-1" "b.pdf" "tenant" owned success with_owned refl refl env
      extracted true response shown refl refl refl refl refl refl refl refl

is_indexed :
    (key : String) (d : Document)
    → find_job "job-1" with_owned.documents ≡ some (key, d)
    → lookup key with_owned.documents ≡ some d
unfolding find_job lookup
is_indexed key d found =
    let same : "b.pdf" ≡ key = ap (key_or "b.pdf") found in
    rw (sym same) (ap (λ o. some (document_or owned o)) found)

deletion_ends_example :
    IsRefused locations output_fails "job-1" "tenant" false with_owned
    ⊎ IsDone locations output_fails "job-1" "tenant" false with_owned
deletion_ends_example =
    deletion_ends locations output_fails "job-1" "tenant" false with_owned is_indexed

abbrev no_limits : String → Option TenantLimits
no_limits tenant_id = none

abbrev upload : UploadRequest
upload = record {
  tenant_id = "tenant";
  category = none;
  ai_consent_flag = true;
  is_demo = false;
  is_test_run = false;
  is_compare = false;
  filename = some "c.jpg";
  stem = "c";
  extension = ".jpg";
  job_id = "job-9";
  size = 100;
  detected = "image/jpeg";
  copying = not_converted "no image";
  error_text = "";
}

upload_document_lem_example :
    EndsAs upload world
      (upload_document env no_limits "2025-01-31" upload world).0
      (upload_document env no_limits "2025-01-31" upload world).1
upload_document_lem_example = upload_document_lem upload world env no_limits "2025-01-31"

abbrev presigned : PresignedRequest
presigned = record {
  tenant_id = "tenant";
  filename = "d.pdf";
  stem = "d";
  extension = ".pdf";
  job_id = "job-10";
  content_type = "application/pdf";
  category = none;
  ai_consent_flag = true;
  input_location = configured;
  is_signed = true;
}

create_presigned_upload_url_lem_example :
    let r = create_presigned_upload_url env no_limits "2025-01-31" presigned world in
    PresignedEnds presigned world r.0 r.1
create_presigned_upload_url_lem_example =
    create_presigned_upload_url_lem presigned world env no_limits "2025-01-31"

-- ===== src/Scenarios/Builds.antt =====
-- A build of two pages whose pages cannot be merged.
use strata_documentai_api_en.Builds.Refused.{page_refused, replaced_file}
use strata_documentai_api_en.FileValidation.{validate_file_type}
use strata_documentai_api_en.Builds.Uploads.{
  page_path, upload_document_build_page, BuildTarget, PageFile,
}
use strata_documentai_api_en.Prelude.{
  or_else, String, ℕ, ◌≡◌, refl, true, false, none, some, List, [], ◌∷◌, ◌⊎◌, arith, lookup,
}
use strata_documentai_api_en.Document.{BuildItem}
use strata_documentai_api_en.BatchUpload.{copied}
use strata_documentai_api_en.Store.State.{World}
use strata_documentai_api_en.Store.Actions.{raised, http_error, value_error}
use strata_documentai_api_en.Builds.{
  pages_of, empty_item, PageMetadata, page_at, is_locked, is_document_build_submitted,
}
use strata_documentai_api_en.Builds.Submit.{
  SubmitRequest, submit_locked, delete_document_build_endpoint, delete_document_build_page_endpoint,
}
use strata_documentai_api_en.Builds.Rollback.{
  copying_error, EndsAs, submit_locked_lem, rollback_incomplete,
}
use strata_documentai_api_en.Scenarios.Data.{env, world}

abbrev page : BuildItem
page = record empty_item { s3_path = some "p.png"; created_at = some 10 }

abbrev with_build : World
with_build = record world {
  builds =
      (
        "build",
        (0, record empty_item { is_build_metadata = some true }) ∷ (1, page) ∷ (2, page) ∷ [],
      )
      ∷ [];
}

abbrev pages : List PageMetadata
pages =
    record {
      page_number = 1;
      s3_key = some "p.png";
      original_file_name = none;
      category = none;
      created_at = some 10;
    }
    ∷ []

abbrev request : SubmitRequest
request = record {
  build_id = "build";
  job_id = "job-20";
  declined_key = "document-build-build-job-20.pdf";
  unique_file_name = "document-build-build-21.pdf";
  tenant_id = "tenant";
  api_key_name = "key";
  has_location = true;
  merge_error = some value_error;
  copying = copied;
}

submit_locked_lem_example :
    ((is_locked "build" with_build ≡ true)
      × (submit_locked env request pages with_build ≡ (raised (http_error 400), with_build)))
    ⊎ ((is_locked "build" with_build ≡ false)
        × EndsAs env request pages
            (or_else request.merge_error (copying_error request.copying))
            (submit_locked env request pages with_build).0
            (submit_locked env request pages with_build).1)
submit_locked_lem_example = submit_locked_lem env request pages with_build

rollback_incomplete_example :
    let v = (submit_locked env request pages with_build).1 in
    ((submit_locked env request pages with_build).0 ≡ raised (http_error 500))
    × (is_locked "build" v ≡ false)
    × (is_document_build_submitted "build" v ≡ true)
    × (delete_document_build_endpoint "build" v ≡ (raised (http_error 400), v))
    × (delete_document_build_page_endpoint "build" 2 v ≡ (raised (http_error 400), v))
unfolding page_at lookup
rollback_incomplete_example =
    rollback_incomplete env request pages value_error 1 2 page with_build refl refl refl refl
      (omega arith)

abbrev target : BuildTarget
target = record { build_id = "build"; tenant_id = "tenant"; category = none; prefix = "pre" }

abbrev new_page : PageFile
new_page = record {
  filename = some "x.pdf";
  size = some 100;
  detected = "application/pdf";
  content = "new";
  copying = copied;
}

abbrev page_text : ℕ → String
page_text n = "1"

page_refused_example :
    (upload_document_build_page page_text target new_page (some 1) false with_build
      ≡ (raised (http_error 409), replaced_file page_text target new_page 1 with_build))
    × (lookup
          (page_path page_text target 1 new_page)
          (replaced_file page_text target new_page 1 with_build).objects
        ≡ some "new")
unfolding page_at lookup validate_file_type pages_of
page_refused_example =
    page_refused page_text target new_page 1 page with_build refl refl refl refl refl refl

-- ===== src/Builds/Refused.antt =====
-- The upload of a page that is there already, without the permission to replace it.
use strata_documentai_api_en.Prelude.{
  ℕ, String, ◌≡◌, refl, true, false, some, has_text, leb, length, insert, lookup,
  lookup-insert_self,
}
use strata_documentai_api_en.Document.{BuildItem}
use strata_documentai_api_en.FileValidation.{validate_file_type}
use strata_documentai_api_en.BatchUpload.{copied}
use strata_documentai_api_en.Store.State.{World}
use strata_documentai_api_en.Store.Actions.{returned, raised, http_error}
use strata_documentai_api_en.Builds.{
  page_at, items_of, document_build_page_exists, upsert_document_build_page,
  get_document_build_pages, pages_of,
}
use strata_documentai_api_en.Builds.Uploads.{
  PageFile, BuildTarget, max_pages, is_too_large, page_path, add_page_to_build,
  upload_document_build_page,
}

-- The state with the refused file under the key of the page.
abbrev pub replaced_file : (ℕ → String) → BuildTarget → PageFile → ℕ → World → World
replaced_file page_text t f n w = record w {
  objects = insert (page_path page_text t n f) f.content w.objects;
}

module _ (page_text : ℕ → String) (t : BuildTarget) (f : PageFile) (n : ℕ) (i : BuildItem)
    (w : World) (h : page_at n (items_of t.build_id w) ≡ some i) (c : f.copying ≡ copied)
    (name : has_text f.filename ≡ true) where
  add_refused :
      add_page_to_build page_text t f n false w
      ≡ (raised (http_error 409), replaced_file page_text t f n w)
  unfolding add_page_to_build upsert_document_build_page document_build_page_exists
  add_refused = rw (name, c, h) refl

  -- The upload of a file that has a name and a supported type, is not too large and is copied into S3, under the number
  -- of a page that is there already, without the permission to replace it, to a build that is not full,
  -- is refused with 409 and leaves every row as it is; but the content that is stored under the key of
  -- the page and the file's extension is that of the refused file.
  pub page_refused :
      validate_file_type f.detected w ≡ (returned f.detected, w)
      → is_too_large f.size ≡ false
      → leb max_pages (length (pages_of t.build_id w)) ≡ false
      → (upload_document_build_page page_text t f (some n) false w
          ≡ (raised (http_error 409), replaced_file page_text t f n w))
        × (lookup (page_path page_text t n f) (replaced_file page_text t f n w).objects
            ≡ some f.content)
  unfolding upload_document_build_page get_document_build_pages
  page_refused v s l = (
    rw v (rw s (rw l (rw add_refused refl))),
    lookup-insert_self (page_path page_text t n f) f.content w.objects,
  )

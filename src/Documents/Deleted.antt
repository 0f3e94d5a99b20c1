-- ===== src/Documents/Deleted.antt =====
-- What clients are told of a deleted document.
use strata_documentai_api_en.Prelude.{
  if◌then◌else◌, ◌∙◌, String, ◌≡◌, refl, Bool, true, false, ◌||◌, Option, none, some, List, [], ◌∷◌,
  lookup, insert, has_text, str_eq, str_refl, sym, subst, ap, Bool-cases, inl, inr,
}
use strata_documentai_api_en.Status.{ProcessStatus, deleted, same_status, is_classified}
use strata_documentai_api_en.Document.{Document, Field, V1Response}
use strata_documentai_api_en.Response.{is_empty}
use strata_documentai_api_en.Ddb.{mark_document_deleted}
use strata_documentai_api_en.Store.{update_document}
use strata_documentai_api_en.TenantAccess.{is_tenant, validate_document_tenant_access}
use strata_documentai_api_en.Store.State.{World, Env}
use strata_documentai_api_en.Store.Actions.{Outcome, returned, raised, http_error}
use strata_documentai_api_en.Documents.{
  find_job, has_job_id, get_job_status, get_document_results, search_documents, search_one,
  JobStatusResponse, from_v1, delete_document, purge_document_s3_artifacts, Locations,
}

abbrev pub key_or : String → Option (String × Document) → String
key_or name none = name
key_or name (some (key, d)) = key

abbrev pub document_or : Document → Option (String × Document) → Document
document_or e none = e
document_or e (some (key, d)) = d

module _ (job_id key : String) (d : Document) where
  -- The first item of a job keeps its place when it is written again.
  find_job-insert :
      (new : Document) (table : List (String × Document))
      → find_job job_id table ≡ some (key, d)
      → lookup key table ≡ some d
      → has_job_id job_id d.job_id ≡ true
      → has_job_id job_id new.job_id ≡ true
      → find_job job_id (insert key new table) ≡ some (key, new)
  unfolding find_job lookup insert
  find_job-insert new [] f l o h = cc
  find_job-insert new ((name, e) ∷ table) f l o h =
      let rest = find_job-insert new table in
      elim (Bool-cases (str_eq name key)) [
        | inl same ↦ rw same (rw h refl)
        | inr differs ↦ elim (Bool-cases (has_job_id job_id e.job_id)) [
          | inl found ↦
              let g : some (name, e) ≡ some (key, d) = rw found at f in
              let b : true ≡ false = sym (rw (ap (key_or name) g) (str_refl key)) ∙ differs in cc
          | inr passed ↦ rw differs (rw passed (rest (rw passed at f) (rw differs at l) o h))
        ]
      ]

  -- What is found has the job's identifier.
  find_job-has_job_id :
      (table : List (String × Document))
      → find_job job_id table ≡ some (key, d)
      → has_job_id job_id d.job_id ≡ true
  unfolding find_job
  find_job-has_job_id [] f = cc
  find_job-has_job_id ((name, e) ∷ table) f =
      let rest = find_job-has_job_id table in
      elim (Bool-cases (has_job_id job_id e.job_id)) [
        | inl found ↦
            let g : some (name, e) ≡ some (key, d) = rw found at f in
            subst (λ x. has_job_id job_id x.job_id ≡ true) (ap (document_or e) g) found
        | inr passed ↦ rest (rw passed at f)
      ]

-- The record as its deletion leaves it.
abbrev pub deleted_record : Bool → World → Document → Document
deleted_record soft_delete w d = record d {
  process_status = some deleted;
  deletion_type = some (if soft_delete then "soft" else "hard");
  updated_at = some w.now;
}

abbrev pub after_deletion : Bool → String → World → Document → World
after_deletion soft_delete key w d = record w {
  documents = insert key (deleted_record soft_delete w d) w.documents;
}

module _ (locations : Locations) (fails : String → Bool) (job_id key tenant_id : String)
    (d : Document) (s : ProcessStatus) (w : World)
    (found : find_job job_id w.documents ≡ some (key, d))
    (stored : lookup key w.documents ≡ some d) where
  abbrev deletes : Bool → World → Outcome (Unit {0}) × World
  deletes soft_delete v = delete_document locations fails job_id tenant_id soft_delete v

  pub deletion_returns :
      (soft_delete : Bool)
      → d.process_status ≡ some s
      → same_status s deleted ≡ false
      → is_classified s ≡ true
      → is_tenant tenant_id d.tenant_id ≡ true
      → has_text (some key) ≡ true
      → (soft_delete || is_empty (purge_document_s3_artifacts locations fails)) ≡ true
      → deletes soft_delete w ≡ (returned tt, after_deletion soft_delete key w d)
  unfolding delete_document get_job_status validate_document_tenant_access mark_document_deleted
      update_document
  deletion_returns true p n c t k complete = rw (found, t, p, n, c, k, stored) refl
  deletion_returns false p n c t k complete = rw (found, t, p, n, c, k, complete, stored) refl

  still_found :
      (soft_delete : Bool)
      → find_job job_id (after_deletion soft_delete key w d).documents
        ≡ some (key, deleted_record soft_delete w d)
  still_found soft_delete =
      let owned = find_job-has_job_id job_id key d w.documents found in
      find_job-insert job_id key d (deleted_record soft_delete w d) w.documents found stored owned
        owned

  not_deleted_twice :
      (soft_delete again : Bool) (other : String)
      → let v = after_deletion soft_delete key w d in
        delete_document locations fails job_id other again v ≡ (raised (http_error 404), v)
  unfolding delete_document get_job_status validate_document_tenant_access same_status
  not_deleted_twice soft_delete again other =
      rw (still_found soft_delete) (elim (Bool-cases (is_tenant other d.tenant_id)) [
        | inl same ↦ rw same refl
        | inr differs ↦ rw differs refl
      ])

  module _ (env : Env) (extracted : Document → Option (List (String × Field))) where
    results_hidden :
        (soft_delete e b : Bool) (other : String)
        → let v = after_deletion soft_delete key w d in
          get_document_results env extracted job_id other e b v ≡ (raised (http_error 404), v)
    unfolding get_document_results get_job_status validate_document_tenant_access same_status
    results_hidden soft_delete e b other =
        rw (still_found soft_delete) (elim (Bool-cases (is_tenant other d.tenant_id)) [
          | inl same ↦ rw same refl
          | inr differs ↦ rw differs refl
        ])

    search_shows :
        (soft_delete : Bool) (r : V1Response) (shown : JobStatusResponse)
        → is_tenant tenant_id d.tenant_id ≡ true
        → d.v1_api_response_json ≡ some r
        → from_v1 r ≡ returned shown
        → let v = after_deletion soft_delete key w d in
          search_documents env extracted (job_id ∷ []) tenant_id false v
          ≡ (returned (shown ∷ []), v)
    unfolding search_documents search_one
    search_shows soft_delete r shown t stored_response presented =
        rw (still_found soft_delete) (rw t (rw stored_response (rw presented refl)))

  -- The deletion of a document that has ended and is not deleted, by its tenant, returns where it is soft or every
  -- copy is purged. From then on its results are not found, and neither is it for a deletion, for any caller.
  pub delete_document_lem :
      (env : Env) (extracted : Document → Option (List (String × Field))) (soft_delete : Bool)
      (other : String) (e b again : Bool)
      → d.process_status ≡ some s
      → same_status s deleted ≡ false
      → is_classified s ≡ true
      → is_tenant tenant_id d.tenant_id ≡ true
      → has_text (some key) ≡ true
      → (soft_delete || is_empty (purge_document_s3_artifacts locations fails)) ≡ true
      → let v = after_deletion soft_delete key w d in
        (delete_document locations fails job_id tenant_id soft_delete w ≡ (returned tt, v))
        × (get_document_results env extracted job_id other e b v ≡ (raised (http_error 404), v))
        × (delete_document locations fails job_id other again v ≡ (raised (http_error 404), v))
  delete_document_lem env extracted soft_delete other e b again p n c t k complete = (
    deletion_returns soft_delete p n c t k complete,
    results_hidden env extracted soft_delete e b other,
    not_deleted_twice soft_delete again other,
  )

  -- After the deletion, soft or hard with every copy purged, of a document that has ended and has a stored response
  -- with its job's identifier, its tenant's search for this one job, without the extracted data, still
  -- answers with that response.
  pub search_deleted :
      (env : Env) (extracted : Document → Option (List (String × Field))) (soft_delete : Bool)
      (r : V1Response) (shown : JobStatusResponse)
      → d.process_status ≡ some s
      → same_status s deleted ≡ false
      → is_classified s ≡ true
      → is_tenant tenant_id d.tenant_id ≡ true
      → has_text (some key) ≡ true
      → (soft_delete || is_empty (purge_document_s3_artifacts locations fails)) ≡ true
      → d.v1_api_response_json ≡ some r
      → from_v1 r ≡ returned shown
      → let v = (delete_document locations fails job_id tenant_id soft_delete w).1 in
        search_documents env extracted (job_id ∷ []) tenant_id false v ≡ (returned (shown ∷ []), v)
  search_deleted env extracted soft_delete r shown p n c t k complete response presented =
      rw (deletion_returns soft_delete p n c t k complete)
        (search_shows env extracted soft_delete r shown t response presented)

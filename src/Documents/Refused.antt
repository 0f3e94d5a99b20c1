-- ===== src/Documents/Refused.antt =====
-- The endings of a deletion.
use strata_documentai_api_en.Prelude.{
  ℕ, String, ◌≡◌, refl, Bool, true, false, ◌||◌, some, ◌⊎◌, inl, inr, lookup, has_text, Bool-cases,
  Option-cases,
}
use strata_documentai_api_en.Status.{ProcessStatus, deleted, same_status, is_classified}
use strata_documentai_api_en.Document.{Document}
use strata_documentai_api_en.Response.{is_empty}
use strata_documentai_api_en.Store.State.{World}
use strata_documentai_api_en.TenantAccess.{is_tenant, validate_document_tenant_access}
use strata_documentai_api_en.Store.Actions.{Outcome, returned, raised, http_error}
use strata_documentai_api_en.Documents.{
  find_job, get_job_status, delete_document, has_ended, is_deleted, purge_document_s3_artifacts,
  Locations,
}
use strata_documentai_api_en.Documents.Deleted.{after_deletion, deletion_returns}

module _ (locations : Locations) (fails : String → Bool) (job_id tenant_id : String)
    (soft_delete : Bool) (w : World) where
  abbrev deletion : Outcome (Unit {0}) × World
  deletion = delete_document locations fails job_id tenant_id soft_delete w

  abbrev pub IsRefused : Type 0
  IsRefused = (code : ℕ) × (deletion ≡ (raised (http_error code), w))

  abbrev IsPurged : Type 0
  IsPurged = (soft_delete || is_empty (purge_document_s3_artifacts locations fails)) ≡ true

  abbrev pub IsDone : Type 0
  IsDone =
      (key : String) × (d : Document) × (find_job job_id w.documents ≡ some (key, d))
      × (is_tenant tenant_id d.tenant_id ≡ true)
      × (has_ended d.process_status ≡ true)
      × (is_deleted d.process_status ≡ false)
      × IsPurged
      × (deletion ≡ (returned tt, after_deletion soft_delete key w d))

  module _ (key : String) (d : Document) (found : find_job job_id w.documents ≡ some (key, d))
      (stored : lookup key w.documents ≡ some d) (t : is_tenant tenant_id d.tenant_id ≡ true) where
    not_purged :
        (s : ProcessStatus) (soft : Bool)
        → d.process_status ≡ some s
        → same_status s deleted ≡ false
        → is_classified s ≡ true
        → has_text (some key) ≡ true
        → (soft || is_empty (purge_document_s3_artifacts locations fails)) ≡ false
        → delete_document locations fails job_id tenant_id soft w ≡ (raised (http_error 500), w)
    unfolding delete_document get_job_status validate_document_tenant_access
    not_purged s true p n c k failed = cc
    not_purged s false p n c k failed = rw (found, t, p, n, c, k, failed) refl

    of_ended :
        (s : ProcessStatus)
        → d.process_status ≡ some s
        → same_status s deleted ≡ false
        → is_classified s ≡ true
        → IsRefused ⊎ IsDone
    unfolding delete_document get_job_status validate_document_tenant_access
    of_ended s p n c = elim (Bool-cases (has_text (some key))) [
      | inr nameless ↦ inl (500, rw (found, t, p, n, c, nameless) refl)
      | inl k ↦
          elim (Bool-cases
            (soft_delete || is_empty (purge_document_s3_artifacts locations fails))) [
              | inr failed ↦ inl (500, not_purged s soft_delete p n c k failed)
              | inl complete ↦ inr (
                key,
                d,
                found,
                t,
                rw p c,
                rw p n,
                complete,
                deletion_returns locations fails job_id key tenant_id d s w found stored soft_delete
                    p n c t k complete,
              )
            ]
    ]

    of_owned : IsRefused ⊎ IsDone
    unfolding delete_document get_job_status validate_document_tenant_access
    of_owned = elim (Option-cases d.process_status) [
      | inl p ↦ inl (400, rw (found, t, p) refl)
      | inr (s, p) ↦ elim (Bool-cases (same_status s deleted)) [
        | inl n ↦ inl (404, rw (found, t, p, n) refl)
        | inr n ↦ elim (Bool-cases (is_classified s)) [
          | inl c ↦ of_ended s p n c
          | inr c ↦ inl (400, rw (found, t, p, n, c) refl)
        ]
      ]
    ]

  -- Where the index gives items as they are in the table, a deletion either is refused with an HTTP error and changes
  -- nothing; or the job is of the tenant, has ended and is not deleted yet, a hard deletion has purged every copy,
  -- and the record is marked as deleted, which is all that changes in the state.
  pub deletion_ends :
      ((key : String) (d : Document)
        → find_job job_id w.documents ≡ some (key, d)
        → lookup key w.documents ≡ some d)
      → IsRefused ⊎ IsDone
  unfolding delete_document get_job_status validate_document_tenant_access
  deletion_ends indexed = elim (Option-cases (find_job job_id w.documents)) [
    | inl absent ↦ inl (404, rw absent refl)
    | inr ((key, d), found) ↦ elim (Bool-cases (is_tenant tenant_id d.tenant_id)) [
      | inl t ↦ of_owned key d found (indexed key d found) t
      | inr other ↦ inl (404, rw (found, other) refl)
    ]
  ]

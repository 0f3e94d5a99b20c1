-- ===== src/Batch/Creation.antt =====
-- The creation of a batch: an id is taken once.
use strata_documentai_api_en.Prelude.{
  ℕ, String, ◌≡◌, ap, Bool-cases, inl, inr, true, Option, is_some, lookup, lookup-insert_self,
  if◌then◌else◌,
}
use strata_documentai_api_en.Status.{BatchStatus}
use strata_documentai_api_en.Batch.{create_batch}
use strata_documentai_api_en.Store.State.{World}
use strata_documentai_api_en.Store.Actions.{http_error, raised, returned}

taken :
    (batch_id : String) (total_files : ℕ) (category : Option String) (status : BatchStatus)
    (tenant_id api_key_name : Option String) (w : World)
    → is_some (lookup batch_id w.batches) ≡ true
    → create_batch batch_id total_files category status tenant_id api_key_name w
      ≡ (raised (http_error 409), w)
unfolding create_batch
taken batch_id total_files category status tenant_id api_key_name w h = rw h

-- The creation of a batch returns the time exactly where no batch has the id, and else fails with 409.
-- Either way the id is taken then: whatever batch is to be created under it, the creation fails with
-- 409 and changes nothing.
pub create_batch_lem :
    (batch_id : String) (total_files files' : ℕ) (category category' : Option String)
    (status status' : BatchStatus) (tenant_id tenant' api_key_name key' : Option String) (w : World)
    → let w' = (create_batch batch_id total_files category status tenant_id api_key_name w).1 in
      ((create_batch batch_id total_files category status tenant_id api_key_name w).0
        ≡ (if is_some (lookup batch_id w.batches) then raised (http_error 409) else returned w.now))
      × (create_batch batch_id files' category' status' tenant' key' w'
          ≡ (raised (http_error 409), w'))
unfolding create_batch
create_batch_lem batch_id total_files files' category category' status status' tenant_id tenant'
      api_key_name key' w =
    elim (Bool-cases (is_some (lookup batch_id w.batches))) [
      | inl y ↦ (rw y, rw y (taken batch_id files' category' status' tenant' key' w y))
      | inr n ↦ (
        rw n,
        rw n (
            taken batch_id files' category' status' tenant' key' _
              (ap is_some (lookup-insert_self batch_id _ w.batches))),
      )
    ]

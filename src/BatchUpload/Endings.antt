-- ===== src/BatchUpload/Endings.antt =====
-- How the upload of a batch ends, and what its item says then.
use strata_documentai_api_en.Prelude.{
  ℕ, suc, String, ◌≡◌, refl, Bool, true, false, Option, none, some, List, [], ◌∷◌, lookup,
  lookup-insert_self, inl, inr, ◌⊎◌, length, arith, insert,
}
use strata_documentai_api_en.Status.{BatchStatus, processing, uploading}
use strata_documentai_api_en.Quota.{TenantLimits}
use strata_documentai_api_en.Batch.{
  create_batch, update_batch_status, get_batch, with_status, new_batch,
}
use strata_documentai_api_en.BatchUpload.{
  UploadFile, BatchRequest, BatchUploadResponse, BatchJobItem, process_one, process_files,
  process_batch_files, execute_batch, handled, mark_failed, finish_upload,
}
use strata_documentai_api_en.BatchUpload.Kept.{Keeps-process_files}
use strata_documentai_api_en.Store.State.{World, Env, Batch}
use strata_documentai_api_en.Store.Actions.{
  Action, Outcome, conditional_check_failed, validation_error, value_error, runtime_error,
  retry_error, returned, raised, pure, raise, ◌>>=◌, ◌>>◌, http_error, proceed,
}

-- What the item of the batch says, for each outcome of the request.
abbrev EndsAs : ℕ → Outcome BatchUploadResponse → Batch → Type 0
EndsAs n (returned r) b =
    (b.batch_status ≡ some processing)
    × (b.resolved_count ≡ none)
    × (r.total_files ≡ n)
    × (length r.jobs ≡ n)
EndsAs n (raised (http_error status)) b =
    (b.batch_status ≡ some uploading)
    ⊎ ((status ≡ 500) × (b.batch_status ≡ some BatchStatus.failed))
EndsAs n (raised e) b = ⊥

pub record HasEnded (batch_id : String) (n : ℕ) (r : Outcome BatchUploadResponse × World)
    : Type 0 where
  pub item : Batch
  pub found : lookup batch_id r.1.batches ≡ some item
  pub has_total : item.total_files ≡ some n
  pub ends_as : EndsAs n r.0 item

abbrev HasLength : ℕ → Outcome (List BatchJobItem) → Type 0
HasLength n (returned jobs) = length jobs ≡ n
HasLength n (raised e) = Unit {0}

cons_length :
    (n : ℕ) (job : BatchJobItem) (o : Outcome (List BatchJobItem)) (w : World)
    → HasLength n o
    → HasLength (suc n) (proceed o (λ jobs. pure (job ∷ jobs)) w).0
cons_length n job (returned jobs) w h = omega arith
cons_length n job (raised e) w h = tt

after_job :
    (n : ℕ) (o : Outcome BatchJobItem) (m : Action (List BatchJobItem)) (w : World)
    → ((v : World) → HasLength n (m v).0)
    → HasLength (suc n) (proceed o (λ job. m >>= λ jobs. pure (job ∷ jobs)) w).0
after_job n (returned job) m w h = cons_length n job (m w).0 (m w).1 (h w)
after_job n (raised e) m w h = tt

updated :
    (batch_id : String) (status : BatchStatus) (message : Option String) (w : World) (b : Batch)
    → lookup batch_id w.batches ≡ some b
    → update_batch_status batch_id status message none w ≡ (
      returned (with_status w.now status message b),
      record w { batches = insert batch_id (with_status w.now status message b) w.batches },
    )
unfolding update_batch_status
updated batch_id status message w b h = rw h

module _ (env : Env) (tenants : String → Option TenantLimits) (today : String)
    (q : BatchRequest) where
  process_files-length :
      (fs : List UploadFile) (w : World)
      → HasLength (length fs) (process_files env tenants today q fs w).0
  unfolding process_files
  process_files-length [] w = refl
  process_files-length (f ∷ fs) w =
      after_job (length fs) (process_one env tenants today q f w).0
        (process_files env tenants today q fs) (process_one env tenants today q f w).1
        (process_files-length fs)

  -- The state of the item while the files are taken.
  record IsOpen (b : Batch) (w : World) : Type 0 where
    found : lookup q.batch_id w.batches ≡ some b
    has_total : b.total_files ≡ some (length q.files)
    is_uploading : b.batch_status ≡ some uploading
    is_uncounted : b.resolved_count ≡ none

  broken_HasEnded :
      (b : Batch) (w : World)
      → IsOpen b w
      → HasEnded q.batch_id (length q.files) (
          (get_batch q.batch_id
              >>= mark_failed env tenants today q
              >> raise {A = BatchUploadResponse} (http_error 500))
            w)
  unfolding get_batch
  broken_HasEnded b w p =
      let b' = with_status w.now BatchStatus.failed (some "Internal processing error") b in
      rw (p.found) (
        rw (updated q.batch_id BatchStatus.failed (some "Internal processing error") w b p.found)
          (record {
            item = b';
            found = lookup-insert_self q.batch_id b' w.batches;
            has_total = p.has_total;
            ends_as = inr (refl, refl);
          }))

  finish_HasEnded :
      (now : ℕ) (o : Outcome (List BatchJobItem)) (b : Batch) (w : World)
      → IsOpen b w
      → HasLength (length q.files) o
      → HasEnded q.batch_id (length q.files) (
          let (r, w') = proceed o (finish_upload env tenants today q now) w in
          handled env tenants today q r w')
  finish_HasEnded now (returned jobs) b w p h =
      let b' = with_status w.now processing none b in
      rw (updated q.batch_id processing none w b p.found) (record {
        item = b';
        found = lookup-insert_self q.batch_id b' w.batches;
        has_total = p.has_total;
        ends_as = (refl, p.is_uncounted, refl, h);
      })
  finish_HasEnded now (raised (http_error status)) b w p h = record {
    item = b;
    found = p.found;
    has_total = p.has_total;
    ends_as = inl p.is_uploading;
  }
  finish_HasEnded now (raised conditional_check_failed) b w p h = broken_HasEnded b w p
  finish_HasEnded now (raised validation_error) b w p h = broken_HasEnded b w p
  finish_HasEnded now (raised value_error) b w p h = broken_HasEnded b w p
  finish_HasEnded now (raised runtime_error) b w p h = broken_HasEnded b w p
  finish_HasEnded now (raised retry_error) b w p h = broken_HasEnded b w p

  located_HasLength :
      (has_location : Bool) (w : World)
      → HasLength (length q.files) (process_batch_files env tenants today has_location q w).0
  unfolding process_batch_files
  located_HasLength true w = process_files-length q.files w
  located_HasLength false w = tt

  located_IsOpen :
      (has_location : Bool) (b : Batch) (w : World)
      → IsOpen b w
      → IsOpen b (process_batch_files env tenants today has_location q w).1
  unfolding process_batch_files
  located_IsOpen true b w p = record {
    found = Keeps-process_files env tenants today q b p.is_uploading q.files w p.found;
    has_total = p.has_total;
    is_uploading = p.is_uploading;
    is_uncounted = p.is_uncounted;
  }
  located_IsOpen false b w p = p

  abbrev opened : World → World
  opened w = record w {
    batches =
        insert q.batch_id
          (new_batch w.now (length q.files) q.category uploading (some q.tenant_id)
            (some q.api_key_name))
          w.batches;
  }

  created :
      (w : World)
      → lookup q.batch_id w.batches ≡ none
      → create_batch q.batch_id
          (length q.files)
          q.category
          uploading
          (some q.tenant_id)
          (some q.api_key_name)
          w
        ≡ (returned w.now, opened w)
  unfolding create_batch
  created w n = rw n

  opened-IsOpen :
      (w : World)
      → IsOpen
          (new_batch w.now
            (length q.files)
            q.category
            uploading
            (some q.tenant_id)
            (some q.api_key_name))
          (opened w)
  opened-IsOpen w = record {
    found = lookup-insert_self q.batch_id _ w.batches;
    has_total = refl;
    is_uploading = refl;
    is_uncounted = refl;
  }

  -- The upload of a batch under a new id always ends with an item of the batch, and with all files in
  -- its total. If it returns, there is a job for each file, and the batch is in processing with no
  -- file counted, even where files were declined or could not be converted and are resolved already.
  -- If it fails, it fails with an HTTP error; the batch is then still in uploading, or the error is 500
  -- and the batch is marked as failed.
  pub execute_batch_lem :
      (has_location : Bool) (w : World)
      → lookup q.batch_id w.batches ≡ none
      → HasEnded q.batch_id (length q.files) (execute_batch env tenants today has_location q w)
  unfolding execute_batch
  execute_batch_lem has_location w n =
      let m = process_batch_files env tenants today has_location q in
      rw (created w n) (
        finish_HasEnded w.now (m (opened w)).0 _ (m (opened w)).1
          (located_IsOpen has_location _ (opened w) (opened-IsOpen w))
          (located_HasLength has_location (opened w)))

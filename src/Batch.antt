-- ===== src/Batch.antt =====
-- documentai-api/src/documentai_api/utils/batch_operations.py: the records of batch uploads, and the
-- count of their resolved files. The index by batch is read as it stands, without the delay that
-- DynamoDB allows it.
pub mod Counting
pub mod Creation
use strata_documentai_api_en.Prelude.{
  ℕ, zero, suc, ◌+◌, ◌*◌, ◌/◌, ◌||◌, String, Bool, true, false, Option, none, some, List, [], ◌∷◌,
  ◌==◌, ltb, has_text, or_else, str_eq, is_some, count_if, filter_if, if◌then◌else◌, lookup, insert,
  not, map,
}
use strata_documentai_api_en.Status.{
  ProcessStatus, timed_out, same_status, BatchStatus, processing, completed, partial,
  same_batch_status,
}
use strata_documentai_api_en.Document.{Document}
use strata_documentai_api_en.Response.{truthy}
use strata_documentai_api_en.Store.{get_batch_item, update_batch}
use strata_documentai_api_en.Store.State.{World, Batch, empty_batch}
use strata_documentai_api_en.Store.Actions.{
  Action, Error, conditional_check_failed, http_error, returned, raised, pure, raise, catch, ◌>>=◌,
  ◌>>◌, get_state,
}

-- Seconds of thirty days, the time that a batch's record lives.
abbrev pub batch_lifetime : ℕ
batch_lifetime = 30 * 24 * 60 * 60

-- The conditional `put_item`: it replaces nothing.
unfoldable pub put_batch : String → Batch → Action (Unit {0})
put_batch batch_id b w =
    if is_some (lookup batch_id w.batches)
    then (raised conditional_check_failed, w)
    else (returned tt, record w { batches = insert batch_id b w.batches })

abbrev conflict : Error → Action (Unit {0})
conflict conditional_check_failed = raise (http_error 409)
conflict e = raise e

abbrev pub new_batch : ℕ → ℕ → Option String → BatchStatus → Option String → Option String → Batch
new_batch now total_files category status tenant_id api_key_name = record {
  batch_status = some status;
  total_files = some total_files;
  resolved_count = none;
  category = truthy category;
  created_at = some now;
  updated_at = none;
  error_message = none;
  time_to_live = some (now / 100 + batch_lifetime);
  tenant_id = tenant_id;
  api_key_name = api_key_name;
}

-- Returns the time of creation.
unfoldable pub create_batch :
    String → ℕ → Option String → BatchStatus → Option String → Option String → Action ℕ
unfolding put_batch
create_batch batch_id total_files category status tenant_id api_key_name w =
    let b = new_batch w.now total_files category status tenant_id api_key_name in
    (catch (put_batch batch_id b) conflict >> pure w.now) w

unfoldable pub has_status : BatchStatus → Batch → Bool
unfolding same_batch_status
has_status s b = elim b.batch_status [ none ↦ false | some t ↦ same_batch_status t s ]

-- `batchStatus = :expected` where a condition is given
unfoldable pub expects : Option BatchStatus → Batch → Bool
unfolding has_status
expects none b = true
expects (some s) b = has_status s b

abbrev pub with_status : ℕ → BatchStatus → Option String → Batch → Batch
with_status now status error_message b = record b {
  batch_status = some status;
  updated_at = some now;
  error_message = or_else (truthy error_message) b.error_message;
}

unfoldable pub update_batch_status :
    String → BatchStatus → Option String → Option BatchStatus → Action Batch
unfolding update_batch expects
update_batch_status batch_id status error_message expected w =
    update_batch batch_id (with_status w.now status error_message) (expects expected) w

unfoldable pub get_batch : String → Action (Option Batch)
unfolding get_batch_item
get_batch batch_id = get_batch_item batch_id

abbrev in_batch : String → Option String → Bool
in_batch batch_id none = false
in_batch batch_id (some b) = str_eq b batch_id

abbrev pub jobs_of : String → List (String × Document) → List Document
jobs_of batch_id [] = []
jobs_of batch_id ((key, d) ∷ m) =
    let rest = jobs_of batch_id m in if in_batch batch_id d.batch_id then d ∷ rest else rest

unfoldable pub query_jobs_by_batch_id : String → Action (List Document)
query_jobs_by_batch_id batch_id w = (returned (jobs_of batch_id w.documents), w)

unfoldable pub is_failed_job : Document → Bool
unfolding same_status
is_failed_job d = elim d.process_status [
  | none ↦ false
  | some s ↦ same_status s ProcessStatus.failed || same_status s timed_out
]

-- The status of a batch whose files are all resolved.
unfoldable pub terminal_status : ℕ → ℕ → BatchStatus
terminal_status failed_count total =
    if failed_count == 0
    then completed
    else if failed_count == total
    then BatchStatus.failed
    else partial

abbrev pub or_zero : Option ℕ → ℕ
or_zero none = 0
or_zero (some n) = n

unfoldable pub count_one : ℕ → Batch → Batch
count_one now b = record b {
  resolved_count = some (suc (or_zero b.resolved_count));
  updated_at = some now;
}

-- What follows the increment, on the item that it returned.
unfoldable pub finish_batch : String → Batch → Action (Unit {0})
unfolding query_jobs_by_batch_id update_batch_status is_failed_job terminal_status
finish_batch batch_id updated =
    if ltb (or_zero updated.resolved_count) (or_zero updated.total_files)
    then pure tt
    else (query_jobs_by_batch_id batch_id >>= λ jobs.
        update_batch_status batch_id
          (terminal_status (count_if is_failed_job jobs) (or_zero updated.total_files)) none
          (some processing)
        >> pure tt)

abbrev ignored : Error → Action (Unit {0})
ignored e = pure tt

unfoldable pub increment_resolved_count : String → Action (Unit {0})
unfolding update_batch count_one has_status finish_batch
increment_resolved_count batch_id w =
    catch
      (update_batch batch_id (count_one w.now) (has_status processing) >>= finish_batch batch_id)
      ignored w

-- ===== src/Reaper.antt =====
-- documentai-api/src/documentai_api/jobs/document_reaper/main.py: the job that gives a terminal status
-- to the documents that have been in processing for too long. What the extraction service tells of a
-- job is the argument `job_status`: nothing, or the text of its status (empty where there is none). The
-- queries of the four statuses run in parallel in the source, and their results come in any order;
-- here they come in the order of the statuses.
pub mod Resolves
use strata_documentai_api_en.Prelude.{
  ℕ, suc, ◌+◌, ◌-◌, ◌*◌, ◌&&◌, String, Bool, true, false, Option, none, some, List, [], ◌∷◌, ◌++◌,
  ltb, has_text, joined, or_else, if◌then◌else◌, lookup, insert, length,
}
use strata_documentai_api_en.Status.{
  ProcessStatus, timed_out, value, same_status, non_terminal, ddb_non_terminal_condition,
  is_job_completed, is_job_failed,
}
use strata_documentai_api_en.Document.{Document}
use strata_documentai_api_en.Response.{truthy}
use strata_documentai_api_en.Batch.{or_zero}
use strata_documentai_api_en.Classify.{is_open, counted}
use strata_documentai_api_en.Store.{update_document}
use strata_documentai_api_en.Store.State.{World}
use strata_documentai_api_en.Store.Actions.{
  Action, Error, Outcome, conditional_check_failed, returned, raised, pure, raise, attempt, ◌>>=◌,
  ◌>>◌, when,
}

abbrev pub is_applied : Outcome (Unit {0}) → Action Bool
is_applied (returned _) = pure true
is_applied (raised conditional_check_failed) = pure false
is_applied (raised e) = raise e

abbrev pub marked : ℕ → ProcessStatus → Option String → Document → Document
marked now status reason d = record d {
  process_status = some status;
  updated_at = some now;
  error_message = or_else (truthy reason) d.error_message;
}

-- `_mark_terminal`
unfoldable pub mark_terminal : String → ProcessStatus → Option String → Action Bool
unfolding update_document
mark_terminal file_name status reason w =
    attempt (update_document file_name (marked w.now status reason) is_open) is_applied w

abbrev pub after_mark : Option String → ProcessStatus → Bool → Action (Option ProcessStatus)
after_mark batch_id status true = counted batch_id >> pure (some status)
after_mark batch_id status false = pure none

-- `_mark_and_increment`
unfoldable pub mark_and_increment :
    String → Option String → ProcessStatus → Option String → Action (Option ProcessStatus)
unfolding mark_terminal
mark_and_increment file_name batch_id status reason =
    mark_terminal file_name status reason >>= after_mark batch_id status

-- What a stale record is given: a status and a reason, or nothing where its job may still end.
pub data Verdict : Type 0 where
  left_alone : Verdict
  resolved_as : ProcessStatus → Option String → Verdict

abbrev verdict_of_job : Option String → Verdict
verdict_of_job none = resolved_as timed_out none
verdict_of_job (some status) =
    if is_job_completed status
    then resolved_as ProcessStatus.failed (some "BDA completed but result was never processed")
    else if is_job_failed status
    then resolved_as ProcessStatus.failed (some (joined "BDA reported status: " status))
    else left_alone

abbrev verdict_of_arn : (String → Option String) → Option String → Verdict
verdict_of_arn job_status none = resolved_as timed_out none
verdict_of_arn job_status (some arn) = verdict_of_job (job_status arn)

unfoldable pub verdict : (String → Option String) → Document → Verdict
unfolding is_job_completed is_job_failed
verdict job_status d = verdict_of_arn job_status (truthy d.bda_invocation_arn)

abbrev pub apply_verdict : String → Option String → Verdict → Action (Option ProcessStatus)
apply_verdict file_name batch_id left_alone = pure none
apply_verdict file_name batch_id (resolved_as status reason) =
    mark_and_increment file_name batch_id status reason

-- `_process_stale_record`
unfoldable pub process_stale_record :
    (String → Option String) → String × Document → Action (Option ProcessStatus)
unfolding mark_and_increment verdict
process_stale_record job_status (file_name, d) =
    apply_verdict file_name d.batch_id (verdict job_status d)

-- `PROCESSING_REAPER_STALE_THRESHOLD_HOURS`, one hour
abbrev stale_threshold : ℕ
stale_threshold = 60 * 60 * 100

abbrev is_before : Option ℕ → ℕ → Bool
is_before none cutoff = false
is_before (some t) cutoff = ltb t cutoff

abbrev pub status_is : ProcessStatus → Option ProcessStatus → Bool
status_is s none = false
status_is s (some t) = same_status t s

-- `_query_stale_by_status`: the index holds the items that have both attributes.
unfoldable pub query_stale_by_status :
    ProcessStatus → ℕ → List (String × Document) → List (String × Document)
unfolding same_status
query_stale_by_status status cutoff [] = []
query_stale_by_status status cutoff ((key, d) ∷ m) =
    let rest = query_stale_by_status status cutoff m in
    if status_is status d.process_status && is_before d.created_at cutoff
    then (key, d) ∷ rest
    else rest

abbrev query_all : List ProcessStatus → ℕ → List (String × Document) → List (String × Document)
query_all [] cutoff m = []
query_all (s ∷ ss) cutoff m = query_stale_by_status s cutoff m ++ query_all ss cutoff m

-- `_find_stale_records`
unfoldable pub find_stale_records : World → List (String × Document)
unfolding query_stale_by_status non_terminal
find_stale_records w = query_all non_terminal (w.now - stale_threshold) w.documents

abbrev pub count_of : String → List (String × ℕ) → ℕ
count_of key counts = or_zero (lookup key counts)

abbrev pub add_count : String → List (String × ℕ) → List (String × ℕ)
add_count key counts = insert key (suc (count_of key counts)) counts

-- How one record changes the counts: a status that was written, nothing, or an error.
unfoldable pub count_outcome :
    Outcome (Option ProcessStatus) → List (String × ℕ) → List (String × ℕ)
unfolding value
count_outcome (returned none) counts = counts
count_outcome (returned (some status)) counts = add_count (value status) counts
count_outcome (raised e) counts = add_count "error" counts

unfoldable pub reap :
    (String → Option String)
    → List (String × Document)
    → List (String × ℕ)
    → World
    → List (String × ℕ) × World
unfolding process_stale_record count_outcome
reap job_status [] counts w = (counts, w)
reap job_status (record_ ∷ stale) counts w =
    let (outcome, w') = process_stale_record job_status record_ w in
    reap job_status stale (count_outcome outcome counts) w'

-- `main`, with the tables named: the number of stale records and the counts
unfoldable pub main : (String → Option String) → World → (ℕ × List (String × ℕ)) × World
unfolding find_stale_records reap
main job_status w =
    let stale = find_stale_records w in
    let (counts, w') = reap job_status stale [] w in ((length stale, counts), w')

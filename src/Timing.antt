-- ===== src/Timing.antt =====
-- documentai-api/src/documentai_api/utils/extraction_timing.py and the part of utils/ddb.py that turns
-- its results into attributes. Times are hundredths of a second, so that the rounding to two decimals
-- is done; the parsing of a stored time is not modelled, nor the handler of its failure.
use strata_documentai_api_en.Prelude.{
  ℕ, ℤ, minus, nonzero, ◌/◌, String, ◌||◌, Option, none, some, is_some, has_text, or_else,
  if◌then◌else◌,
}
use strata_documentai_api_en.Status.{ProcessStatus, started, is_completed, same_status}
use strata_documentai_api_en.Document.{Document}

unfoldable pub get_elapsed_time_seconds : ℕ → ℕ → ℤ
get_elapsed_time_seconds start_time end_time = minus end_time start_time

pub record ProcessingTimes : Type 0 where
  pub total_processing_time_seconds : Option ℤ
  pub bda_processing_time_seconds : Option ℤ

abbrev elapsed : Option ℕ → ℕ → Option ℤ
elapsed none end_time = none
elapsed (some start_time) end_time = some (get_elapsed_time_seconds start_time end_time)

unfoldable pub calculate_processing_times : Document → ℕ → ProcessingTimes
calculate_processing_times d completion_time = record {
  total_processing_time_seconds = elapsed d.created_at completion_time;
  bda_processing_time_seconds =
      elapsed (or_else d.extraction_started_at d.bda_started_at) completion_time;
}

unfoldable pub calculate_wait_time : Document → ℕ → Option ℤ
calculate_wait_time d now = elapsed d.created_at now

-- The attributes that `_build_timing_updates` sets.
pub data TimingUpdates : Type 0 where
  no_updates : TimingUpdates
  starts : ℕ → Option ℤ → TimingUpdates
  completes : ℕ → ProcessingTimes → TimingUpdates

abbrev completion_time : (String → Option ℕ) → ℕ → Option String → ℕ
completion_time last_modified now none = now
completion_time last_modified now (some uri) =
    if has_text (some uri) then elim (last_modified uri) [ none ↦ now | some t ↦ t ] else now

-- `_build_completion_timing`: nothing for a record that does not exist or never started.
unfoldable pub build_completion_timing :
    (String → Option ℕ) → ℕ → Option Document → Option String → TimingUpdates
build_completion_timing last_modified now none uri = no_updates
build_completion_timing last_modified now (some d) uri =
    if is_some d.bda_started_at || is_some d.extraction_started_at
    then completes (completion_time last_modified now uri)
        (calculate_processing_times d (completion_time last_modified now uri))
    else no_updates

abbrev wait_time : Option Document → ℕ → Option ℤ
wait_time none now = none
wait_time (some d) now = calculate_wait_time d now

-- `_build_timing_updates`, from the record as it is read before the write
unfoldable pub build_timing_updates :
    (String → Option ℕ) → ℕ → Option Document → ProcessStatus → Option String → TimingUpdates
unfolding build_completion_timing same_status is_completed
build_timing_updates last_modified now ddb_record status uri =
    if same_status status started
    then starts now (wait_time ddb_record now)
    else if is_completed status
    then build_completion_timing last_modified now ddb_record uri
    else no_updates

abbrev ticks_per_day : ℕ
ticks_per_day = 8640000

-- The clauses of the update expression. A time of zero is not written.
unfoldable pub apply_timing : TimingUpdates → Document → Document
apply_timing no_updates d = d
apply_timing (starts now wait) d = record d {
  extraction_started_at = some now;
  extraction_wait_time_seconds = wait;
}
apply_timing (completes t times) d = record d {
  extraction_completed_at = some t;
  processed_date = some (t / ticks_per_day);
  total_processing_time_seconds =
      or_else (nonzero times.total_processing_time_seconds) d.total_processing_time_seconds;
  extraction_processing_time_seconds =
      or_else (nonzero times.bda_processing_time_seconds) d.extraction_processing_time_seconds;
}

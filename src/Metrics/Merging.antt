-- ===== src/Metrics/Merging.antt =====
-- The numbers of merged statistics, of finished ones and of empty ones.
use strata_documentai_api_en.Prelude.{◌+◌, String, ◌≡◌, refl, ltb, if_both}
use strata_documentai_api_en.Metrics.{Timing, Stats, empty_stats}
use strata_documentai_api_en.Metrics.Aggregate.{with_average, finalize_timing}
use strata_documentai_api_en.Metrics.Summary.{merge}
use strata_documentai_api_en.Metrics.Counters.{
  Counter, Breakdown, records, bda_invocations, textract_extractions, extraction_invocations,
  recognized, file_sizes, pages, bda_pages, input_tokens, output_tokens, total_times, total_timed,
  bda_times, bda_timed, wait_times, wait_timed, under, status, classification, response_code,
  file_types, user_categories, upload_methods, hours, table_of, sum_under, read_counter,
  sum_under-merge_table,
}

table_of-empty : (b : Breakdown) (key : String) → sum_under key (table_of b empty_stats) ≡ 0
table_of-empty status key = refl
table_of-empty classification key = refl
table_of-empty response_code key = refl
table_of-empty file_types key = refl
table_of-empty user_categories key = refl
table_of-empty upload_methods key = refl
table_of-empty hours key = refl

pub read_counter-empty : (c : Counter) → read_counter c empty_stats ≡ 0
read_counter-empty records = refl
read_counter-empty bda_invocations = refl
read_counter-empty textract_extractions = refl
read_counter-empty extraction_invocations = refl
read_counter-empty recognized = refl
read_counter-empty file_sizes = refl
read_counter-empty pages = refl
read_counter-empty bda_pages = refl
read_counter-empty input_tokens = refl
read_counter-empty output_tokens = refl
read_counter-empty total_times = refl
read_counter-empty total_timed = refl
read_counter-empty bda_times = refl
read_counter-empty bda_timed = refl
read_counter-empty wait_times = refl
read_counter-empty wait_timed = refl
read_counter-empty (under b key) = table_of-empty b key

with_average-sum : (t : Timing) → (with_average t).sum ≡ t.sum
with_average-sum t = if_both (λ (x : Timing). x.sum ≡ t.sum) (ltb 0 t.count) _ t refl refl

with_average-count : (t : Timing) → (with_average t).count ≡ t.count
with_average-count t = if_both (λ (x : Timing). x.count ≡ t.count) (ltb 0 t.count) _ t refl refl

pub read_counter-finalize_timing :
    (c : Counter) (s : Stats) → read_counter c (finalize_timing s) ≡ read_counter c s
unfolding finalize_timing
read_counter-finalize_timing records s = refl
read_counter-finalize_timing bda_invocations s = refl
read_counter-finalize_timing textract_extractions s = refl
read_counter-finalize_timing extraction_invocations s = refl
read_counter-finalize_timing recognized s = refl
read_counter-finalize_timing file_sizes s = refl
read_counter-finalize_timing pages s = refl
read_counter-finalize_timing bda_pages s = refl
read_counter-finalize_timing input_tokens s = refl
read_counter-finalize_timing output_tokens s = refl
read_counter-finalize_timing total_times s = with_average-sum s.total_processing_time
read_counter-finalize_timing total_timed s = with_average-count s.total_processing_time
read_counter-finalize_timing bda_times s = with_average-sum s.bda_processing_time
read_counter-finalize_timing bda_timed s = with_average-count s.bda_processing_time
read_counter-finalize_timing wait_times s = with_average-sum s.bda_wait_time
read_counter-finalize_timing wait_timed s = with_average-count s.bda_wait_time
read_counter-finalize_timing (under status key) s = refl
read_counter-finalize_timing (under classification key) s = refl
read_counter-finalize_timing (under response_code key) s = refl
read_counter-finalize_timing (under file_types key) s = refl
read_counter-finalize_timing (under user_categories key) s = refl
read_counter-finalize_timing (under upload_methods key) s = refl
read_counter-finalize_timing (under hours key) s = refl

pub read_counter-merge :
    (c : Counter) (a s : Stats) → read_counter c (merge a s) ≡ read_counter c a + read_counter c s
unfolding merge
read_counter-merge records a s = refl
read_counter-merge bda_invocations a s = refl
read_counter-merge textract_extractions a s = refl
read_counter-merge extraction_invocations a s = refl
read_counter-merge recognized a s = refl
read_counter-merge file_sizes a s = refl
read_counter-merge pages a s = refl
read_counter-merge bda_pages a s = refl
read_counter-merge input_tokens a s = refl
read_counter-merge output_tokens a s = refl
read_counter-merge total_times a s = refl
read_counter-merge total_timed a s = refl
read_counter-merge bda_times a s = refl
read_counter-merge bda_timed a s = refl
read_counter-merge wait_times a s = refl
read_counter-merge wait_timed a s = refl
read_counter-merge (under status key) a s = sum_under-merge_table key a.by_status s.by_status
read_counter-merge (under classification key) a s =
    sum_under-merge_table key a.by_classification s.by_classification
read_counter-merge (under response_code key) a s =
    sum_under-merge_table key a.by_response_code s.by_response_code
read_counter-merge (under file_types key) a s =
    sum_under-merge_table key a.by_file_type s.by_file_type
read_counter-merge (under user_categories key) a s =
    sum_under-merge_table key a.by_user_category s.by_user_category
read_counter-merge (under upload_methods key) a s =
    sum_under-merge_table key a.by_upload_method s.by_upload_method
read_counter-merge (under hours key) a s = sum_under-merge_table key a.by_hour s.by_hour

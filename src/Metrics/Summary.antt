-- ===== src/Metrics/Summary.antt =====
-- `build_summary` of documentai-api/src/documentai_api/utils/metrics.py: the statistics of several
-- periods as one. Every item has all its parts, as the aggregation writes them.
use strata_documentai_api_en.Prelude.{ℕ, ◌+◌, List, [], ◌∷◌, Table}
use strata_documentai_api_en.Metrics.{Timing, Stats, empty_stats, add_to}
use strata_documentai_api_en.Metrics.Aggregate.{finalize_timing}

-- `for key, count in table.items(): acc[key] = acc.get(key, 0) + count`
unfoldable pub merge_table : Table ℕ → Table ℕ → Table ℕ
unfolding add_to
merge_table acc [] = acc
merge_table acc ((key, n) ∷ t) = merge_table (add_to key n acc) t

abbrev pub merge_timing : Timing → Timing → Timing
merge_timing a t = record a { sum = a.sum + t.sum; count = a.count + t.count }

unfoldable pub merge : Stats → Stats → Stats
unfolding merge_table
merge a s = record {
  total_records = a.total_records + s.total_records;
  total_bda_invocations = a.total_bda_invocations + s.total_bda_invocations;
  total_textract_extractions = a.total_textract_extractions + s.total_textract_extractions;
  total_extraction_invocations = a.total_extraction_invocations + s.total_extraction_invocations;
  total_documents_recognized = a.total_documents_recognized + s.total_documents_recognized;
  by_status = merge_table a.by_status s.by_status;
  by_classification = merge_table a.by_classification s.by_classification;
  by_response_code = merge_table a.by_response_code s.by_response_code;
  by_file_type = merge_table a.by_file_type s.by_file_type;
  by_user_category = merge_table a.by_user_category s.by_user_category;
  by_upload_method = merge_table a.by_upload_method s.by_upload_method;
  by_hour = merge_table a.by_hour s.by_hour;
  total_processing_time = merge_timing a.total_processing_time s.total_processing_time;
  bda_processing_time = merge_timing a.bda_processing_time s.bda_processing_time;
  bda_wait_time = merge_timing a.bda_wait_time s.bda_wait_time;
  total_file_size_bytes = a.total_file_size_bytes + s.total_file_size_bytes;
  total_pages = a.total_pages + s.total_pages;
  total_bda_pages = a.total_bda_pages + s.total_bda_pages;
  total_bedrock_input_tokens = a.total_bedrock_input_tokens + s.total_bedrock_input_tokens;
  total_bedrock_output_tokens = a.total_bedrock_output_tokens + s.total_bedrock_output_tokens;
}

unfoldable pub merge_all : Stats → List Stats → Stats
unfolding merge
merge_all a [] = a
merge_all a (s ∷ stats_list) = merge_all (merge a s) stats_list

unfoldable pub build_summary : List Stats → Stats
unfolding merge_all finalize_timing
build_summary stats_list = finalize_timing (merge_all empty_stats stats_list)

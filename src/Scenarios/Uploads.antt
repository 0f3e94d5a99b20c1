-- ===== src/Scenarios/Uploads.antt =====
-- A batch of two files, and the statistics of three records.
use strata_documentai_api_en.Prelude.{
  ◌≡◌, refl, String, true, Option, none, some, List, [], ◌∷◌, lookup, map, length,
}
use strata_documentai_api_en.Quota.{TenantLimits}
use strata_documentai_api_en.BatchUpload.{
  UploadFile, BatchRequest, copied, not_converted, execute_batch,
}
use strata_documentai_api_en.BatchUpload.Endings.{HasEnded, execute_batch_lem}
use strata_documentai_api_en.Metrics.{Readings, RawRecord}
use strata_documentai_api_en.Metrics.Aggregate.{aggregate_records}
use strata_documentai_api_en.Metrics.Summary.{build_summary}
use strata_documentai_api_en.Metrics.Counters.{Counter, under, Breakdown}
use strata_documentai_api_en.Metrics.Balance.{IsBalanced, stats_of, build_summary-IsBalanced}
use strata_documentai_api_en.Metrics.Totals.{read_at, total_worth, of_tenant, aggregate_records_lem}
use strata_documentai_api_en.Scenarios.Data.{env, world}

abbrev no_limits : String → Option TenantLimits
no_limits tenant_id = none

abbrev file : UploadFile
file = record {
  filename = some "w2.pdf";
  stem = "w2";
  extension = ".pdf";
  position = "0";
  job_id = "job-10";
  detected = "application/pdf";
  copying = copied;
}

abbrev request : BatchRequest
request = record {
  batch_id = "tenant/batch-2";
  tenant_id = "tenant";
  api_key_name = "key";
  category = some "income";
  ai_consent_flag = some true;
  files =
      file ∷ record file { position = "1"; job_id = "job-11"; copying = not_converted "bad" } ∷ [];
}

new_id : lookup "tenant/batch-2" world.batches ≡ none
unfolding lookup
new_id = refl

execute_batch_lem_example :
    HasEnded "tenant/batch-2"
      (length request.files)
      (execute_batch env no_limits "2025-01-31" true request world)
execute_batch_lem_example = execute_batch_lem env no_limits "2025-01-31" request true world new_id

abbrev readings : Readings
readings = record {
  read_int = λ s. some 3;
  read_seconds = λ s. some 250;
  read_hour = λ s. some "14";
}

abbrev row : RawRecord
row = record {
  tenant_id = some "tenant";
  process_status = some "success";
  bda_matched_document_class = some "W2";
  response_code = some "000";
  content_type = some "application/pdf";
  user_provided_document_category = some "Unknown";
  upload_method = some "batch";
  bda_invocation_arn = some "arn";
  extraction_method = some "bda";
  created_at = some "2025-01-31T14:00:00";
  file_size_bytes = some "3";
  pages_detected = some "3";
  pages_sent_to_bda = some "3";
  preclassification_input_tokens = none;
  crop_input_tokens = none;
  preclassification_output_tokens = none;
  crop_output_tokens = none;
  total_processing_time_seconds = some "2.5";
  extraction_processing_time_seconds = none;
  bda_processing_time_seconds = some "2.5";
  extraction_wait_time_seconds = none;
  bda_wait_time_seconds = none;
}

abbrev rows : List RawRecord
rows = row ∷ record row { tenant_id = none; process_status = none } ∷ row ∷ []

abbrev successes : Counter
successes = under Breakdown.status "success"

aggregate_records_lem_example :
    read_at successes (lookup "tenant" (aggregate_records readings rows))
    ≡ total_worth readings successes (of_tenant "tenant" rows)
aggregate_records_lem_example = aggregate_records_lem readings successes rows "tenant"

build_summary-IsBalanced_example :
    IsBalanced (build_summary (map (stats_of readings "tenant") (rows ∷ (row ∷ []) ∷ [])))
build_summary-IsBalanced_example =
    build_summary-IsBalanced readings "tenant" (rows ∷ (row ∷ []) ∷ [])

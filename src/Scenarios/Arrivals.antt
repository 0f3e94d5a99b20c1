-- ===== src/Scenarios/Arrivals.antt =====
-- A blurry document that arrives in the batch, and a tenant at its limit.
use strata_documentai_api_en.Store.State.{World}
use strata_documentai_api_en.Prelude.{
  ◌≤◌, ◌≡◌, refl, true, false, not, String, Option, none, some, [], lookup, arith,
}
use strata_documentai_api_en.Status.{not_started, is_classified}
use strata_documentai_api_en.Lifecycle.{
  BlurResult, get_blur_outcome, Settings, run_preclassification, Preclassification,
}
use strata_documentai_api_en.Lifecycle.Initial.{Arrival, decide, goes_on, upsert_initial_ddb_record}
use strata_documentai_api_en.Lifecycle.Decision.{decide_split}
use strata_documentai_api_en.Lifecycle.Arrivals.{IsFinished, queue_of, upsert_initial_lem}
use strata_documentai_api_en.Lifecycle.Uncounted.{analysed_uncounted}
use strata_documentai_api_en.Quota.{TenantLimits, Counts, increment_and_check, count_on}
use strata_documentai_api_en.Quota.Limits.{
  Checked, increment_and_check_lem, after_calls, after_calls_bound,
}
use strata_documentai_api_en.Lifecycle.Upload.{DocumentRecord, insert_minimal_ddb_record}
use strata_documentai_api_en.Lifecycle.Upload.Staying.{UploadedAt, upload_stays}
use strata_documentai_api_en.Scenarios.Data.{env, world}

abbrev blurry : BlurResult
blurry = record { is_blurry = true; is_not_document = false; analysis_failed = false }

abbrev settings : Settings
settings = record {
  grayscale_convertible = true;
  multipage_flagging = true;
  tenant_id = some "tenant";
  disabled_blueprint_list = none;
}

abbrev found : Preclassification
found = record {
  document_type = some "W2";
  category_match = some true;
  max_document_count_on_page = 1;
  has_multipage_inconsistency = false;
  is_identity_document = false;
}

abbrev arrival : Arrival
arrival = record {
  ddb_key = "c.pdf";
  tenant_id = some "tenant";
  upload_date = some "2025-01-31";
  user_provided_document_category = none;
  job_id = some "job-3";
  batch_id = some "batch-1";
  is_password_protected = false;
  is_processing_selected = true;
  blur_outcome = get_blur_outcome true true blurry;
  preclassification_outcome = run_preclassification settings (some 1) (some found) none;
}

decide_split_example :
    goes_on (decide arrival) ≡ not (is_classified (decide arrival).process_status)
decide_split_example =
    decide_split arrival true true blurry settings (some 1) (some found) none refl refl

upsert_initial_lem_example :
    IsFinished "c.pdf"
      (decide arrival)
      (queue_of env arrival (world.documents, world.metrics_queue))
      (upsert_initial_ddb_record env arrival world)
upsert_initial_lem_example = upsert_initial_lem env arrival world

analysed_uncounted_example : (upsert_initial_ddb_record env arrival world).1.batches ≡ world.batches
analysed_uncounted_example = analysed_uncounted env arrival world refl refl

abbrev limits : TenantLimits
limits = record { max_writes_per_day = some 2; max_writes_per_month = none }

abbrev tenants : String → Option TenantLimits
tenants tenant_id = some limits

abbrev no_counts : Counts
no_counts = []

nothing_counted_yet : count_on "tenant" "2025-01-31" no_counts ≤ 2
unfolding count_on lookup
nothing_counted_yet = omega arith

increment_and_check_lem_example :
    let r = increment_and_check tenants "tenant" "2025-01-31" no_counts in
    Checked limits "tenant" "2025-01-31" no_counts r.1 r.0
increment_and_check_lem_example =
    increment_and_check_lem tenants "tenant" "2025-01-31" no_counts limits refl refl

after_calls_bound_example :
    count_on "tenant" "2025-01-31" (after_calls tenants "tenant" "2025-01-31" 5 no_counts) ≤ 2
after_calls_bound_example =
    after_calls_bound tenants "tenant" "2025-01-31" 5 no_counts limits 2 refl refl
      nothing_counted_yet

abbrev upload : DocumentRecord
upload = record {
  ddb_key = "c.pdf";
  job_id = "job-3";
  tenant_id = "tenant";
  process_status = not_started;
  category = none;
  batch_id = some "batch-1";
  ai_consent_flag = none;
  is_compare = true;
}

not_uploaded : lookup "c.pdf" world.documents ≡ none
unfolding lookup
not_uploaded = refl

abbrev uploaded_world : World
uploaded_world = record (insert_minimal_ddb_record env upload world).1 { now = 500010 }

upload_stays_example :
    UploadedAt upload 500000 (upsert_initial_ddb_record env arrival uploaded_world).1
upload_stays_example = upload_stays env upload arrival world uploaded_world refl not_uploaded refl

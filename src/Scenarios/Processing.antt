-- ===== src/Scenarios/Processing.antt =====
-- The processor on documents that arrive, that come again, and that Textract reads.
use strata_documentai_api_en.Prelude.{
  ℕ, zero, suc, ◌≡◌, refl, true, false, none, some, [], ◌∷◌, lookup, arith,
}
use strata_documentai_api_en.Status.{
  is_awaiting_processing, ddb_non_terminal_condition, ProcessStatus, not_started, started, success,
  same_status,
}
use strata_documentai_api_en.Document.{Document}
use strata_documentai_api_en.Classify.{is_open}
use strata_documentai_api_en.Finality.{StatusAt}
use strata_documentai_api_en.Lifecycle.{
  Settings, Preclassification, get_blur_outcome, run_preclassification,
}
use strata_documentai_api_en.Lifecycle.Initial.{PreExtractionResult}
use strata_documentai_api_en.Store.{document_or_empty}
use strata_documentai_api_en.Store.Actions.{retry_error, returned, raised, ◌>>=◌}
use strata_documentai_api_en.Textract.{Analysis, TextractRun}
use strata_documentai_api_en.Processor.{
  Run, Event, Invocation, retryable, invoked, invoke_bda, invoke_textract,
}
use strata_documentai_api_en.Processor.Dispatch.{process_document, unless_handled}
use strata_documentai_api_en.Processor.Skips.{process_document_lem}
use strata_documentai_api_en.Processor.Invocations.{
  invoke_bda-exhausted, invoke_bda-invoked, started_world,
}
use strata_documentai_api_en.Processor.Fallback.{IsUnstorable, restarted}
use strata_documentai_api_en.Scenarios.Data.{env, world, started_document, done_document}

abbrev analysis : Analysis
analysis = record {
  document_class = some "US-drivers-licenses";
  fields = ("name", record { confidence = 9000; value = some "A" }) ∷ [];
  supplemental = [];
}

abbrev textract_run : TextractRun
textract_run = record {
  is_enabled = true;
  analysis = some analysis;
  output_uri = some "s3://out/a.json";
}

abbrev settings : Settings
settings = record {
  grayscale_convertible = true;
  multipage_flagging = true;
  tenant_id = some "tenant";
  disabled_blueprint_list = none;
}

abbrev found : Preclassification
found = record {
  document_type = some "US-drivers-licenses";
  category_match = some true;
  max_document_count_on_page = 1;
  has_multipage_inconsistency = false;
  is_identity_document = true;
}

abbrev second_time : ℕ → Invocation
second_time zero = retryable
second_time (suc n) = invoked "arn" 2 3

abbrev run : Run
run = record {
  skip_bda_if_unclassified = false;
  project_arns = ("income", "project") ∷ [];
  default_project = some "default";
  max_attempts = 3;
  is_ocr_mapping_enabled = false;
  ocr_blocks_uri = none;
  date_of = λ n. "2025-01-31";
  is_password_protected = false;
  is_processing_selected = true;
  blur_outcome =
      get_blur_outcome true true
        (record { is_blurry = false; is_not_document = false; analysis_failed = false });
  preclassification_outcome = run_preclassification settings (some 1) (some found) none;
  content_type = "application/pdf";
  has_bytes = true;
  detected = "application/pdf";
  textract_run = textract_run;
  optimization = record { too_large = false; failed = false };
  invocation = second_time;
  retry_message = "RetryError";
  unsupported_message = "unsupported";
}

abbrev event : Event
event = record {
  ddb_key = "b.pdf";
  user_provided_document_category = none;
  job_id = none;
  batch_id = some "batch-1";
}

done_found : lookup "b.pdf" world.documents ≡ some done_document
unfolding lookup
done_found = refl

process_document_lem_example : process_document env run event world ≡ (returned tt, world)
unfolding same_status is_awaiting_processing
process_document_lem_example =
    process_document_lem env run event done_document success world done_found refl refl refl

started_found : lookup "a.pdf" world.documents ≡ some started_document
unfolding lookup
started_found = refl

abbrev stale : Document
stale = record started_document { process_status = some not_started }

a_open : is_open (document_or_empty (lookup "a.pdf" world.documents)) ≡ true
unfolding lookup ddb_non_terminal_condition
a_open = refl

a_unmapped : (document_or_empty (lookup "a.pdf" world.documents)).api_responses_by_method ≡ none
unfolding lookup
a_unmapped = refl

abbrev busy : Run
busy = record run { invocation = λ n. retryable }

invoke_bda-exhausted_example :
    ((invoke_bda env busy "a.pdf" none (some "batch-1") world).0 ≡ raised retry_error)
    × StatusAt "a.pdf" ProcessStatus.failed
        (invoke_bda env busy "a.pdf" none (some "batch-1") world).1
invoke_bda-exhausted_example =
    invoke_bda-exhausted env busy "a.pdf" "default" none (some "batch-1") false world refl
      (refl, (refl, (refl, tt))) a_open

invoke_bda-invoked_example :
    (invoke_bda env run "a.pdf" none none world
      ≡ (returned tt, started_world env run "a.pdf" "default" "arn" false 2 3 1 world))
    × StatusAt "a.pdf" started (invoke_bda env run "a.pdf" none none world).1
invoke_bda-invoked_example =
    invoke_bda-invoked env run "a.pdf" "default" none none false world refl 1 "arn" 2 3
      (omega arith) (refl, tt) refl

abbrev identity : PreExtractionResult
identity = record { has_bbox_future = false; is_identity_document = true }

card_IsUnstorable : IsUnstorable run (some identity) "a.pdf" world
card_IsUnstorable = record {
  document_class = "US-drivers-licenses";
  uri = "s3://out/a.json";
  is_found = record {
    analysis = analysis;
    field = ("name", record { confidence = 9000; value = some "A" });
    fields = [];
    is_enabled = refl;
    is_supported = refl;
    is_analysed = refl;
    has_class = refl;
    has_fields = refl;
    has_output = refl;
  };
  is_tried = refl;
  was_open = a_open;
  has_no_map = a_unmapped;
}

restarted_example :
    let m = invoke_textract env run (some identity) "a.pdf" "tenant" none in
    StatusAt "a.pdf" success (m world).1
    × StatusAt "a.pdf" started ((m >>= unless_handled env run "a.pdf" stale true none) world).1
restarted_example =
    restarted env run (some identity) "a.pdf" "tenant" none stale world "default" "arn" false 1 2 3
      true card_IsUnstorable refl refl (λ v. refl) (omega arith) (refl, tt) refl

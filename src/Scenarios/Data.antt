-- ===== src/Scenarios/Data.antt =====
-- The state that the scenarios start from: two documents in processing in a batch of two.
use strata_documentai_api_en.Prelude.{String, true, false, none, some, List, [], ◌∷◌}
use strata_documentai_api_en.Status.{ProcessStatus, started, success, processing}
use strata_documentai_api_en.Document.{
  Document, empty_document, UpdateDdbRecord, update_record, Field,
}
use strata_documentai_api_en.Rules.{RulesTable, ExtractionRule}
use strata_documentai_api_en.Store.State.{World, Env, Batch, empty_batch}

abbrev pub no_rules : RulesTable
no_rules tenant_id document_type = none

abbrev pub wage_rule : ExtractionRule
wage_rule = record { required_fields = "Wages" ∷ "Name" ∷ []; optional_fields = "Year" ∷ [] }

abbrev pub env : Env
env = record {
  rules = no_rules;
  missing_geo = false;
  has_metrics_queue = true;
  output_fields = λ d. [];
  method_fields = λ d uri method. [];
  last_modified = λ uri. none;
  confidence_floor = λ tenant_id. none;
}

abbrev pub started_document : Document
started_document = record empty_document {
  process_status = some started;
  job_id = some "job-1";
  batch_id = some "batch-1";
  created_at = some 100;
  extraction_started_at = some 150;
}

abbrev pub done_document : Document
done_document = record started_document { process_status = some success }

abbrev pub batch : Batch
batch = record empty_batch { batch_status = some processing; total_files = some 2 }

abbrev pub world : World
world = record {
  documents = ("a.pdf", started_document) ∷ ("b.pdf", done_document) ∷ [];
  batches = ("batch-1", batch) ∷ [];
  metrics_queue = [];
  ocr_mapping_queue = [];
  request_counts = [];
  builds = [];
  objects = [];
  now = 500000;
}

abbrev pub update : String → ProcessStatus → UpdateDdbRecord
update key status = update_record key status

abbrev pub fields : List (String × Field)
fields =
    ("wages", record { confidence = 9000; value = some "12" })
    ∷ ("color", record { confidence = 100; value = none })
    ∷ []

-- ===== src/Store/State.antt =====
-- The tables, the queues and the clock.
use strata_documentai_api_en.Prelude.{ℕ, String, Bool, Option, List, none}
use strata_documentai_api_en.Status.{BatchStatus, ExtractMethod}
use strata_documentai_api_en.Document.{Document, Field, OcrMappingMessage, BuildItem}
use strata_documentai_api_en.Rules.{RulesTable}

-- An item of the document-batches table, under its key `batchId` (schemas/document_batches.py).
pub record Batch : Type 0 where
  pub batch_status : Option BatchStatus
  pub total_files : Option ℕ
  pub resolved_count : Option ℕ
  pub category : Option String
  pub created_at : Option ℕ
  pub updated_at : Option ℕ
  pub error_message : Option String
  pub time_to_live : Option ℕ
  pub tenant_id : Option String
  pub api_key_name : Option String

abbrev pub empty_batch : Batch
empty_batch = record {
  batch_status = none;
  total_files = none;
  resolved_count = none;
  category = none;
  created_at = none;
  updated_at = none;
  error_message = none;
  time_to_live = none;
  tenant_id = none;
  api_key_name = none;
}

-- `objects` holds the content of the preprocessing bucket by key, as far as builds write it.
-- `metrics_queue` holds the keys of the records that were sent, in order; `ocr_mapping_queue`
-- the requests for a mapping by a model; `request_counts` a tenant's writes by date; `now` is the clock.
pub record World : Type 0 where
  pub documents : List (String × Document)
  pub batches : List (String × Batch)
  pub metrics_queue : List String
  pub ocr_mapping_queue : List OcrMappingMessage
  pub request_counts : List (String × List (String × ℕ))
  pub builds : List (String × List (ℕ × BuildItem))
  pub objects : List (String × String)
  pub now : ℕ

-- What the operations read and never write: the extraction rules, the feature flag on missing
-- geometry, whether the metrics queue is configured, the fields that `read_output` finds in S3 for a
-- record, and for a record, an output and an extraction method, when the object at a URI was last
-- modified (`none` where that call fails), and a tenant's confidence floor.
pub record Env : Type 0 where
  pub rules : RulesTable
  pub missing_geo : Bool
  pub has_metrics_queue : Bool
  pub output_fields : Document → List (String × Field)
  pub method_fields : Document → Option String → ExtractMethod → List (String × Field)
  pub last_modified : String → Option ℕ
  pub confidence_floor : String → Option ℕ

-- ===== src/Lifecycle/Upload.antt =====
-- `DocumentRecord` of documentai-api/src/documentai_api/models/document_record.py and
-- `insert_minimal_ddb_record` of pipeline/document_lifecycle.py: the record that an upload writes. The
-- attributes that no modelled operation reads are left out.
pub mod Staying
use strata_documentai_api_en.Prelude.{
  is_true, or_else, ℕ, String, ◌≡◌, refl, sym, ap, ◌∙◌, subst, Bool, true, false, not, Option, none,
  some, List, [], lookup, lookup-insert_self, insert, if_both, has_text, ◌&&◌,
}
use strata_documentai_api_en.Status.{ProcessStatus}
use strata_documentai_api_en.Document.{
  V1Response, Document, empty_document, update_record, UpdateDdbRecord,
}
use strata_documentai_api_en.Quota.{decrement}
use strata_documentai_api_en.Classify.{counted}
use strata_documentai_api_en.Classify.Landing.{finalized, with_v1}
use strata_documentai_api_en.Finality.Stays.{counted-documents, when_documents}
use strata_documentai_api_en.Lifecycle.Initial.{
  map_if, Arrival, Decided, decide, goes_on, count_decision, take_back, InitialDdbRecord,
  apply_initial, upsert_ddb, upsert_initial_ddb_record, finish_initial, continues, ends,
  PreExtractionResult,
}
use strata_documentai_api_en.Lifecycle.Arrivals.{recorded, record_world, record_of, upserted}
use strata_documentai_api_en.Store.{document_or_empty}
use strata_documentai_api_en.Store.State.{World, Env}
use strata_documentai_api_en.Store.Keeps.{bind_returned}
use strata_documentai_api_en.Store.Actions.{Action, Outcome, returned, pure, proceed, ◌>>◌, when}

pub record DocumentRecord : Type 0 where
  pub ddb_key : String
  pub job_id : String
  pub tenant_id : String
  pub process_status : ProcessStatus
  pub category : Option String
  pub batch_id : Option String
  pub ai_consent_flag : Option Bool
  pub is_compare : Bool

-- Consent that was not given or refused counts as given.
abbrev pub consent : Option Bool → Bool
consent none = true
consent (some b) = b

abbrev pub minimal_record : DocumentRecord → InitialDdbRecord
minimal_record u = record {
  object_key = u.ddb_key;
  process_status = u.process_status;
  user_provided_document_category = u.category;
  internal_api_response = none;
  job_id = some u.job_id;
  batch_id = u.batch_id;
  tenant_id = some u.tenant_id;
  ai_consent_flag = consent u.ai_consent_flag;
  is_compare = some u.is_compare;
  is_password_protected = false;
  is_document_blurry = false;
  pre_classification = none;
}

unfoldable pub insert_minimal_ddb_record : Env → DocumentRecord → Action (Unit {0})
unfolding upsert_ddb
insert_minimal_ddb_record env u = upsert_ddb env (minimal_record u)

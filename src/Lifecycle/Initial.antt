-- ===== src/Lifecycle/Initial.antt =====
-- `upsert_ddb` of documentai-api/src/documentai_api/utils/ddb.py, and `upsert_initial_ddb_record` of
-- pipeline/document_lifecycle.py.
use strata_documentai_api_en.Prelude.{
  ℕ, String, Bool, true, false, not, ◌&&◌, ◌||◌, Option, none, some, List, [], has_text, or_else,
  is_true, if◌then◌else◌,
}
use strata_documentai_api_en.Status.{
  ProcessStatus, password_protected, processing_excluded, is_pending_extraction, is_classified,
}
use strata_documentai_api_en.Codes.{ResponseCode}
use strata_documentai_api_en.Document.{Document, InternalApiResponse}
use strata_documentai_api_en.Response.{truthy}
use strata_documentai_api_en.Classify.{counted}
use strata_documentai_api_en.Classify.Responses.{get_internal_api_response, finalize_v1_response}
use strata_documentai_api_en.Ddb.{send_record_to_metrics_queue}
use strata_documentai_api_en.Quota.{decrement}
use strata_documentai_api_en.Lifecycle.{
  BlurOutcome, PreclassificationOutcome, PreClassificationDdbFields,
}
use strata_documentai_api_en.Store.{update_document, always}
use strata_documentai_api_en.Store.State.{Env}
use strata_documentai_api_en.Store.Actions.{Action, pure, returned, ◌>>=◌, ◌>>◌, when}

-- A field that was not set is `none`.
pub record InitialDdbRecord : Type 0 where
  pub object_key : String
  pub process_status : ProcessStatus
  pub user_provided_document_category : Option String
  pub internal_api_response : Option InternalApiResponse
  pub job_id : Option String
  pub batch_id : Option String
  pub tenant_id : Option String
  pub ai_consent_flag : Bool
  pub is_compare : Option Bool
  pub is_password_protected : Bool
  pub is_document_blurry : Bool
  pub pre_classification : Option PreClassificationDdbFields

abbrev apply_pre_classification : Option PreClassificationDdbFields → Document → Document
apply_pre_classification none d = d
apply_pre_classification (some c) d = record d {
  preclassification_category = or_else c.document_type d.preclassification_category;
  preclassification_category_match = or_else c.category_match d.preclassification_category_match;
  preclassification_blueprint_matched_type =
      or_else c.blueprint_matched_document_type d.preclassification_blueprint_matched_type;
  preclassification_blueprint_match_category =
      or_else c.blueprint_match_category d.preclassification_blueprint_match_category;
}

abbrev pub map_if {ℓ} : {A : Type ℓ} → Bool → Option (List A) → Option (List A)
map_if true m = or_else m (some [])
map_if false m = m

unfoldable pub apply_initial : ℕ → InitialDdbRecord → Document → Document
apply_initial now r d = record (apply_pre_classification r.pre_classification d) {
  process_status = some r.process_status;
  created_at = or_else d.created_at (some now);
  updated_at = some now;
  is_password_protected = some r.is_password_protected;
  is_document_blurry = some r.is_document_blurry;
  ai_consent_flag = or_else d.ai_consent_flag (some r.ai_consent_flag);
  user_provided_document_category =
      or_else (truthy r.user_provided_document_category) d.user_provided_document_category;
  api_responses_by_method = map_if (is_true r.is_compare) d.api_responses_by_method;
  durations_by_method = map_if (is_true r.is_compare) d.durations_by_method;
  job_id = or_else r.job_id d.job_id;
  batch_id = or_else r.batch_id d.batch_id;
  tenant_id = or_else r.tenant_id d.tenant_id;
  is_compare = or_else r.is_compare d.is_compare;
  response_json = or_else r.internal_api_response d.response_json;
}

-- A record of a classified status is sent to the metrics queue. The counts of a model's tokens, which
-- are written before, are left out.
unfoldable pub upsert_ddb : Env → InitialDdbRecord → Action (Unit {0})
unfolding update_document apply_initial send_record_to_metrics_queue is_classified
upsert_ddb env r w =
    (update_document r.object_key (apply_initial w.now r) always
        >> when (is_classified r.process_status) (send_record_to_metrics_queue env r.object_key))
      w

-- What is known of a document when the processor takes it up: its password, whether the sampling
-- selects it, and what the two analyses tell.
pub record Arrival : Type 0 where
  pub ddb_key : String
  pub tenant_id : Option String
  pub upload_date : Option String
  pub user_provided_document_category : Option String
  pub job_id : Option String
  pub batch_id : Option String
  pub is_password_protected : Bool
  pub is_processing_selected : Bool
  pub blur_outcome : BlurOutcome
  pub preclassification_outcome : PreclassificationOutcome

pub record Decided : Type 0 where
  pub process_status : ProcessStatus
  pub response_code : ResponseCode
  pub is_document_blurry : Bool
  pub pre_classification : Option PreClassificationDdbFields
  pub is_identity_document : Bool

abbrev pub without_analysis : ProcessStatus → ResponseCode → Decided
without_analysis status code = record {
  process_status = status;
  response_code = code;
  is_document_blurry = false;
  pre_classification = none;
  is_identity_document = false;
}

abbrev pub after_analysis :
    Bool → Option (ProcessStatus × ResponseCode) → PreclassificationOutcome → Decided
after_analysis blurry (some (status, code)) p = record (without_analysis status code) {
  is_document_blurry = blurry;
}
after_analysis blurry none p = record {
  process_status = p.process_status;
  response_code = p.response_code;
  is_document_blurry = blurry;
  pre_classification = p.pre_classification;
  is_identity_document = p.is_identity_document;
}

abbrev pub analysed : Arrival → Decided
analysed a =
    after_analysis a.blur_outcome.blur_result.is_blurry a.blur_outcome.decided
      a.preclassification_outcome

abbrev pub unless_excluded : Arrival → Decided
unless_excluded a =
    if not a.is_processing_selected
    then without_analysis processing_excluded ResponseCode.processing_excluded
    else analysed a

-- The status that the document is given.
unfoldable pub decide : Arrival → Decided
decide a =
    if a.is_password_protected
    then without_analysis password_protected ResponseCode.password_protected
    else unless_excluded a

abbrev pub take_back : Option String → Option String → Action (Unit {0})
take_back (some tenant_id) (some upload_date) w =
    if has_text (some tenant_id) && has_text (some upload_date)
    then (
      returned tt,
      record w { request_counts = decrement tenant_id upload_date w.request_counts },
    )
    else (returned tt, w)
take_back _ _ w = (returned tt, w)

-- The counts that a decision changes.
unfoldable pub count_decision : Arrival → Action (Unit {0})
unfolding decrement
count_decision a =
    if a.is_password_protected
    then counted a.batch_id
    else when (not a.is_processing_selected)
        (take_back a.tenant_id a.upload_date >> counted a.batch_id)

pub record PreExtractionResult : Type 0 where
  pub has_bbox_future : Bool
  pub is_identity_document : Bool

abbrev pub goes_on : Decided → Bool
goes_on d = is_pending_extraction d.process_status || d.is_identity_document

abbrev pub response_of : Arrival → Decided → Action (Option InternalApiResponse)
response_of a d =
    if goes_on d
    then pure none
    else (get_internal_api_response a.ddb_key d.response_code none a.user_provided_document_category
        >>= λ r. pure (some r))

abbrev pub initial_record : Arrival → Decided → Option InternalApiResponse → InitialDdbRecord
initial_record a d r = record {
  object_key = a.ddb_key;
  process_status = d.process_status;
  user_provided_document_category = a.user_provided_document_category;
  internal_api_response = r;
  job_id = a.job_id;
  batch_id = a.batch_id;
  tenant_id = none;
  ai_consent_flag = true;
  is_compare = none;
  is_password_protected = a.is_password_protected;
  is_document_blurry = d.is_document_blurry;
  pre_classification = d.pre_classification;
}

abbrev pub continues : Decided → Action (Option PreExtractionResult)
continues d = pure (
    some (record {
      has_bbox_future = is_pending_extraction d.process_status;
      is_identity_document = d.is_identity_document;
    }))

abbrev pub ends : Env → Arrival → Decided → Action (Option PreExtractionResult)
ends env a d = finalize_v1_response env a.ddb_key d.process_status none none >> pure none

abbrev pub finish_initial : Env → Arrival → Decided → Action (Option PreExtractionResult)
finish_initial env a d = if goes_on d then continues d else ends env a d

unfoldable pub upsert_initial_ddb_record : Env → Arrival → Action (Option PreExtractionResult)
unfolding decide count_decision upsert_ddb get_internal_api_response finalize_v1_response
    is_pending_extraction
upsert_initial_ddb_record env a =
    count_decision a
    >> (response_of a (decide a) >>= λ r. upsert_ddb env (initial_record a (decide a) r))
    >> finish_initial env a (decide a)

-- ===== src/Ddb.antt =====
-- documentai-api/src/documentai_api/utils/ddb.py: the writes to the document-metadata table. An
-- update expression is the function on items that it denotes. A write of the source reads the record
-- before (for the timing), so it is read, then written.
use Prim.Native.Char.{Char, code}
use strata_documentai_api_en.Prelude.{
  ℕ, String, Bool, true, false, not, Option, none, some, List, [], ◌∷◌, ◌==◌, or_else, is_true,
  if◌then◌else◌, lookup, ◌++◌,
}
use strata_documentai_api_en.Status.{ExtractMethod, deleted, is_classified}
use strata_documentai_api_en.Document.{
  ClassificationData, InternalApiResponse, UpdateDdbRecord, Document,
}
use strata_documentai_api_en.Confidence.{calculate_field_metrics}
use strata_documentai_api_en.Response.{truthy}
use strata_documentai_api_en.Timing.{build_timing_updates, apply_timing}
use strata_documentai_api_en.Store.{update_document, always}
use strata_documentai_api_en.Store.State.{Env}
use strata_documentai_api_en.Store.Actions.{Action, returned, ◌>>◌, when}

attach : Char → List String → List String
attach c [] = String.◌∷◌ c "" ∷ []
attach c (s ∷ ss) = String.◌∷◌ c s ∷ ss

-- `str.split` at one character: a list with at least one member
unfoldable pub split : ℕ → String → List String
unfolding attach
split separator String.[] = "" ∷ []
split separator (String.◌∷◌ c s) =
    let rest = split separator s in if code c == separator then "" ∷ rest else attach c rest

-- `extract_region_from_bda_arn`: the fourth part, where there are so many
unfoldable pub extract_region_from_bda_arn : String → Option String
unfolding split
extract_region_from_bda_arn arn = elim (split 58 arn) [
  | (a ∷ b ∷ c ∷ region ∷ _) ↦ some region
  | _ ↦ none
]

abbrev pub last_of : List String → String
last_of [] = ""
last_of (s ∷ []) = s
last_of (s ∷ t ∷ ts) = last_of (t ∷ ts)

abbrev region_or_default : Option String → String
region_or_default r = elim (truthy r) [ none ↦ "N/A" | some region ↦ region ]

-- The attributes that `_build_update_expression` takes from the classification data.
unfoldable pub apply_data : Bool → Option ClassificationData → Document → Document
unfolding calculate_field_metrics
apply_data missing_geo none d = d
apply_data missing_geo (some c) d =
    let metrics = calculate_field_metrics missing_geo c in
    record d {
      output_s3_uri = or_else c.bda_output_s3_uri d.output_s3_uri;
      matched_blueprint_name = or_else c.matched_blueprint_name d.matched_blueprint_name;
      matched_blueprint_confidence =
          or_else c.matched_blueprint_confidence d.matched_blueprint_confidence;
      field_confidence_scores = or_else c.field_confidence_scores d.field_confidence_scores;
      additional_info = or_else c.additional_info d.additional_info;
      matched_document_class = or_else c.matched_document_class d.matched_document_class;
      field_empty_list = or_else c.field_empty_list d.field_empty_list;
      field_missing_geometry_list =
          or_else c.field_missing_geometry_list d.field_missing_geometry_list;
      field_below_threshold_list =
          or_else c.field_below_threshold_list d.field_below_threshold_list;
      field_count = some metrics.field_count;
      field_count_not_empty = some metrics.field_count_not_empty;
      field_not_empty_avg_confidence =
          or_else metrics.field_not_empty_avg_confidence d.field_not_empty_avg_confidence;
    }

unfoldable pub apply_internal_response : Option InternalApiResponse → Document → Document
apply_internal_response none d = d
apply_internal_response (some r) d = record d {
  response_json = some r;
  response_code = some r.response_code;
}

abbrev pub with_arn : Option String → UpdateDdbRecord → Document → Document
with_arn none update d = d
with_arn (some arn) update d = record d {
  bda_invocation_arn = some arn;
  bda_invocation_id = some (last_of (split 47 arn));
  bda_region_used = some (region_or_default (extract_region_from_bda_arn arn));
  extract_method = some update.extraction_method;
}

-- The attributes that an invocation of the extraction service sets.
unfoldable pub apply_invocation : UpdateDdbRecord → Document → Document
unfolding split extract_region_from_bda_arn
apply_invocation update d = record (with_arn (truthy update.bda_invocation_arn) update d) {
  bda_project_arn_used = or_else (truthy update.bda_project_arn_used) d.bda_project_arn_used;
  used_category_specific_project =
      if update.used_category_specific_project then some true else d.used_category_specific_project;
}

-- `_build_update_expression` and the clauses that `update_ddb` adds, without the timing
unfoldable pub apply_update : Bool → ℕ → UpdateDdbRecord → Document → Document
unfolding apply_data apply_internal_response apply_invocation
apply_update missing_geo now update d =
    let d' = apply_invocation update (
      apply_internal_response update.internal_api_response
        (apply_data missing_geo update.classification d)) in
    record d' {
      process_status = some update.status;
      updated_at = some now;
      error_message = or_else (truthy update.error_message) d.error_message;
      below_extraction_confidence_floor =
          if update.below_extraction_confidence_floor
          then some true
          else d.below_extraction_confidence_floor;
      extraction_rules_configured =
          or_else update.extraction_rules_configured d.extraction_rules_configured;
      missing_required_field_list =
          or_else update.missing_required_field_list d.missing_required_field_list;
      required_field_list = or_else update.required_field_list d.required_field_list;
      extraction_confidence_threshold =
          or_else update.applied_extraction_confidence_floor d.extraction_confidence_threshold;
      used_default_extraction_confidence_threshold =
          or_else update.used_default_confidence_floor
            d.used_default_extraction_confidence_threshold;
      pages_sent_to_bda = or_else update.pages_sent_to_bda d.pages_sent_to_bda;
      bda_invoke_duration_seconds =
          or_else update.bda_invoke_duration_seconds d.bda_invoke_duration_seconds;
      bda_invoke_retry_count = or_else update.bda_invoke_retry_count d.bda_invoke_retry_count;
      result_processor_started_at =
          or_else update.result_processor_started_at d.result_processor_started_at;
    }

abbrev pub uri_of : Option ClassificationData → Option String
uri_of none = none
uri_of (some c) = c.bda_output_s3_uri

abbrev pub is_sent : Option Document → Bool
is_sent none = false
is_sent (some d) = not (is_true d.is_compare)

-- `_send_record_to_metrics_queue`
unfoldable pub send_record_to_metrics_queue : Env → String → Action (Unit {0})
send_record_to_metrics_queue env key w =
    if env.has_metrics_queue
    then if is_sent (lookup key w.documents)
      then (returned tt, record w { metrics_queue = w.metrics_queue ++ (key ∷ []) })
      else (returned tt, w)
    else (returned tt, w)

-- The whole effect of the write on an item: `read` is the record as the timing read it.
unfoldable pub written : Env → ℕ → Option Document → UpdateDdbRecord → Document → Document
unfolding apply_update apply_timing build_timing_updates
written env now read update d =
    apply_timing
      (build_timing_updates env.last_modified now read update.status (uri_of update.classification))
      (apply_update env.missing_geo now update d)

unfoldable pub update_ddb : Env → UpdateDdbRecord → (Document → Bool) → Action (Unit {0})
unfolding update_document send_record_to_metrics_queue is_classified written
update_ddb env update condition w =
    (update_document update.object_key
          (written env w.now (lookup update.object_key w.documents) update) condition
        >> when (is_classified update.status) (send_record_to_metrics_queue env update.object_key))
      w

abbrev category_of : Option Document → Option String
category_of none = none
category_of (some d) = d.user_provided_document_category

unfoldable pub get_user_provided_document_category : String → Action (Option String)
get_user_provided_document_category key w = (returned (category_of (lookup key w.documents)), w)

unfoldable pub mark_document_deleted : String → String → Action (Unit {0})
unfolding update_document
mark_document_deleted key deletion_type w =
    update_document key
      (λ d. record d {
        process_status = some deleted;
        deletion_type = some deletion_type;
        updated_at = some w.now;
      })
      always w

unfoldable pub set_extract_method : String → ExtractMethod → ℕ → Action (Unit {0})
unfolding update_document
set_extract_method key method started_at =
    update_document key
      (λ d. record d { extraction_started_at = some started_at; extract_method = some method })
      always

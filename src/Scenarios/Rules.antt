-- ===== src/Scenarios/Rules.antt =====
-- The theorems on statuses, extraction rules and responses at concrete values.
use strata_documentai_api_en.Prelude.{◌≡◌, ◌↔◌, ◌⊎◌, not, ◌&&◌, true, false, none, [], ◌∷◌, text_in}
use strata_documentai_api_en.Status.{
  timed_out, blueprint_disabled, excluded_per_preclassification, not_implemented, is_classified,
  is_in,
}
use strata_documentai_api_en.Document.{V1JobStatus}
use strata_documentai_api_en.Response.{build_v1_api_response}
use strata_documentai_api_en.Response.Outcome.{processing_iff}
use strata_documentai_api_en.Rules.{sorted, apply_rule, lower_in, keys}
use strata_documentai_api_en.Rules.Sorted.{IsAscending, sorted-IsAscending}
use strata_documentai_api_en.Rules.Missing.{apply_rule_missing}
use strata_documentai_api_en.Scenarios.Data.{no_rules, wage_rule, done_document, fields}

processing_iff_example :
    ((build_v1_api_response no_rules false [] done_document timed_out none none).job_status
      ≡ V1JobStatus.processing)
    ↔ ((is_classified timed_out ≡ false)
        ⊎ (is_in timed_out (
              blueprint_disabled ∷ excluded_per_preclassification ∷ not_implemented ∷ timed_out
              ∷ [])
            ≡ true))
processing_iff_example = processing_iff no_rules false [] done_document none none timed_out

sorted-IsAscending_example : IsAscending (sorted ("b" ∷ "a" ∷ "b" ∷ []))
sorted-IsAscending_example = sorted-IsAscending ("b" ∷ "a" ∷ "b" ∷ [])

apply_rule_missing_example :
    text_in "Name" (apply_rule wage_rule fields []).missing_required_field_list ≡ (
      text_in "Name" wage_rule.required_fields
      && not (lower_in "Name" (keys (apply_rule wage_rule fields []).fields)))
apply_rule_missing_example = apply_rule_missing wage_rule fields [] "Name"

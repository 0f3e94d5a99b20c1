-- ===== src/Lifecycle/Claims.antt =====
-- The claims on a document of documentai-api/src/documentai_api/pipeline/document_lifecycle.py: a job
-- that is to process it moves its status to started, if it is still the one expected.
use strata_documentai_api_en.Prelude.{
  ℕ, String, ◌≡◌, ◌≢◌, sym, ap, ◌∙◌, Bool, true, false, Option, some, lookup, insert,
  lookup-insert_self, Bool-cases, inl, inr,
}
use strata_documentai_api_en.Status.{ProcessStatus, started, not_started, same_status}
use strata_documentai_api_en.Status.Partition.{same_status_refl, same_status-eq}
use strata_documentai_api_en.Document.{Document, update_record}
use strata_documentai_api_en.Ddb.{update_ddb}
use strata_documentai_api_en.Reaper.{is_applied, status_is}
use strata_documentai_api_en.Finality.{update_accepted, update_refused}
use strata_documentai_api_en.Store.{update_document, document_or_empty, always}
use strata_documentai_api_en.Store.State.{World, Env}
use strata_documentai_api_en.Store.Actions.{Action, returned, attempt}

abbrev pub claimed : Document → Document
claimed d = record d { process_status = some started }

abbrev pub is_expected : ProcessStatus → Document → Bool
is_expected expected_status d = status_is expected_status d.process_status

unfoldable pub set_processing_status_started : String → ProcessStatus → Action Bool
unfolding update_document same_status
set_processing_status_started object_key expected_status =
    attempt (update_document object_key claimed (is_expected expected_status)) is_applied

unfoldable pub set_bda_processing_status_started :
    Env
    → String
    → String
    → Option String
    → Bool
    → Option ℕ
    → Option ℕ
    → Option ℕ
    → Action (Unit {0})
unfolding update_ddb
set_bda_processing_status_started env object_key arn project category pages seconds retries =
    update_ddb env
      (record (update_record object_key started) {
        bda_invocation_arn = some arn;
        bda_project_arn_used = project;
        used_category_specific_project = category;
        pages_sent_to_bda = pages;
        bda_invoke_duration_seconds = seconds;
        bda_invoke_retry_count = retries;
      })
      always

unfoldable pub set_bda_processing_status_not_started : Env → String → Action (Unit {0})
unfolding update_ddb
set_bda_processing_status_not_started env object_key =
    update_ddb env (update_record object_key not_started) always

module _ (object_key : String) (w : World) where
  claim_accepted :
      (expected : ProcessStatus)
      → is_expected expected (document_or_empty (lookup object_key w.documents)) ≡ true
      → set_processing_status_started object_key expected w ≡ (
        returned true,
        record w {
          documents =
              insert object_key
                (claimed (document_or_empty (lookup object_key w.documents)))
                w.documents;
        },
      )
  unfolding set_processing_status_started
  claim_accepted expected h = rw (update_accepted object_key claimed (is_expected expected) w h)

  pub claim_refused :
      (expected : ProcessStatus)
      → is_expected expected (document_or_empty (lookup object_key w.documents)) ≡ false
      → set_processing_status_started object_key expected w ≡ (returned false, w)
  unfolding set_processing_status_started
  claim_refused expected h = rw (update_refused object_key claimed (is_expected expected) w h)

not_same : (a b : ProcessStatus) → b ≢ a → same_status a b ≡ false
not_same a b h = elim (Bool-cases (same_status a b)) [
  | inl e ↦ elim (h (sym (same_status-eq a b e))) [ ]
  | inr n ↦ n
]

abbrev pub claim_result : String → ProcessStatus → World → World
claim_result object_key expected w = (set_processing_status_started object_key expected w).1

-- Of two claims on a document, one after the other, one wins: the first, if the document has the
-- status that it expects, and then the second changes nothing, whatever status it expects, as long as
-- that is not started.
pub claims_exclusive :
    (object_key : String) (expected other : ProcessStatus) (w : World) (d : Document)
    → lookup object_key w.documents ≡ some d
    → d.process_status ≡ some expected
    → other ≢ started
    → let w' = claim_result object_key expected w in
      ((set_processing_status_started object_key expected w).0 ≡ returned true)
      × (lookup object_key w'.documents ≡ some (claimed d))
      × (set_processing_status_started object_key other w' ≡ (returned false, w'))
claims_exclusive object_key expected other w d e s h =
    let at : document_or_empty (lookup object_key w.documents) ≡ d = ap document_or_empty e in
    let ok : is_expected expected (document_or_empty (lookup object_key w.documents)) ≡ true =
      ap (is_expected expected) at ∙ ap (status_is expected) s ∙ same_status_refl expected in
    let first = claim_accepted object_key w expected ok in
    let found : lookup object_key (claim_result object_key expected w).documents
        ≡ some (claimed d) =
      ap (λ r. lookup object_key r.1.documents) first
      ∙ lookup-insert_self object_key _ w.documents
      ∙ ap (λ d. some (claimed d)) at in
    (
      ap (λ r. r.0) first,
      found,
      claim_refused object_key (claim_result object_key expected w) other
          (ap (λ o. is_expected other (document_or_empty o)) found ∙ not_same started other h),
    )

-- ===== src/Status/Partition.antt =====
-- How the classifications of a document's status fit together.
use text.Mathlib.TextEquality.{eq_iff}
use strata_documentai_api_en.Prelude.{
  String, ◌≡◌, refl, true, false, not, Option, none, some, List, [], ◌∷◌, ◌||◌, arith, str_eq,
  if◌then◌else◌,
}
use strata_documentai_api_en.Status.{
  ProcessStatus, ai_consent_declined, blurry_document_detected, conversion_failed, deleted,
  excluded_per_preclassification, failed, multiple_documents_in_multipage,
  multiple_documents_on_single_page, no_custom_blueprint_matched, no_document_detected,
  not_implemented, not_started, password_protected, pending_image_optimization, pending_upload,
  blueprint_disabled, processing_excluded, started, success, timed_out, value, same_status,
  is_completed, is_classified, is_not_supported, is_pending_extraction, is_awaiting_processing,
  is_successful, ddb_non_terminal_condition, BatchStatus, same_batch_status, uploading, processing,
  completed, partial,
}

-- The condition under which a terminal status is written lets a document through exactly when its
-- stored status is none of those that count as classified.
pub ddb_non_terminal_condition-is_classified :
    (s : ProcessStatus) → ddb_non_terminal_condition (some s) ≡ not (is_classified s)
unfolding ddb_non_terminal_condition is_classified
ddb_non_terminal_condition-is_classified ai_consent_declined = refl
ddb_non_terminal_condition-is_classified _ = refl

-- Every status that counts as completed, as not supported or as successful counts as classified,
-- and one that awaits processing or extraction does not.
pub classified_covers :
    (s : ProcessStatus)
    → (is_completed s || is_not_supported s || is_successful s ≡ true → is_classified s ≡ true)
      × (is_pending_extraction s || is_awaiting_processing s ≡ true → is_classified s ≡ false)
unfolding is_completed is_not_supported is_successful is_classified is_pending_extraction
    is_awaiting_processing
classified_covers ai_consent_declined = ground arith
classified_covers _ = ground arith

pub same_status_refl : (s : ProcessStatus) → same_status s s ≡ true
unfolding same_status
same_status_refl ai_consent_declined = refl
same_status_refl _ = refl

-- `ProcessStatus(text)`: the member with a text.
from_text : List ProcessStatus → String → Option ProcessStatus
from_text [] t = none
from_text (s ∷ ss) t = if str_eq (value s) t then some s else from_text ss t

abbrev members : List ProcessStatus
members =
    ai_consent_declined ∷ blurry_document_detected ∷ conversion_failed ∷ deleted
    ∷ excluded_per_preclassification ∷ failed ∷ multiple_documents_in_multipage
    ∷ multiple_documents_on_single_page ∷ no_custom_blueprint_matched ∷ no_document_detected
    ∷ not_implemented ∷ not_started ∷ password_protected ∷ pending_image_optimization
    ∷ pending_upload ∷ blueprint_disabled ∷ processing_excluded ∷ started ∷ success ∷ timed_out ∷ []

from_text-value : (s : ProcessStatus) → from_text members (value s) ≡ some s
unfolding from_text value
from_text-value ai_consent_declined = refl
from_text-value _ = refl

pub same_status-eq : (a b : ProcessStatus) → same_status a b ≡ true → a ≡ b
same_status-eq a b h =
    let e : value a ≡ value b = (eq_iff (value a) (value b)).0 (unfold same_status in h) in
    cc (from_text-value a, from_text-value b, e)

pub same_batch_status-eq : (a b : BatchStatus) → same_batch_status a b ≡ true → a ≡ b
unfolding same_batch_status
same_batch_status-eq uploading uploading h = refl
same_batch_status-eq processing processing h = refl
same_batch_status-eq completed completed h = refl
same_batch_status-eq partial partial h = refl
same_batch_status-eq BatchStatus.failed BatchStatus.failed h = refl
same_batch_status-eq _ _ h = cc

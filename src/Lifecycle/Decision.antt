-- ===== src/Lifecycle/Decision.antt =====
-- What the decision before extraction leads to.
use strata_documentai_api_en.Prelude.{
  ℕ, ◌≡◌, refl, sym, subst, Bool, true, false, not, ◌&&◌, ◌||◌, Option, none, some, ltb, if_both,
}
use strata_documentai_api_en.Status.{
  ProcessStatus, is_classified, is_pending_extraction, password_protected, processing_excluded,
  multiple_documents_on_single_page, multiple_documents_in_multipage, blueprint_disabled,
  no_document_detected, blurry_document_detected,
}
use strata_documentai_api_en.Codes.{ResponseCode}
use strata_documentai_api_en.Lifecycle.{
  pending_outcome, unless_disabled, unless_multipage, unless_blurry, BlurResult, get_blur_outcome,
  Preclassification, BlueprintMatch, PreclassificationOutcome, Settings, run_preclassification,
  pending_status, is_disabled, has_many_pages, terminal_outcome,
}
use strata_documentai_api_en.Lifecycle.Initial.{
  analysed, unless_excluded, Arrival, Decided, decide, goes_on, after_analysis, without_analysis,
}

-- Extraction goes on for a status exactly when it is not a classified one.
IsSplit : Decided → Type 0
IsSplit d = goes_on d ≡ not (is_classified d.process_status)

terminal-IsSplit :
    (s : ProcessStatus) (code : ResponseCode) (blurry : Bool) (c : Preclassification)
    (b : Option BlueprintMatch)
    → (is_pending_extraction s || false) ≡ not (is_classified s)
    → IsSplit (after_analysis blurry none (terminal_outcome s code c b))
unfolding IsSplit
terminal-IsSplit s code blurry c b h = h

pending-IsSplit :
    (grayscale identity : Bool)
    → (is_pending_extraction (pending_status grayscale) || identity)
      ≡ not (is_classified (pending_status grayscale))
unfolding is_pending_extraction is_classified
pending-IsSplit true identity = refl
pending-IsSplit false identity = refl

run-IsSplit :
    (settings : Settings) (pages : Option ℕ) (c : Option Preclassification)
    (b : Option BlueprintMatch) (blurry : Bool)
    → IsSplit (after_analysis blurry none (run_preclassification settings pages c b))
unfolding run_preclassification IsSplit is_pending_extraction is_classified
run-IsSplit settings pages none b blurry = pending-IsSplit settings.grayscale_convertible false
run-IsSplit settings pages (some c) b blurry =
    let P : PreclassificationOutcome → Type 0 = λ p. IsSplit (after_analysis blurry none p) in
    if_both P (ltb 1 c.max_document_count_on_page)
      (terminal_outcome multiple_documents_on_single_page
        ResponseCode.multiple_documents_on_single_page c none)
      (unless_multipage settings pages c b) refl
      (if_both P
        (has_many_pages pages && c.has_multipage_inconsistency && settings.multipage_flagging)
        (terminal_outcome multiple_documents_in_multipage
          ResponseCode.multiple_documents_in_multipage c none)
        (unless_disabled settings c b) refl
        (if_both P (is_disabled settings.disabled_blueprint_list settings.tenant_id b)
          (terminal_outcome blueprint_disabled ResponseCode.blueprint_disabled c b)
          (pending_outcome settings c b) refl
          (pending-IsSplit settings.grayscale_convertible c.is_identity_document)))

blur-IsSplit :
    (enabled enforced : Bool) (detected : BlurResult) (settings : Settings) (pages : Option ℕ)
    (c : Option Preclassification) (b : Option BlueprintMatch)
    → IsSplit (
        after_analysis
          (get_blur_outcome enabled enforced detected).blur_result.is_blurry
          (get_blur_outcome enabled enforced detected).decided
          (run_preclassification settings pages c b))
unfolding get_blur_outcome IsSplit is_pending_extraction is_classified
blur-IsSplit false enforced detected settings pages c b = run-IsSplit settings pages c b false
blur-IsSplit true enforced detected settings pages c b =
    let P : Option (ProcessStatus × ResponseCode) → Type 0 = λ o.
      IsSplit (after_analysis detected.is_blurry o (run_preclassification settings pages c b)) in
    if_both P (detected.is_not_document && enforced)
      (some (no_document_detected, ResponseCode.no_document_detected))
      (unless_blurry enforced detected) refl
      (if_both P (detected.is_blurry && enforced)
        (some (blurry_document_detected, ResponseCode.blurry_document_detected)) none refl
        (run-IsSplit settings pages c b detected.is_blurry))

-- With the outcomes that the two analyses make, a document goes on to extraction exactly when the
-- status that it is given is not a classified one.
pub decide_split :
    (a : Arrival) (enabled enforced : Bool) (detected : BlurResult) (settings : Settings)
    (pages : Option ℕ) (c : Option Preclassification) (b : Option BlueprintMatch)
    → a.blur_outcome ≡ get_blur_outcome enabled enforced detected
    → a.preclassification_outcome ≡ run_preclassification settings pages c b
    → goes_on (decide a) ≡ not (is_classified (decide a).process_status)
unfolding decide IsSplit is_pending_extraction is_classified
decide_split a enabled enforced detected settings pages c b e f =
    if_both IsSplit a.is_password_protected
      (without_analysis password_protected ResponseCode.password_protected) (unless_excluded a) refl
      (if_both IsSplit (not a.is_processing_selected)
        (without_analysis processing_excluded ResponseCode.processing_excluded) (analysed a) refl
        (subst
          (λ o.
            IsSplit (after_analysis o.blur_result.is_blurry o.decided a.preclassification_outcome))
          (sym e)
          (subst
            (λ p. IsSplit (
              after_analysis (get_blur_outcome enabled enforced detected).blur_result.is_blurry
                (get_blur_outcome enabled enforced detected).decided p))
            (sym f) (blur-IsSplit enabled enforced detected settings pages c b))))

-- ===== src/Classify/Ended.antt =====
-- The classifications of documentai-api/src/documentai_api/classifiers/document_classification.py that
-- name no method, on a document that is open.
use strata_documentai_api_en.Prelude.{
  ℕ, String, ◌≡◌, refl, ap, ◌∙◌, sym, subst, true, Option, none, some, lookup, lookup-insert_self,
}
use strata_documentai_api_en.Status.{ProcessStatus, is_classified}
use strata_documentai_api_en.Codes.{ResponseCode}
use strata_documentai_api_en.Document.{
  Document, UpdateDdbRecord, ClassificationData, InternalApiResponse, update_record,
}
use strata_documentai_api_en.Timing.{
  TimingUpdates, no_updates, starts, completes, apply_timing, build_timing_updates,
}
use strata_documentai_api_en.Ddb.{apply_update, written, uri_of}
use strata_documentai_api_en.Classify.{
  ExtractionResult, write_terminal_status, is_open, counted, classify_with, classify_as_failed,
  method_response,
}
use strata_documentai_api_en.Classify.Landing.{landed, landed_document, write-open}
use strata_documentai_api_en.Finality.{StatusAt}
use strata_documentai_api_en.Finality.Stays.{counted_returned, counted-documents}
use strata_documentai_api_en.Lifecycle.Arrivals.{internal_IsPure}
use strata_documentai_api_en.Store.Keeps.{bind_returned}
use strata_documentai_api_en.Store.{document_or_empty}
use strata_documentai_api_en.Store.State.{World, Env}
use strata_documentai_api_en.Store.Actions.{Outcome, Action, returned, pure, proceed, ◌>>◌}

timing-process_status :
    (t : TimingUpdates) (d : Document) → (apply_timing t d).process_status ≡ d.process_status
unfolding apply_timing
timing-process_status no_updates d = refl
timing-process_status (starts now wait) d = refl
timing-process_status (completes t times) d = refl

pub written-process_status :
    (env : Env) (now : ℕ) (read : Option Document) (u : UpdateDdbRecord) (d : Document)
    → (written env now read u d).process_status ≡ some u.status
unfolding written apply_update
written-process_status env now read u d =
    timing-process_status
      (build_timing_updates env.last_modified now read u.status (uri_of u.classification))
      (apply_update env.missing_geo now u d)

-- The action returned, and left the status `s` under the key.
pub record HasLanded {A : Type 0} (key : String) (s : ProcessStatus) (r : Outcome A × World)
    : Type 0 where
  pub result : A
  pub is_returned : r.0 ≡ returned result
  pub at : StatusAt key s r.1

pub write_HasLanded :
    (env : Env) (r : UpdateDdbRecord) (batch_id : Option String) (result : Option ExtractionResult)
    (w : World)
    → is_open (document_or_empty (lookup r.object_key w.documents)) ≡ true
    → is_classified r.status ≡ true
    → HasLanded r.object_key r.status (write_terminal_status env r batch_id result none w)
write_HasLanded env r batch_id result w o c =
    let e =
      write-open env r w batch_id result none o c refl
      ∙ bind_returned (counted batch_id) (λ _. method_response env r result none) (landed env r w)
          tt (counted_returned batch_id (landed env r w)) in
    subst (HasLanded r.object_key r.status) (sym e) (record {
      result = tt;
      is_returned = refl;
      at = record {
        item = landed_document env r w;
        found =
            ap (lookup r.object_key) (counted-documents batch_id (landed env r w))
            ∙ lookup-insert_self r.object_key _ w.documents;
        has_status =
            written-process_status env w.now (lookup r.object_key w.documents) r
              (document_or_empty (lookup r.object_key w.documents));
      };
    })

pub then_pure :
    {A B : Type 0} (m : Action A) (b : B) (key : String) (s : ProcessStatus) (w : World)
    → HasLanded key s (m w)
    → HasLanded key s ((m >> pure b) w)
then_pure m b key s w h =
    subst (HasLanded key s) (sym (bind_returned m (λ _. pure b) w h.result h.is_returned))
      (record { result = b; is_returned = refl; at = h.at })

abbrev failed_record :
    String → String → ClassificationData → Option ℕ → InternalApiResponse → UpdateDdbRecord
failed_record key message c started_at r = record (update_record key ProcessStatus.failed) {
  internal_api_response = some r;
  error_message = some message;
  classification = some c;
  result_processor_started_at = started_at;
}

-- For an open document the classification as failed returns, and the document then has this status.
pub failed_HasLanded :
    (env : Env) (key message : String) (c : ClassificationData) (started_at : Option ℕ)
    (batch_id : Option String) (w : World)
    → is_open (document_or_empty (lookup key w.documents)) ≡ true
    → HasLanded key ProcessStatus.failed
        (classify_as_failed env key message c started_at batch_id w)
unfolding classify_as_failed classify_with is_classified
failed_HasLanded env key message c started_at batch_id w o =
    let make = failed_record key message c started_at in
    let (r, e) = internal_IsPure key ResponseCode.internal_processing_error none none w in
    subst (HasLanded key ProcessStatus.failed)
      (sym (
        ap
          (λ (x : Outcome InternalApiResponse × World).
            proceed x.0 (λ r. write_terminal_status env (make r) batch_id none none >> pure r) x.1)
          e))
      (then_pure (write_terminal_status env (make r) batch_id none none) r key ProcessStatus.failed
        w (write_HasLanded env (make r) batch_id none w o refl))

-- A classification under a classified status, of an open document, returns and leaves that status.
pub classified_HasLanded :
    (env : Env) (key : String) (s : ProcessStatus) (code : ResponseCode)
    (m : InternalApiResponse → UpdateDdbRecord) (batch_id : Option String) (w : World)
    → is_open (document_or_empty (lookup key w.documents)) ≡ true
    → is_classified s ≡ true
    → HasLanded key s (
        classify_with env key code none
          (λ r. record (m r) { object_key = key; status = s })
          batch_id
          none
          none
          w)
unfolding classify_with
classified_HasLanded env key s code m batch_id w o c =
    let make : InternalApiResponse → UpdateDdbRecord =
      λ r. record (m r) { object_key = key; status = s } in
    let (r, e) = internal_IsPure key code none none w in
    subst (HasLanded key s)
      (sym (
        ap
          (λ (x : Outcome InternalApiResponse × World).
            proceed x.0 (λ r. write_terminal_status env (make r) batch_id none none >> pure r) x.1)
          e))
      (then_pure (write_terminal_status env (make r) batch_id none none) r key s w
        (write_HasLanded env (make r) batch_id none w o c))

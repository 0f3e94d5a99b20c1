-- ===== src/Processor/Skips.antt =====
-- Events that come again or too late: documentai-api/src/documentai_api/jobs/document_processor/main.py
-- on a document that another job has taken.
use strata_documentai_api_en.Prelude.{
  is_some, ◌&&◌, none, text_in, ◌≡◌, ap, ◌∙◌, Bool, true, false, ◌||◌, Option, some, String, lookup,
  not, is_false,
}
use strata_documentai_api_en.Status.{
  ProcessStatus, is_awaiting_processing, pending_image_optimization, same_status,
}
use strata_documentai_api_en.Document.{Document}
use strata_documentai_api_en.Response.{truthy}
use strata_documentai_api_en.FileValidation.{no_conversion_needed, validate_s3_object_is_bda_native}
use strata_documentai_api_en.Reaper.{status_is}
use strata_documentai_api_en.Store.{get_document, document_or_empty}
use strata_documentai_api_en.Store.State.{World, Env}
use strata_documentai_api_en.Store.Actions.{returned}
use strata_documentai_api_en.Lifecycle.Initial.{PreExtractionResult}
use strata_documentai_api_en.Lifecycle.Claims.{claim_refused}
use strata_documentai_api_en.Processor.{Run, Event}
use strata_documentai_api_en.Processor.Dispatch.{
  needs_preclassification, preclassify_and_dispatch, dispatch, process_document,
}

-- whether a document of this status is one to start from
abbrev pub is_to_start : ProcessStatus → Bool
is_to_start s = same_status s pending_image_optimization || is_awaiting_processing s

or_false_right : (a b : Bool) → a || b ≡ false → b ≡ false
or_false_right true b h = cc
or_false_right false b h = h

module _ (env : Env) (run : Run) where
  dispatch_idle :
      (key : String) (d : Document) (s : ProcessStatus) (result : Option PreExtractionResult)
      (tenant_id batch_id : Option String) (w : World)
      → d.process_status ≡ some s
      → is_to_start s ≡ false
      → is_false d.ai_consent_flag ≡ false
      → dispatch env run key d result tenant_id batch_id w ≡ (returned tt, w)
  unfolding dispatch
  dispatch_idle key d s result tenant_id batch_id w e n c = rw (c, e, n)

  found_idle :
      (event : Event) (d : Document) (s : ProcessStatus) (w : World)
      → d.process_status ≡ some s
      → is_to_start s ≡ false
      → is_false d.ai_consent_flag ≡ false
      → preclassify_and_dispatch env run event (some d) w ≡ (returned tt, w)
  found_idle event d s w e n c =
      let p =
        or_false_right (same_status s pending_image_optimization) (is_awaiting_processing s) n in
      let skipped : needs_preclassification env run (some d) ≡ false =
        ap
          (λ o.
            elim o [ none ↦ false | some s ↦ is_awaiting_processing s ]
            && not (is_some d.preclassification_category))
          e
        ∙ ap (λ b. b && not (is_some d.preclassification_category)) p in
      rw skipped (dispatch_idle event.ddb_key d s none d.tenant_id event.batch_id w e n c)

  -- For an event whose document has a status other than the three to start from, and has not declined
  -- consent, the processor returns and changes nothing, whatever the services would find: a second
  -- delivery of an event whose document was taken or has ended is harmless.
  pub process_document_lem :
      (event : Event) (d : Document) (s : ProcessStatus) (w : World)
      → lookup event.ddb_key w.documents ≡ some d
      → d.process_status ≡ some s
      → is_to_start s ≡ false
      → is_false d.ai_consent_flag ≡ false
      → process_document env run event w ≡ (returned tt, w)
  unfolding process_document get_document
  process_document_lem event d s w h e n c = rw h (found_idle event d s w e n c)

  -- A job that read the document when it was still to be started, and that comes to its claim when
  -- the document has another status, returns and changes nothing.
  pub dispatch_lem :
      (key tenant : String) (d current : Document) (s : ProcessStatus)
      (result : Option PreExtractionResult) (tenant_id batch_id : Option String) (w : World)
      → d.process_status ≡ some s
      → is_to_start s ≡ true
      → is_false d.ai_consent_flag ≡ false
      → text_in run.detected no_conversion_needed ≡ true
      → truthy tenant_id ≡ some tenant
      → lookup key w.documents ≡ some current
      → status_is s current.process_status ≡ false
      → dispatch env run key d result tenant_id batch_id w ≡ (returned tt, w)
  unfolding dispatch validate_s3_object_is_bda_native
  dispatch_lem key tenant d current s result tenant_id batch_id w e y c v t h n =
      let refused =
        claim_refused key w s (ap (λ o. status_is s (document_or_empty o).process_status) h ∙ n) in
      rw (c, e, y) (rw v (rw t (rw refused)))

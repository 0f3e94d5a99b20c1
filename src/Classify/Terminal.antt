-- ===== src/Classify/Terminal.antt =====
-- A terminal status is written once: over a classified document the write changes nothing.
use strata_documentai_api_en.Prelude.{ap, ◌∙◌, String, ◌≡◌, true, false, not, Option, some, lookup}
use strata_documentai_api_en.Status.{
  ProcessStatus, is_classified, ddb_non_terminal_condition, ExtractMethod,
}
use strata_documentai_api_en.Status.Partition.{ddb_non_terminal_condition-is_classified}
use strata_documentai_api_en.Document.{UpdateDdbRecord, ExtractionResult, Document}
use strata_documentai_api_en.Classify.{write_terminal_status, is_open, is_authoritative}
use strata_documentai_api_en.Store.{document_or_empty}
use strata_documentai_api_en.Store.State.{World, Env}
use strata_documentai_api_en.Store.Actions.{returned}

pub not_open :
    (d : Document) (s : ProcessStatus)
    → d.process_status ≡ some s
    → is_classified s ≡ true
    → is_open d ≡ false
not_open d s e c =
    ap ddb_non_terminal_condition e ∙ ddb_non_terminal_condition-is_classified s ∙ ap not c

module _ (env : Env) (r : UpdateDdbRecord) (batch_id : Option String)
    (result : Option ExtractionResult) (method : Option ExtractMethod) (w : World) where
  closed :
      is_open (document_or_empty (lookup r.object_key w.documents)) ≡ false
      → is_authoritative method ≡ true
      → write_terminal_status env r batch_id result method w ≡ (returned tt, w)
  unfolding write_terminal_status
  closed o a = rw (a, o)

  -- For a document whose stored status is classified, the write of a terminal status returns and
  -- changes nothing: neither the document, nor the batch's count, nor the queue. The extraction method
  -- is any but the mapping by a model.
  pub write-classified :
      (d : Document) (s : ProcessStatus)
      → lookup r.object_key w.documents ≡ some d
      → d.process_status ≡ some s
      → is_classified s ≡ true
      → is_authoritative method ≡ true
      → write_terminal_status env r batch_id result method w ≡ (returned tt, w)
  write-classified d s h e c a =
      closed (ap (λ o. is_open (document_or_empty o)) h ∙ not_open d s e c) a

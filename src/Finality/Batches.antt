-- ===== src/Finality/Batches.antt =====
-- Which actions leave the batches as they are: the writes of a document's item.
use strata_documentai_api_en.Prelude.{
  String, sym, subst, Bool, Option, none, some, List, lookup, Bool-cases, inl, inr, if_both,
}
use strata_documentai_api_en.Status.{ProcessStatus, is_classified}
use strata_documentai_api_en.Document.{Document, ClassificationData, UpdateDdbRecord}
use strata_documentai_api_en.Ddb.{update_ddb, send_record_to_metrics_queue, written, is_sent}
use strata_documentai_api_en.Classify.Responses.{
  finalize_v1_response, stored_v1_response, v1_or_error, set_v1,
}
use strata_documentai_api_en.Finality.{update_accepted, update_refused}
use strata_documentai_api_en.Store.{document_or_empty, update_document, always}
use strata_documentai_api_en.Store.State.{World, Env, Batch}
use strata_documentai_api_en.Store.Actions.{when, Outcome}
use strata_documentai_api_en.Store.Keeps.{Keeps, Keeps-bind, Keeps-then, Keeps-when}

-- What is said of the batches alone.
abbrev pub OfBatches : (List (String × Batch) → Type 0) → World → Type 0
OfBatches Q w = Q w.batches

module _ (Q : List (String × Batch) → Type 0) where
  pub Keeps-update_document :
      (key : String) (f : Document → Document) (c : Document → Bool)
      → Keeps (OfBatches Q) (update_document key f c)
  Keeps-update_document key f c w p =
      elim (Bool-cases (c (document_or_empty (lookup key w.documents)))) [
        | inl y ↦ subst (λ r. OfBatches Q r.1) (sym (update_accepted key f c w y)) p
        | inr n ↦ subst (λ r. OfBatches Q r.1) (sym (update_refused key f c w n)) p
      ]

  Keeps-v1_or_error :
      (env : Env) (s : ProcessStatus) (c : Option ClassificationData) (e : Option String)
      (o : Option Document)
      → Keeps (OfBatches Q) (v1_or_error env s c e o)
  Keeps-v1_or_error env s c e none = λ w p. p
  Keeps-v1_or_error env s c e (some d) = λ w p. p

  pub Keeps-finalize_v1_response :
      (env : Env) (key : String) (s : ProcessStatus) (c : Option ClassificationData)
      (e : Option String)
      → Keeps (OfBatches Q) (finalize_v1_response env key s c e)
  unfolding finalize_v1_response stored_v1_response
  Keeps-finalize_v1_response env key s c e =
      Keeps-bind (stored_v1_response env key s c e) (λ v1. update_document key (set_v1 v1) always)
        (λ w. Keeps-v1_or_error env s c e (lookup key w.documents) w)
        (λ v1. Keeps-update_document key (set_v1 v1) always)

  Keeps-send :
      (env : Env) (key : String) → Keeps (OfBatches Q) (send_record_to_metrics_queue env key)
  unfolding send_record_to_metrics_queue
  Keeps-send env key w p =
      if_both (λ (r : Outcome (Unit {0}) × World). OfBatches Q r.1) env.has_metrics_queue _ _
        (if_both (λ (r : Outcome (Unit {0}) × World). OfBatches Q r.1)
          (is_sent (lookup key w.documents)) _ _ p p)
        p

  pub Keeps-update_ddb :
      (env : Env) (u : UpdateDdbRecord) (c : Document → Bool)
      → Keeps (OfBatches Q) (update_ddb env u c)
  unfolding update_ddb
  Keeps-update_ddb env u c w =
      Keeps-then
        (update_document u.object_key (written env w.now (lookup u.object_key w.documents) u) c)
        (when (is_classified u.status) (send_record_to_metrics_queue env u.object_key))
        (Keeps-update_document u.object_key (written env w.now (lookup u.object_key w.documents) u)
          c)
        (Keeps-when (is_classified u.status) (send_record_to_metrics_queue env u.object_key)
          (Keeps-send env u.object_key))
        w

-- ===== src/Lifecycle/Counted.antt =====
-- The counts that the decision of `upsert_initial_ddb_record` changes: they are in no document, and nothing is sent.
use strata_documentai_api_en.Prelude.{
  Bool, ◌&&◌, Bool, true, false, String, ◌≡◌, refl, sym, ap, ◌∙◌, not, Option, none, some, List,
  lookup, if_both, has_text, Bool-cases, Option-cases, inl, inr,
}
use strata_documentai_api_en.Status.{processing}
use strata_documentai_api_en.Document.{Document}
use strata_documentai_api_en.Batch.{increment_resolved_count, has_status}
use strata_documentai_api_en.Batch.Counting.{increment_other, increment_lem}
use strata_documentai_api_en.Quota.{decrement}
use strata_documentai_api_en.Classify.{counted}
use strata_documentai_api_en.Finality.Stays.{when_returned, counted_returned, has_status_empty}
use strata_documentai_api_en.Lifecycle.Initial.{Arrival, count_decision, take_back}
use strata_documentai_api_en.Store.{batch_or_empty}
use strata_documentai_api_en.Store.State.{World}
use strata_documentai_api_en.Store.Keeps.{bind_returned}
use strata_documentai_api_en.Store.Actions.{Action, Outcome, returned, ◌>>◌, when}

pub take_back_returned : (t d : Option String) (w : World) → (take_back t d w).0 ≡ returned tt
take_back_returned none d w = refl
take_back_returned (some t) none w = refl
take_back_returned (some t) (some d) w =
    if_both (λ (r : Outcome (Unit {0}) × World). r.0 ≡ returned tt)
      (has_text (some t) && has_text (some d))
      (returned tt, record w { request_counts = decrement t d w.request_counts }) (returned tt, w)
      refl refl

then_returned :
    (m n : Action (Unit {0})) (w : World)
    → (m w).0 ≡ returned tt
    → ((v : World) → (n v).0 ≡ returned tt)
    → ((m >> n) w).0 ≡ returned tt
then_returned m n w h k = ap (λ r. r.0) (bind_returned m (λ _. n) w tt h) ∙ k (m w).1

pub count_decision_returned : (a : Arrival) (w : World) → (count_decision a w).0 ≡ returned tt
unfolding count_decision
count_decision_returned a w =
    if_both (λ (m : Action (Unit {0})). (m w).0 ≡ returned tt) a.is_password_protected
      (counted a.batch_id)
      (when (not a.is_processing_selected)
        (take_back a.tenant_id a.upload_date >> counted a.batch_id))
      (counted_returned a.batch_id w)
      (when_returned (not a.is_processing_selected)
        (take_back a.tenant_id a.upload_date >> counted a.batch_id) w
        (then_returned (take_back a.tenant_id a.upload_date) (counted a.batch_id) w
          (take_back_returned a.tenant_id a.upload_date w) (counted_returned a.batch_id)))

-- The state in which the first record is written: the counts are done.
abbrev pub counted_world : Arrival → World → World
counted_world a w = (count_decision a w).1

-- the documents, and what was sent to the metrics queue
abbrev pub shared : World → List (String × Document) × List String
shared w = (w.documents, w.metrics_queue)

increment_keeps :
    (batch_id : String) (w : World) → shared (increment_resolved_count batch_id w).1 ≡ shared w
increment_keeps batch_id w =
    elim (Bool-cases (has_status processing (batch_or_empty (lookup batch_id w.batches)))) [
      | inr n ↦ ap (λ r. shared r.1) (increment_other batch_id w n)
      | inl y ↦ elim (Option-cases (lookup batch_id w.batches)) [
        | inl e ↦ cc (y, ap (λ o. has_status processing (batch_or_empty o)) e, has_status_empty)
        | inr (b, e) ↦
            ap (λ r. shared r.1)
              (increment_lem batch_id w b e
                (sym (ap (λ o. has_status processing (batch_or_empty o)) e) ∙ y))
      ]
    ]

shared-when :
    (b : Bool) (m : Action (Unit {0})) (w : World)
    → shared (m w).1 ≡ shared w
    → shared (when b m w).1 ≡ shared w
shared-when true m w h = h
shared-when false m w h = refl

shared-counted : (batch_id : Option String) (w : World) → shared (counted batch_id w).1 ≡ shared w
shared-counted none w = refl
shared-counted (some batch_id) w =
    shared-when _ (increment_resolved_count batch_id) w (increment_keeps batch_id w)

shared-take_back : (x y : Option String) (w : World) → shared (take_back x y w).1 ≡ shared w
shared-take_back none y w = refl
shared-take_back (some x) none w = refl
shared-take_back (some x) (some y) w =
    if_both (λ (r : Outcome (Unit {0}) × World). shared r.1 ≡ shared w)
      (has_text (some x) && has_text (some y))
      (returned tt, record w { request_counts = decrement x y w.request_counts }) (returned tt, w)
      refl refl

uncounted_keeps :
    (a : Arrival) (w : World)
    → shared ((take_back a.tenant_id a.upload_date >> counted a.batch_id) w).1 ≡ shared w
uncounted_keeps a w =
    let v = (take_back a.tenant_id a.upload_date w).1 in
    ap (λ r. shared r.1)
      (bind_returned (take_back a.tenant_id a.upload_date) (λ _. counted a.batch_id) w tt
        (take_back_returned a.tenant_id a.upload_date w))
    ∙ shared-counted a.batch_id v
    ∙ shared-take_back a.tenant_id a.upload_date w

pub shared-counted_world : (a : Arrival) (w : World) → shared (counted_world a w) ≡ shared w
unfolding count_decision
shared-counted_world a w =
    if_both (λ (m : Action (Unit {0})). shared (m w).1 ≡ shared w) a.is_password_protected
      (counted a.batch_id)
      (when (not a.is_processing_selected)
        (take_back a.tenant_id a.upload_date >> counted a.batch_id))
      (shared-counted a.batch_id w)
      (shared-when (not a.is_processing_selected)
        (take_back a.tenant_id a.upload_date >> counted a.batch_id) w (uncounted_keeps a w))

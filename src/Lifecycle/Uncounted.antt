-- ===== src/Lifecycle/Uncounted.antt =====
-- The batch of a document under the first decision of `upsert_initial_ddb_record`.
use strata_documentai_api_en.Prelude.{◌≡◌, sym, ap, subst, true, false, none, if_both}
use strata_documentai_api_en.Classify.Responses.{finalize_v1_response}
use strata_documentai_api_en.Finality.Batches.{OfBatches, Keeps-finalize_v1_response}
use strata_documentai_api_en.Lifecycle.Initial.{
  Arrival, decide, goes_on, count_decision, upsert_initial_ddb_record, finish_initial, continues,
  ends,
}
use strata_documentai_api_en.Lifecycle.Counted.{counted_world}
use strata_documentai_api_en.Lifecycle.Arrivals.{record_world, recorded}
use strata_documentai_api_en.Store.State.{World, Env}
use strata_documentai_api_en.Store.Actions.{Outcome, pure, proceed}
use strata_documentai_api_en.Store.Keeps.{Keeps, Keeps-then}

module _ (start : World) where
  -- The batches are those of the world `start`.
  abbrev SameBatches : World → Type 0
  SameBatches = OfBatches (λ bs. bs ≡ start.batches)

  finish-SameBatches :
      (env : Env) (a : Arrival) → Keeps SameBatches (finish_initial env a (decide a))
  finish-SameBatches env a =
      if_both (Keeps SameBatches) (goes_on (decide a)) (continues (decide a))
        (ends env a (decide a)) (λ w p. p)
        (Keeps-then (finalize_v1_response env a.ddb_key (decide a).process_status none none)
          (pure (none))
          (Keeps-finalize_v1_response (λ bs. bs ≡ start.batches) env a.ddb_key
            (decide a).process_status none none)
          (λ w p. p))

nothing_counted :
    (a : Arrival) (w : World)
    → a.is_password_protected ≡ false
    → a.is_processing_selected ≡ true
    → counted_world a w ≡ w
unfolding count_decision
nothing_counted a w p s = rw (p, s)

-- A document that is neither protected by a password nor left out by the sampling leaves every batch
-- as it is, whatever status it is given: its file is not counted, not even where the status is a
-- terminal one (blurry, no document, several documents, blueprint disabled).
pub analysed_uncounted :
    (env : Env) (a : Arrival) (w : World)
    → a.is_password_protected ≡ false
    → a.is_processing_selected ≡ true
    → (upsert_initial_ddb_record env a w).1.batches ≡ w.batches
unfolding upsert_initial_ddb_record
analysed_uncounted env a w p s =
    subst
      (λ (r : Outcome (Unit {0}) × World).
        (proceed r.0 (λ _. finish_initial env a (decide a)) r.1).1.batches ≡ w.batches)
      (sym (recorded env a w))
      (finish-SameBatches w env a (record_world env a (counted_world a w))
        (ap (λ v. v.batches) (nothing_counted a w p s)))

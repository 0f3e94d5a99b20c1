-- ===== src/Lifecycle/Arrivals.antt =====
-- What the first record of a document, written by `upsert_initial_ddb_record`, leaves behind.
use strata_documentai_api_en.Prelude.{
  Bool, List, is_true, if_cases, if_both, if◌then◌else◌, Bool-cases, inl, inr, ◌++◌, ◌∷◌, [], ◌&&◌,
  ℕ, String, ◌≡◌, refl, sym, ap, ◌∙◌, subst, false, not, Option, none, some, lookup, insert,
  lookup-insert_self, is_some, has_text,
}
use strata_documentai_api_en.Codes.{ResponseCode}
use strata_documentai_api_en.Document.{Document, InternalApiResponse, update_record}
use strata_documentai_api_en.Ddb.{get_user_provided_document_category}
use strata_documentai_api_en.Classify.Responses.{
  get_internal_api_response, finalize_v1_response, category_or_stored,
}
use strata_documentai_api_en.Classify.Landing.{finalized, sent}
use strata_documentai_api_en.Status.{is_classified}
use strata_documentai_api_en.Ddb.{is_sent}
use strata_documentai_api_en.Finality.{StatusAt}
use strata_documentai_api_en.Finality.Stays.{Keeps-finalize}
use strata_documentai_api_en.Lifecycle.Counted.{
  counted_world, shared-counted_world, count_decision_returned, shared,
}
use strata_documentai_api_en.Lifecycle.Initial.{
  continues, ends, Arrival, Decided, decide, goes_on, count_decision, response_of, initial_record,
  InitialDdbRecord, apply_initial, upsert_ddb, upsert_initial_ddb_record, finish_initial,
  PreExtractionResult,
}
use strata_documentai_api_en.Store.{update_document, document_or_empty}
use strata_documentai_api_en.Store.State.{World, Env}
use strata_documentai_api_en.Store.Actions.{Action, Outcome, returned, pure, proceed, ◌>>=◌, ◌>>◌}
use strata_documentai_api_en.Store.Keeps.{Keeps-then, bind_returned}

-- An action that returns a value and changes nothing.
abbrev pub IsPure : {A : Type 0} → Action A → World → Type 0
IsPure {A = A} m w = (x : A) × (m w ≡ (returned x, w))

category_IsPure :
    (key : String) (c : Option String) (w : World) → IsPure (category_or_stored key c) w
unfolding get_user_provided_document_category
category_IsPure key c w =
    if_both (λ (m : Action (Option String)). IsPure m w) (has_text c) (pure c)
      (get_user_provided_document_category key) (c, refl) (_, refl)

bind_IsPure :
    {A B : Type 0} (m : Action A) (f : A → Action B) (w : World)
    → IsPure m w
    → ((x : A) → IsPure (f x) w)
    → IsPure (m >>= f) w
bind_IsPure m f w (x, e) k = let (y, e') = k x in (y, ap (λ r. proceed r.0 f r.1) e ∙ e')

pub internal_IsPure :
    (key : String) (code : ResponseCode) (m c : Option String) (w : World)
    → IsPure (get_internal_api_response key code m c) w
unfolding get_internal_api_response
internal_IsPure key code m c w =
    bind_IsPure (category_or_stored key c) _ w (category_IsPure key c w) (λ x. (_, refl))

pub response_IsPure : (a : Arrival) (d : Decided) (w : World) → IsPure (response_of a d) w
response_IsPure a d w =
    if_both (λ (m : Action (Option InternalApiResponse)). IsPure m w) (goes_on d) (pure none)
      (get_internal_api_response a.ddb_key d.response_code none a.user_provided_document_category
        >>= λ r. pure (some r))
      (none, refl)
      (bind_IsPure
        (get_internal_api_response a.ddb_key d.response_code none a.user_provided_document_category)
        (λ r. pure (some r)) w
        (internal_IsPure a.ddb_key d.response_code none a.user_provided_document_category w)
        (λ x. (some x, refl)))

-- The state after the write of a first record, sent to the metrics queue if its status is classified.
abbrev pub upserted_world : Env → InitialDdbRecord → World → World
upserted_world env r w =
    let d = apply_initial w.now r (document_or_empty (lookup r.object_key w.documents)) in
    record w {
      documents = insert r.object_key d w.documents;
      metrics_queue =
          if is_classified r.process_status && (env.has_metrics_queue && is_sent (some d))
          then w.metrics_queue ++ (r.object_key ∷ [])
          else w.metrics_queue;
    }

pub upserted :
    (env : Env) (r : InitialDdbRecord) (w : World)
    → upsert_ddb env r w ≡ (returned tt, upserted_world env r w)
unfolding upsert_ddb update_document
upserted env r w =
    let d = apply_initial w.now r (document_or_empty (lookup r.object_key w.documents)) in
    elim (Bool-cases (is_classified r.process_status)) [
      | inl c ↦ rw c (
          sent env r.object_key (record w { documents = insert r.object_key d w.documents }) d
            (lookup-insert_self r.object_key d w.documents))
      | inr o ↦ rw o refl
    ]

pub apply_initial_status :
    (now : ℕ) (r : InitialDdbRecord) (d : Document)
    → (apply_initial now r d).process_status ≡ some r.process_status
unfolding apply_initial
apply_initial_status now r d = refl

-- What the end of the call does with a stored document of the decided status, `queue` being what was sent to the
-- metrics queue.
pub record IsFinished (key : String) (d : Decided) (queue : List String)
    (r : Outcome (Option PreExtractionResult) × World) : Type 0 where
  pub result : Option PreExtractionResult
  pub is_returned : r.0 ≡ returned result
  pub is_result : is_some result ≡ goes_on d
  pub is_stored : StatusAt key d.process_status r.1
  pub is_queued : r.1.metrics_queue ≡ queue

no_result : Option PreExtractionResult
no_result = none

ends-IsFinished :
    (env : Env) (a : Arrival) (d : Decided) (w : World)
    → StatusAt a.ddb_key d.process_status w
    → goes_on d ≡ false
    → IsFinished a.ddb_key d w.metrics_queue (ends env a d w)
unfolding no_result
ends-IsFinished env a d w p n =
    let f = finalized env (update_record a.ddb_key d.process_status) w p.item p.found in
    record {
      result = no_result;
      is_returned =
          ap (λ (r : Outcome (Unit {0}) × World). (proceed r.0 (λ x. pure no_result) r.1).0) f;
      is_result = sym n;
      is_stored =
          Keeps-then (finalize_v1_response env a.ddb_key d.process_status none none)
            (pure no_result)
            (Keeps-finalize a.ddb_key d.process_status env a.ddb_key d.process_status none none)
            (λ v q. q) w p;
      is_queued =
          ap
            (λ (r : Outcome (Unit {0}) × World).
              (proceed r.0 (λ x. pure no_result) r.1).1.metrics_queue)
            f;
    }

finish-IsFinished :
    (env : Env) (a : Arrival) (d : Decided) (w : World)
    → StatusAt a.ddb_key d.process_status w
    → IsFinished a.ddb_key d w.metrics_queue (finish_initial env a d w)
finish-IsFinished env a d w p =
    if_cases
      (λ (m : Action (Option PreExtractionResult)). IsFinished a.ddb_key d w.metrics_queue (m w))
      (goes_on d) (continues d) (ends env a d)
      (λ g. record {
        result = _;
        is_returned = refl;
        is_result = sym g;
        is_stored = p;
        is_queued = refl;
      })
      (ends-IsFinished env a d w p)

abbrev pub record_of : Arrival → World → InitialDdbRecord
record_of a v = initial_record a (decide a) (response_IsPure a (decide a) v).0

abbrev pub record_world : Env → Arrival → World → World
record_world env a v = upserted_world env (record_of a v) v

abbrev pub write_record : Env → Arrival → Option InternalApiResponse → Action (Unit {0})
write_record env a r = upsert_ddb env (initial_record a (decide a) r)

pub recorded :
    (env : Env) (a : Arrival) (w : World)
    → (count_decision a >> (response_of a (decide a) >>= write_record env a)) w
      ≡ (returned tt, record_world env a (counted_world a w))
recorded env a w =
    bind_returned (count_decision a) (λ _. response_of a (decide a) >>= write_record env a) w tt
      (count_decision_returned a w)
    ∙ ap
        (λ (r : Outcome (Option InternalApiResponse) × World). proceed r.0 (write_record env a) r.1)
        (response_IsPure a (decide a) (counted_world a w)).1
    ∙ upserted env (record_of a (counted_world a w)) (counted_world a w)

abbrev pub is_comparison : Option Document → Bool
is_comparison none = false
is_comparison (some d) = is_true d.is_compare

-- The queue after the call, from the documents and the queue before it: a decision for a classified status is sent, if a
-- queue is configured and the document is no comparison.
abbrev pub queue_of : Env → Arrival → List (String × Document) × List String → List String
queue_of env a (documents, queue) =
    if is_classified (decide a).process_status
      && (env.has_metrics_queue && not (is_comparison (lookup a.ddb_key documents)))
    then queue ++ (a.ddb_key ∷ [])
    else queue

same_comparison : (o : Option Document) → is_comparison o ≡ is_true (document_or_empty o).is_compare
same_comparison none = refl
same_comparison (some d) = refl

record_world-queue :
    (env : Env) (a : Arrival) (v : World)
    → (record_world env a v).metrics_queue ≡ queue_of env a (shared v)
unfolding apply_initial
record_world-queue env a v =
    ap
      (λ b.
        if is_classified (decide a).process_status && (env.has_metrics_queue && not b)
        then v.metrics_queue ++ (a.ddb_key ∷ [])
        else v.metrics_queue)
      (sym (same_comparison (lookup a.ddb_key v.documents)))

-- The call that writes a document's first record returns. It returns a result for the extraction
-- exactly when the decision lets the document go on, and the record then has the decided status. The
-- document is sent to the metrics queue exactly when this status is a classified one, a queue is
-- configured and the document is no comparison.
pub upsert_initial_lem :
    (env : Env) (a : Arrival) (w : World)
    → IsFinished a.ddb_key
        (decide a)
        (queue_of env a (w.documents, w.metrics_queue))
        (upsert_initial_ddb_record env a w)
unfolding upsert_initial_ddb_record
upsert_initial_lem env a w =
    let v = counted_world a w in
    subst (λ q. IsFinished a.ddb_key (decide a) q (upsert_initial_ddb_record env a w))
      (record_world-queue env a v ∙ ap (queue_of env a) (shared-counted_world a w))
      (subst
        (λ (r : Outcome (Unit {0}) × World).
          IsFinished a.ddb_key (decide a) (record_world env a v).metrics_queue
            (proceed r.0 (λ _. finish_initial env a (decide a)) r.1))
        (sym (recorded env a w))
        (finish-IsFinished env a (decide a) (record_world env a v) (record {
          item =
              apply_initial v.now (record_of a v)
                (document_or_empty (lookup a.ddb_key v.documents));
          found = lookup-insert_self a.ddb_key _ v.documents;
          has_status =
              apply_initial_status v.now (record_of a v)
                (document_or_empty (lookup a.ddb_key v.documents));
        })))

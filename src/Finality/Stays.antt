-- ===== src/Finality/Stays.antt =====
-- A classified status is final: the classifications and the reaper keep it.
use strata_documentai_api_en.Classify.Terminal.{not_open}
use strata_documentai_api_en.Reaper.{
  left_alone, resolved_as, resolved_as, apply_verdict, Verdict, verdict, marked,
  process_stale_record, after_mark, mark_terminal, is_applied, mark_and_increment,
}
use strata_documentai_api_en.Prelude.{
  ℤ, subst, true, Bool, if◌then◌else◌, ℕ, refl, ap, ◌∙◌, sym, String, ◌≡◌, inl, inr, false, Option,
  none, some, List, lookup, Bool-cases, Option-cases,
}
use strata_documentai_api_en.Status.{ProcessStatus, ExtractMethod, processing}
use strata_documentai_api_en.Document.{
  Document, UpdateDdbRecord, ExtractionResult, ClassificationData,
}
use strata_documentai_api_en.Batch.{increment_resolved_count, has_status}
use strata_documentai_api_en.Batch.Counting.{increment_other, increment_lem}
use strata_documentai_api_en.Ddb.{written, update_ddb, send_record_to_metrics_queue, is_sent}
use strata_documentai_api_en.Classify.{
  is_open, write_terminal_status, method_response, after_write, is_authoritative, counted,
}
use strata_documentai_api_en.Classify.Responses.{
  set_v1, set_responses, set_durations, finalize_v1_response, stored_v1_response, v1_or_error,
  write_extract_method_response, set_in_map, set_or_refuse, duration_entry, write_duration,
}
use strata_documentai_api_en.Finality.{
  update_document, IsHarmless, is_classified, found_at, StatusAt, Keeps-update, StatusAt-insert,
}
use strata_documentai_api_en.Store.{document_or_empty, batch_or_empty, always}
use strata_documentai_api_en.Store.State.{World, Env}
use strata_documentai_api_en.Store.Actions.{
  Action, attempt, when, pure, ◌>>◌, Outcome, returned, raised, conditional_check_failed,
}
use strata_documentai_api_en.Store.Keeps.{Keeps, Keeps-bind, Keeps-then, Keeps-when}

pub has_status_empty : has_status processing (batch_or_empty none) ≡ false
unfolding has_status
has_status_empty = refl

-- The count of a batch's files changes no document.
pub increment-documents :
    (batch_id : String) (w : World)
    → (increment_resolved_count batch_id w).1.documents ≡ w.documents
increment-documents batch_id w =
    elim (Bool-cases (has_status processing (batch_or_empty (lookup batch_id w.batches)))) [
      | inr n ↦ ap (λ r. r.1.documents) (increment_other batch_id w n)
      | inl y ↦ elim (Option-cases (lookup batch_id w.batches)) [
        | inl e ↦ cc (y, ap (λ o. has_status processing (batch_or_empty o)) e, has_status_empty)
        | inr (b, e) ↦
            ap (λ r. r.1.documents)
              (increment_lem batch_id w b e
                (sym (ap (λ o. has_status processing (batch_or_empty o)) e) ∙ y))
      ]
    ]

sent-documents :
    (env : Env) (key : String) (w : World)
    → (send_record_to_metrics_queue env key w).1.documents ≡ w.documents
unfolding send_record_to_metrics_queue
sent-documents env key w = elim (Bool-cases env.has_metrics_queue) [
  | inl q ↦ elim (Bool-cases (is_sent (lookup key w.documents))) [
    | inl i ↦ rw (q, i)
    | inr i ↦ rw (q, i)
  ]
  | inr q ↦ rw q
]

module _ (key : String) (s : ProcessStatus) where
  pub same_documents :
      (w w' : World) → w'.documents ≡ w.documents → StatusAt key s w → StatusAt key s w'
  same_documents w w' e p = record {
    item = p.item;
    found = ap (lookup key) e ∙ p.found;
    has_status = p.has_status;
  }

  pub Keeps-counted : (batch_id : Option String) → Keeps (StatusAt key s) (counted batch_id)
  Keeps-counted none = λ w p. p
  Keeps-counted (some batch_id) =
      Keeps-when _ (increment_resolved_count batch_id)
        (λ w. same_documents w _ (increment-documents batch_id w))

  Keeps-v1 :
      (env : Env) (status : ProcessStatus) (c : Option ClassificationData) (e : Option String)
      (o : Option Document)
      → Keeps (StatusAt key s) (v1_or_error env status c e o)
  Keeps-v1 env status c e none w p = p
  Keeps-v1 env status c e (some d) w p = p

  Keeps-stored :
      (env : Env) (j : String) (status : ProcessStatus) (c : Option ClassificationData)
      (e : Option String)
      → Keeps (StatusAt key s) (stored_v1_response env j status c e)
  unfolding stored_v1_response
  Keeps-stored env j status c e w p = Keeps-v1 env status c e (lookup j w.documents) w p

  pub Keeps-finalize :
      (env : Env) (j : String) (status : ProcessStatus) (c : Option ClassificationData)
      (e : Option String)
      → Keeps (StatusAt key s) (finalize_v1_response env j status c e)
  unfolding finalize_v1_response
  Keeps-finalize env j status c e =
      Keeps-bind (stored_v1_response env j status c e) _ (Keeps-stored env j status c e)
        (λ v1. Keeps-update key s j (set_v1 v1) always (λ d h. inr h))

  Keeps-set_or_refuse {ℓ} :
      {V : Type ℓ} (j : String) (assign : List (String × V) → Document) (k : String) (v : V)
      (o : Option (List (String × V))) (w : World)
      → ((m : List (String × V)) → j ≡ key → (assign m).process_status ≡ some s)
      → StatusAt key s w
      → StatusAt key s (set_or_refuse j assign k v o w).1
  Keeps-set_or_refuse j assign k v none w h p = p
  Keeps-set_or_refuse j assign k v (some m) w h p = StatusAt-insert key s j _ w (h _) p

  Keeps-set_in_map {ℓ} :
      {V : Type ℓ} (j : String) (attribute : Document → Option (List (String × V)))
      (assign : Document → List (String × V) → Document) (k : String) (v : V)
      → ((d : Document) (m : List (String × V)) → (assign d m).process_status ≡ d.process_status)
      → Keeps (StatusAt key s) (set_in_map j attribute assign k v)
  Keeps-set_in_map j attribute assign k v h w p =
      Keeps-set_or_refuse j (assign (document_or_empty (lookup j w.documents))) k v
        (attribute (document_or_empty (lookup j w.documents))) w
        (λ m e. h _ m ∙ ap (λ d. d.process_status) (found_at key s j w p e) ∙ p.has_status) p

  Keeps-entry :
      (j : String) (method : ExtractMethod) (result : ExtractionResult) (o : Option ℤ)
      → Keeps (StatusAt key s) (duration_entry j method result o)
  Keeps-entry j method result none = λ w p. p
  Keeps-entry j method result (some t) =
      Keeps-set_in_map j (λ d. d.durations_by_method) set_durations _ _ (λ d m. refl)

  Keeps-duration :
      (j : String) (method : ExtractMethod) (result : Option ExtractionResult)
      → Keeps (StatusAt key s) (write_duration j method result)
  Keeps-duration j method none = λ w p. p
  Keeps-duration j method (some r) = Keeps-entry j method r r.processing_duration_seconds

  Keeps-method_response :
      (env : Env) (r : UpdateDdbRecord) (result : Option ExtractionResult)
      (method : Option ExtractMethod)
      → Keeps (StatusAt key s) (method_response env r result method)
  unfolding write_extract_method_response
  Keeps-method_response env r result none = λ w p. p
  Keeps-method_response env r result (some m) =
      Keeps-then _ _
        (Keeps-bind (stored_v1_response env r.object_key r.status r.classification r.error_message)
          _ (Keeps-stored env r.object_key r.status r.classification r.error_message)
          (λ v1 w.
            Keeps-set_in_map r.object_key (λ d. d.api_responses_by_method) set_responses _ _
              (λ d m. refl) w))
        (Keeps-duration r.object_key m result)

  Keeps-after_write :
      (env : Env) (r : UpdateDdbRecord) (batch_id : Option String)
      (result : Option ExtractionResult) (method : Option ExtractMethod) (o : Outcome (Unit {0}))
      → Keeps (StatusAt key s) (after_write env r batch_id result method o)
  Keeps-after_write env r batch_id result method (returned _) =
      Keeps-then
        (finalize_v1_response env r.object_key r.status r.classification r.error_message
          >> counted batch_id)
        (method_response env r result method)
        (Keeps-then
          (finalize_v1_response env r.object_key r.status r.classification r.error_message)
          (counted batch_id)
          (Keeps-finalize env r.object_key r.status r.classification r.error_message)
          (Keeps-counted batch_id))
        (Keeps-method_response env r result method)
  Keeps-after_write env r batch_id result method (raised conditional_check_failed) = λ w p. p
  Keeps-after_write env r batch_id result method (raised _) = λ w p. p

  Keeps-is_applied : (o : Outcome (Unit {0})) → Keeps (StatusAt key s) (is_applied o)
  Keeps-is_applied (returned _) = λ w p. p
  Keeps-is_applied (raised conditional_check_failed) = λ w p. p
  Keeps-is_applied (raised _) = λ w p. p

  pub Keeps-after_mark :
      (batch_id : Option String) (status : ProcessStatus) (b : Bool)
      → Keeps (StatusAt key s) (after_mark batch_id status b)
  Keeps-after_mark batch_id status true =
      Keeps-then (counted batch_id) (pure (some status)) (Keeps-counted batch_id) (λ w p. p)
  Keeps-after_mark batch_id status false = λ w p. p

module _ (key : String) (s : ProcessStatus) (classified : is_classified s ≡ true) where
  refuses : (f : Document → Document) → IsHarmless s f is_open
  refuses f d h = inl (not_open d s h classified)

  Keeps-update_ddb :
      (env : Env) (r : UpdateDdbRecord) → Keeps (StatusAt key s) (update_ddb env r is_open)
  unfolding update_ddb
  Keeps-update_ddb env r w p =
      let f = written env w.now (lookup r.object_key w.documents) r in
      Keeps-then (update_document r.object_key f is_open)
        (when (is_classified r.status) (send_record_to_metrics_queue env r.object_key))
        (Keeps-update key s r.object_key f is_open (refuses f))
        (Keeps-when _ (send_record_to_metrics_queue env r.object_key)
          (λ v. same_documents key s v _ (sent-documents env r.object_key v)))
        w p

  -- The write of a terminal status, of any document, by any method, keeps every classified status.
  pub Keeps-write_terminal_status :
      (env : Env) (r : UpdateDdbRecord) (batch_id : Option String)
      (result : Option ExtractionResult) (method : Option ExtractMethod)
      → Keeps (StatusAt key s) (write_terminal_status env r batch_id result method)
  unfolding write_terminal_status
  Keeps-write_terminal_status env r batch_id result method w p =
      elim (Bool-cases (is_authoritative method)) [
        | inl a ↦
            subst
              (λ b.
                StatusAt key s
                  (if◌then◌else◌ b
                    (attempt (update_ddb env r is_open) (after_write env r batch_id result method))
                    (method_response env r result method) w).1)
              (sym a)
              (Keeps-after_write key s env r batch_id result method (update_ddb env r is_open w).0
                (update_ddb env r is_open w).1 (Keeps-update_ddb env r w p))
        | inr a ↦
            subst
              (λ b.
                StatusAt key s
                  (if◌then◌else◌ b
                    (attempt (update_ddb env r is_open) (after_write env r batch_id result method))
                    (method_response env r result method) w).1)
              (sym a) (Keeps-method_response key s env r result method w p)
      ]

  Keeps-mark_terminal :
      (j : String) (status : ProcessStatus) (reason : Option String)
      → Keeps (StatusAt key s) (mark_terminal j status reason)
  unfolding mark_terminal
  Keeps-mark_terminal j status reason w p =
      let f = marked w.now status reason in
      Keeps-is_applied key s (update_document j f is_open w).0 (update_document j f is_open w).1
        (Keeps-update key s j f is_open (refuses f) w p)

  Keeps-apply_verdict :
      (j : String) (batch_id : Option String) (v : Verdict)
      → Keeps (StatusAt key s) (apply_verdict j batch_id v)
  unfolding mark_and_increment
  Keeps-apply_verdict j batch_id left_alone = λ w p. p
  Keeps-apply_verdict j batch_id (resolved_as status reason) =
      Keeps-bind (mark_terminal j status reason) (after_mark batch_id status)
        (Keeps-mark_terminal j status reason) (Keeps-after_mark key s batch_id status)

  pub Keeps-process_stale_record :
      (job_status : String → Option String) (record_ : String × Document)
      → Keeps (StatusAt key s) (process_stale_record job_status record_)
  unfolding process_stale_record
  Keeps-process_stale_record job_status (j, d) =
      Keeps-apply_verdict j d.batch_id (verdict job_status d)

-- The writes of the system's jobs on documents and batches, one after another, with the clock moving
-- in between: a terminal write (by any classification, retried or not), the reaper on a record that
-- it read at any time before, and the count of a file.
pub data Writes (env : Env) (job_status : String → Option String) : World → World → Type 0 where
  start : {w : World} → Writes env job_status w w
  classify :
      {w w' : World}
      → Writes env job_status w w'
      → (r : UpdateDdbRecord) (batch_id : Option String) (result : Option ExtractionResult)
        (method : Option ExtractMethod)
      → Writes env job_status w (write_terminal_status env r batch_id result method w').1
  reap_one :
      {w w' : World}
      → Writes env job_status w w'
      → (record_ : String × Document)
      → Writes env job_status w (process_stale_record job_status record_ w').1
  count_file :
      {w w' : World}
      → Writes env job_status w w'
      → (batch_id : String) → Writes env job_status w (increment_resolved_count batch_id w').1
  wait :
      {w w' : World}
      → Writes env job_status w w'
      → (t : ℕ) → Writes env job_status w (record w' { now = t })

-- A document with a classified status has it after any number of terminal writes, reaper runs and
-- counts, on this and on other documents, in any order.
pub status_stays :
    (env : Env) (job_status : String → Option String) (key : String) (s : ProcessStatus)
    (w w' : World)
    → is_classified s ≡ true
    → StatusAt key s w
    → Writes env job_status w w'
    → StatusAt key s w'
status_stays env job_status key s w _ c p start = p
status_stays env job_status key s w _ c p (classify steps r batch_id result method) =
    Keeps-write_terminal_status key s c env r batch_id result method _
      (status_stays env job_status key s w _ c p steps)
status_stays env job_status key s w _ c p (reap_one steps record_) =
    Keeps-process_stale_record key s c job_status record_ _
      (status_stays env job_status key s w _ c p steps)
status_stays env job_status key s w _ c p (count_file {w' = w'} steps batch_id) =
    same_documents key s w' _ (increment-documents batch_id w')
      (status_stays env job_status key s w w' c p steps)
status_stays env job_status key s w _ c p (wait {w' = w'} steps t) =
    same_documents key s w' _ refl (status_stays env job_status key s w w' c p steps)

pub increment_returned :
    (batch_id : String) (w : World) → (increment_resolved_count batch_id w).0 ≡ returned tt
increment_returned batch_id w =
    elim (Bool-cases (has_status processing (batch_or_empty (lookup batch_id w.batches)))) [
      | inr n ↦ ap (λ r. r.0) (increment_other batch_id w n)
      | inl y ↦ elim (Option-cases (lookup batch_id w.batches)) [
        | inl e ↦ cc (y, ap (λ o. has_status processing (batch_or_empty o)) e, has_status_empty)
        | inr (b, e) ↦
            ap (λ r. r.0)
              (increment_lem batch_id w b e
                (sym (ap (λ o. has_status processing (batch_or_empty o)) e) ∙ y))
      ]
    ]

pub when_returned :
    (b : Bool) (m : Action (Unit {0})) (w : World)
    → (m w).0 ≡ returned tt
    → (when b m w).0 ≡ returned tt
when_returned true m w h = h
when_returned false m w h = refl

pub counted_returned : (batch_id : Option String) (w : World) → (counted batch_id w).0 ≡ returned tt
counted_returned none w = refl
counted_returned (some batch_id) w =
    when_returned _ (increment_resolved_count batch_id) w (increment_returned batch_id w)

pub when_documents :
    (b : Bool) (m : Action (Unit {0})) (w : World)
    → (m w).1.documents ≡ w.documents
    → (when b m w).1.documents ≡ w.documents
when_documents true m w h = h
when_documents false m w h = refl

pub counted-documents :
    (batch_id : Option String) (w : World) → (counted batch_id w).1.documents ≡ w.documents
counted-documents none w = refl
counted-documents (some batch_id) w =
    when_documents _ (increment_resolved_count batch_id) w (increment-documents batch_id w)

-- ===== src/Reaper/Resolves.antt =====
-- What a run of the reaper leaves behind.
use mathlib.Core.List.{Memᴰ}
use strata_documentai_api_en.Finality.Stays.{Keeps-after_mark, Keeps-process_stale_record}
use strata_documentai_api_en.Prelude.{
  Bool-cases, [], length, arith, ◌∷◌, suc, ◌+◌, subst, ◌≤◌, ℕ, Bool-cases, List, ◌≢◌,
  lookup-insert_self, str_eq, if_both, insert, not, Option-cases, refl, ap, ◌∙◌, sym, String, ◌≡◌,
  inl, inr, Bool, true, false, Option, none, some, lookup,
}
use strata_documentai_api_en.Status.{
  value, ddb_non_terminal_condition, ProcessStatus, timed_out, is_classified, is_job_completed,
  is_job_failed,
}
use strata_documentai_api_en.Status.Partition.{ddb_non_terminal_condition-is_classified}
use strata_documentai_api_en.Store.Actions.{Outcome, returned, raised, proceed}
use strata_documentai_api_en.Document.{Document}
use strata_documentai_api_en.Response.{truthy}
use strata_documentai_api_en.Classify.{is_open}
use strata_documentai_api_en.Reaper.{
  or_zero, after_mark, find_stale_records, apply_verdict, main, process_stale_record,
  mark_and_increment, reap, count_outcome, add_count, Verdict, left_alone, resolved_as, verdict,
  verdict_of_job, verdict_of_arn, mark_terminal, marked,
}
use strata_documentai_api_en.Finality.{StatusAt, update_accepted, update_refused}
use strata_documentai_api_en.Store.{document_or_empty}
use strata_documentai_api_en.Store.State.{World}

-- The document under `key` has a status that counts as classified.
pub record IsFinal (key : String) (w : World) : Type 0 where
  pub status : ProcessStatus
  pub classified : is_classified status ≡ true
  pub stored : StatusAt key status w

-- The statuses that a verdict can give.
data IsResolution : Verdict → Type 0 where
  alone : IsResolution left_alone
  by :
      {s : ProcessStatus} {reason : Option String}
      → is_classified s ≡ true
      → IsResolution (resolved_as s reason)

timed_out_classified : is_classified timed_out ≡ true
unfolding is_classified
timed_out_classified = refl

failed_classified : is_classified ProcessStatus.failed ≡ true
unfolding is_classified
failed_classified = refl

none_is_open : ddb_non_terminal_condition none ≡ true
unfolding ddb_non_terminal_condition
none_is_open = refl

empty_is_open : is_open (document_or_empty none) ≡ true
empty_is_open = none_is_open

not-inv : (b : Bool) → not b ≡ false → b ≡ true
not-inv true h = refl
not-inv false h = sym h

job-IsResolution : (o : Option String) → IsResolution (verdict_of_job o)
job-IsResolution none = by timed_out_classified
job-IsResolution (some status) =
    if_both IsResolution (is_job_completed status) _ _ (by failed_classified)
      (if_both IsResolution (is_job_failed status) _ _ (by failed_classified) alone)

arn-IsResolution :
    (job_status : String → Option String) (o : Option String)
    → IsResolution (verdict_of_arn job_status o)
arn-IsResolution job_status none = by timed_out_classified
arn-IsResolution job_status (some arn) = job-IsResolution (job_status arn)

verdict-IsResolution :
    (job_status : String → Option String) (d : Document) → IsResolution (verdict job_status d)
unfolding verdict
verdict-IsResolution job_status d = arn-IsResolution job_status (truthy d.bda_invocation_arn)

mark_accepted :
    (key : String) (status : ProcessStatus) (reason : Option String) (w : World)
    → is_open (document_or_empty (lookup key w.documents)) ≡ true
    → mark_terminal key status reason w ≡ (
      returned true,
      record w {
        documents =
            insert key
              (marked w.now status reason (document_or_empty (lookup key w.documents)))
              w.documents;
      },
    )
unfolding mark_terminal
mark_accepted key status reason w h =
    rw (update_accepted key (marked w.now status reason) is_open w h)

mark_refused :
    (key : String) (status : ProcessStatus) (reason : Option String) (w : World)
    → is_open (document_or_empty (lookup key w.documents)) ≡ false
    → mark_terminal key status reason w ≡ (returned false, w)
unfolding mark_terminal
mark_refused key status reason w h =
    rw (update_refused key (marked w.now status reason) is_open w h)

-- An item that refuses a terminal status has one.
refused-IsFinal :
    (key : String) (w : World)
    → is_open (document_or_empty (lookup key w.documents)) ≡ false
    → IsFinal key w
refused-IsFinal key w h = elim (Option-cases (lookup key w.documents)) [
  | inl e ↦ cc (h, ap (λ o. is_open (document_or_empty o)) e, empty_is_open)
  | inr (d, e) ↦ elim (Option-cases d.process_status) [
    | inl n ↦ cc (h, e, n, none_is_open)
    | inr (s, m) ↦ record {
      status = s;
      classified = not-inv _ (
          sym (ddb_non_terminal_condition-is_classified s)
          ∙ sym (ap ddb_non_terminal_condition m)
          ∙ sym (ap (λ o. is_open (document_or_empty o)) e)
          ∙ h);
      stored = record { item = d; found = e; has_status = m };
    }
  ]
]

marked-IsFinal :
    (key : String) (batch_id : Option String) (status : ProcessStatus) (reason : Option String)
    (w : World)
    → is_classified status ≡ true
    → IsFinal key (mark_and_increment key batch_id status reason w).1
unfolding mark_and_increment
marked-IsFinal key batch_id status reason w c =
    elim (Bool-cases (is_open (document_or_empty (lookup key w.documents)))) [
      | inl o ↦ record {
        status = status;
        classified = c;
        stored =
            subst (λ r. StatusAt key status (proceed r.0 (after_mark batch_id status) r.1).1)
              (sym (mark_accepted key status reason w o))
              (Keeps-after_mark key status batch_id status true _ (record {
                item = marked w.now status reason (document_or_empty (lookup key w.documents));
                found = lookup-insert_self key _ w.documents;
                has_status = refl;
              }));
      }
      | inr n ↦
          subst (λ r. IsFinal key (proceed r.0 (after_mark batch_id status) r.1).1)
            (sym (mark_refused key status reason w n)) (refused-IsFinal key w n)
    ]

verdict-IsFinal :
    (key : String) (batch_id : Option String) (v : Verdict) (w : World)
    → IsResolution v
    → v ≢ left_alone
    → IsFinal key (apply_verdict key batch_id v w).1
verdict-IsFinal key batch_id _ w alone h = elim (h refl) [ ]
verdict-IsFinal key batch_id (resolved_as s reason) w (by c) h =
    marked-IsFinal key batch_id s reason w c

-- Once the reaper has gone over a record whose job gives a verdict, the document under its key has a
-- status that counts as classified: the verdict's, or one that the pipeline wrote in the meantime.
pub process-IsFinal :
    (job_status : String → Option String) (key : String) (d : Document) (w : World)
    → verdict job_status d ≢ left_alone
    → IsFinal key (process_stale_record job_status (key, d) w).1
unfolding process_stale_record
process-IsFinal job_status key d w h =
    verdict-IsFinal key d.batch_id (verdict job_status d) w (verdict-IsResolution job_status d) h

reap_keeps :
    (job_status : String → Option String) (stale : List (String × Document))
    (counts : List (String × ℕ)) (key : String) (w : World)
    → IsFinal key w
    → IsFinal key (reap job_status stale counts w).1
unfolding reap
reap_keeps job_status [] counts key w f = f
reap_keeps job_status (r ∷ stale) counts key w f =
    reap_keeps job_status stale (count_outcome (process_stale_record job_status r w).0 counts) key
      (process_stale_record job_status r w).1
      (record {
        status = f.status;
        classified = f.classified;
        stored = Keeps-process_stale_record key f.status f.classified job_status r w f.stored;
      })

reap-IsFinal :
    (job_status : String → Option String) (stale : List (String × Document))
    (counts : List (String × ℕ)) (r : String × Document) (w : World)
    → Memᴰ r stale
    → verdict job_status r.1 ≢ left_alone
    → IsFinal r.0 (reap job_status stale counts w).1
unfolding reap
reap-IsFinal job_status [] counts r w m h = elim m [ ]
reap-IsFinal job_status (q ∷ stale) counts r w (Memᴰ.head e) h =
    reap_keeps job_status stale _ r.0 (process_stale_record job_status q w).1 (
      subst (λ q. IsFinal r.0 (process_stale_record job_status q w).1) e
        (process-IsFinal job_status r.0 r.1 w h))
reap-IsFinal job_status (q ∷ stale) counts r w (Memᴰ.tail m) h =
    reap-IsFinal job_status stale _ r (process_stale_record job_status q w).1 m h

-- After a run of the reaper, every record that it found stale has a status that counts as
-- classified, unless the extraction service reports its job as neither ended nor failed.
pub main-IsFinal :
    (job_status : String → Option String) (w : World) (r : String × Document)
    → Memᴰ r (find_stale_records w)
    → verdict job_status r.1 ≢ left_alone
    → IsFinal r.0 (main job_status w).1
unfolding main
main-IsFinal job_status w r m h = reap-IsFinal job_status (find_stale_records w) [] r w m h

abbrev pub total : List (String × ℕ) → ℕ
total [] = 0
total ((key, n) ∷ counts) = n + total counts

total-insert :
    (key : String) (v : ℕ) (counts : List (String × ℕ))
    → total (insert key v counts) + or_zero (lookup key counts) ≡ total counts + v
unfolding insert lookup
total-insert key v [] = omega arith
total-insert key v ((j, n) ∷ counts) = elim (Bool-cases (str_eq j key)) [
  | inl e ↦ rw e (omega arith)
  | inr e ↦ rw e (omega (arith, total-insert key v counts))
]

total-add_count :
    (key : String) (counts : List (String × ℕ)) → total (add_count key counts) ≡ suc (total counts)
total-add_count key counts =
    omega (arith, total-insert key (suc (or_zero (lookup key counts))) counts)

total-count_outcome :
    (o : Outcome (Option ProcessStatus)) (counts : List (String × ℕ))
    → total (count_outcome o counts) ≤ suc (total counts)
unfolding count_outcome
total-count_outcome (returned none) counts = omega arith
total-count_outcome (returned (some s)) counts = omega (arith, total-add_count (value s) counts)
total-count_outcome (raised e) counts = omega (arith, total-add_count "error" counts)

reap_total :
    (job_status : String → Option String) (stale : List (String × Document))
    (counts : List (String × ℕ)) (w : World)
    → total (reap job_status stale counts w).0 ≤ total counts + length stale
unfolding reap
reap_total job_status [] counts w = omega arith
reap_total job_status (r ∷ stale) counts w = omega (
  arith,
  reap_total job_status stale (count_outcome (process_stale_record job_status r w).0 counts)
      (process_stale_record job_status r w).1,
  total-count_outcome (process_stale_record job_status r w).0 counts,
)

-- The outcomes that a run of the reaper reports, written statuses and errors together, are no more
-- than the stale records that it reports.
pub main_total :
    (job_status : String → Option String) (w : World)
    → total (main job_status w).0.1 ≤ (main job_status w).0.0
unfolding main
main_total job_status w = omega (arith, reap_total job_status (find_stale_records w) [] w)

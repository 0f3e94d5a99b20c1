-- ===== src/Batch/Counting.antt =====
-- How the count of resolved files of a batch runs up to the batch's end.
use strata_documentai_api_en.Prelude.{
  ◌+◌, subst, ap, ltb→lt, refl, ◌==◌, none, inr, ◌∙◌, Option, ◌||◌, inl, ◌≤◌, arith, Bool,
  Bool-cases, ◌<◌, ℕ, suc, ◌≡◌, String, true, false, some, List, ltb, count_if, lookup, insert,
  insert-insert, lookup-insert_self, if◌then◌else◌,
}
use strata_documentai_api_en.Status.{processing}
use strata_documentai_api_en.Document.{Document}
use strata_documentai_api_en.Batch.{
  BatchStatus, partial, completed, increment_resolved_count, has_status, count_one, or_zero,
  jobs_of, is_failed_job, terminal_status,
}
use strata_documentai_api_en.Store.{batch_or_empty}
use strata_documentai_api_en.Store.State.{World, Batch}
use strata_documentai_api_en.Store.Actions.{returned}

-- What one increment makes of a batch that is in processing.
abbrev pub after_one : ℕ → List Document → Batch → Batch
after_one now jobs b =
    let b' = count_one now b in
    if ltb (suc (or_zero b.resolved_count)) (or_zero b.total_files) then b' else record b' {
      batch_status = some (terminal_status (count_if is_failed_job jobs) (or_zero b.total_files));
    }

-- A batch that exists and is not in processing is left alone, and the call does not fail.
pub increment_other :
    (batch_id : String) (w : World)
    → has_status processing (batch_or_empty (lookup batch_id w.batches)) ≡ false
    → increment_resolved_count batch_id w ≡ (returned tt, w)
unfolding increment_resolved_count
increment_other batch_id w h = rw h

increment_lem_below :
    (batch_id : String) (w : World) (b : Batch)
    → lookup batch_id w.batches ≡ some b
    → has_status processing b ≡ true
    → ltb (suc (or_zero b.resolved_count)) (or_zero b.total_files) ≡ true
    → increment_resolved_count batch_id w
      ≡ (returned tt, record w { batches = insert batch_id (count_one w.now b) w.batches })
unfolding increment_resolved_count
increment_lem_below batch_id w b h p l = rw (h, p, l)

increment_lem_full :
    (batch_id : String) (w : World) (b : Batch)
    → lookup batch_id w.batches ≡ some b
    → has_status processing b ≡ true
    → ltb (suc (or_zero b.resolved_count)) (or_zero b.total_files) ≡ false
    → increment_resolved_count batch_id w ≡ (
      returned tt,
      record w {
        batches = insert batch_id (after_one w.now (jobs_of batch_id w.documents) b) w.batches;
      },
    )
unfolding increment_resolved_count
increment_lem_full batch_id w b h p l = rw (h, p, l, lookup-insert_self, p, insert-insert)

-- Of a batch that is in processing, one call counts a file; and if no file is left to resolve, it
-- writes the batch's end as the documents of the batch stand. The call does not fail, and changes
-- nothing else.
pub increment_lem :
    (batch_id : String) (w : World) (b : Batch)
    → lookup batch_id w.batches ≡ some b
    → has_status processing b ≡ true
    → increment_resolved_count batch_id w ≡ (
      returned tt,
      record w {
        batches = insert batch_id (after_one w.now (jobs_of batch_id w.documents) b) w.batches;
      },
    )
increment_lem batch_id w b h p =
    elim (Bool-cases (ltb (suc (or_zero b.resolved_count)) (or_zero b.total_files))) [
      | inl l ↦ increment_lem_below batch_id w b h p l ∙ rw l
      | inr l ↦ increment_lem_full batch_id w b h p l
    ]

-- The statuses that a batch ends with.
abbrev pub is_ended : Batch → Bool
is_ended b = has_status completed b || has_status partial b || has_status BatchStatus.failed b

ended :
    (b : Batch) (f t : ℕ) → is_ended (record b { batch_status = some (terminal_status f t) }) ≡ true
unfolding has_status terminal_status
ended b f t = elim (Bool-cases (f == 0)) [
  | inl z ↦ rw z
  | inr z ↦ elim (Bool-cases (f == t)) [ inl e ↦ rw (z, e) | inr e ↦ rw (z, e) ]
]

ended_status :
    (s : Option BatchStatus)
    → is_ended (record (batch_or_empty none) { batch_status = s }) ≡ true
    → has_status processing (record (batch_or_empty none) { batch_status = s }) ≡ false
unfolding has_status
ended_status none h = ground arith
ended_status (some processing) h = ground arith
ended_status (some _) h = refl

pub not_processing : (b : Batch) → is_ended b ≡ true → has_status processing b ≡ false
unfolding has_status
not_processing b h = ended_status b.batch_status h

-- Calls on one batch, `n` of them counted from the first world to the last. Between them the batch's
-- record stays as it is, whatever happens to documents and other batches.
pub data Calls (batch_id : String) : ℕ → World → World → Type 0 where
  start : {w : World} → Calls batch_id 0 w w
  resolve :
      {n : ℕ} {w w' : World}
      → Calls batch_id n w w'
      → Calls batch_id (suc n) w (increment_resolved_count batch_id w').1
  elsewhere :
      {n : ℕ} {w w' w'' : World}
      → Calls batch_id n w w'
      → lookup batch_id w''.batches ≡ lookup batch_id w'.batches
      → Calls batch_id n w w''

-- A batch of `total` files of which `n` calls have told that they are resolved.
pub data Counted (total n : ℕ) (b : Batch) : Type 0 where
  counting :
      has_status processing b ≡ true
      → or_zero b.total_files ≡ total
      → or_zero b.resolved_count ≡ n
      → n < total
      → Counted total n b
  finished :
      is_ended b ≡ true
      → or_zero b.total_files ≡ total
      → or_zero b.resolved_count ≡ total
      → total ≤ n
      → Counted total n b

module _ (total : ℕ) where
  one-Counted :
      (n now : ℕ) (jobs : List Document) (b : Batch)
      → has_status processing b ≡ true
      → or_zero b.total_files ≡ total
      → or_zero b.resolved_count ≡ n
      → n < total
      → Counted total (suc n) (after_one now jobs b)
  unfolding count_one has_status
  one-Counted n now jobs b p t r l =
      elim (Bool-cases (ltb (suc (or_zero b.resolved_count)) (or_zero b.total_files))) [
        | inl e ↦
            let h = ltb→lt _ _ e in
            let c : Counted total (suc n) (count_one now b) =
              counting p t (ap suc r) (omega (arith, h, t, r)) in
            subst (Counted total (suc n)) (rw e) c
        | inr e ↦
            let c : Counted total (suc n) (record (count_one now b) {
              batch_status =
                  some (terminal_status (count_if is_failed_job jobs) (or_zero b.total_files));
            }) =
              finished (ended b _ _) t (ground (arith, e, t, r, l)) (ground (arith, e, t, r, l)) in
            subst (Counted total (suc n)) (rw e) c
      ]

  advance :
      (batch_id : String) (n : ℕ) (w : World) (b : Batch)
      → lookup batch_id w.batches ≡ some b
      → Counted total n b
      → (b' : Batch) × (lookup batch_id (increment_resolved_count batch_id w).1.batches ≡ some b')
        × Counted total (suc n) b'
  advance batch_id n w b e (counting p t r l) = (
    after_one w.now (jobs_of batch_id w.documents) b,
    ap (λ r. lookup batch_id r.1.batches) (increment_lem batch_id w b e p)
        ∙ lookup-insert_self batch_id _ _,
    one-Counted n w.now (jobs_of batch_id w.documents) b p t r l,
  )
  advance batch_id n w b e (finished p t r l) =
      let other : has_status processing (batch_or_empty (lookup batch_id w.batches)) ≡ false =
        ap (λ o. has_status processing (batch_or_empty o)) e ∙ not_processing b p in
      (
        b,
        ap (λ r. lookup batch_id r.1.batches) (increment_other batch_id w other) ∙ e,
        finished p t r (omega (arith, l)),
      )

  -- After any calls on a batch that starts in processing with `n₀` of its `total` files counted,
  -- the batch is in processing with one more for each call, as long as these are fewer than `total`;
  -- from then on it has ended, with exactly `total` files counted.
  pub Calls-count :
      (batch_id : String) (n : ℕ) (w w' : World) (b : Batch)
      → Calls batch_id n w w'
      → (n₀ : ℕ) → lookup batch_id w.batches ≡ some b
      → Counted total n₀ b
      → (b' : Batch) × (lookup batch_id w'.batches ≡ some b') × Counted total (n + n₀) b'
  Calls-count batch_id _ w w' b start n₀ e c =
      (b, e, subst (λ k. Counted total k b) (omega arith) c)
  Calls-count batch_id _ w w' b (resolve calls) n₀ e c =
      let (b', e', c') = Calls-count batch_id _ w _ b calls n₀ e c in
      let (b'', e'', c'') = advance batch_id _ _ b' e' c' in
      (b'', e'', subst (λ k. Counted total k b'') (omega arith) c'')
  Calls-count batch_id n w w' b (elsewhere calls h) n₀ e c =
      let (b', e', c') = Calls-count batch_id n w _ b calls n₀ e c in (b', h ∙ e', c')

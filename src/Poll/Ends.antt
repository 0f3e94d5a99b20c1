-- ===== src/Poll/Ends.antt =====
-- How the waiting for a document ends.
use strata_documentai_api_en.Prelude.{
  ◌-◌, none, ℕ, zero, suc, ◌+◌, ◌*◌, ◌<◌, ◌≤◌, ◌≡◌, refl, ap, ◌∙◌, subst, String, Bool, true, false,
  Option, some, ltb, lt→ltb, is_some, arith, if_cases,
}
use strata_documentai_api_en.Store.State.{World, Env}
use strata_documentai_api_en.Store.Actions.{returned}
use strata_documentai_api_en.Document.{V1Response}
use strata_documentai_api_en.Poll.{
  poll_for_completion, answer, from_v1, Observation, Attempt, answers, gives_up, goes_round,
  try_once, known_key, Polled, responded, timed_out, next, poll_loop,
}

module _ (observe : ℕ → Observation) (include : Bool) (timeout : ℕ) where
  next-is_some :
      (a : Attempt) (key : Option String) (rest : Option Polled)
      → is_some rest ≡ true
      → is_some (next a key rest) ≡ true
  next-is_some (answers r) key rest h = refl
  next-is_some gives_up key rest h = refl
  next-is_some goes_round key rest h = h

  -- Fuel for one attempt more than the time that is left is enough: the loop ends.
  pub poll_loop_ends :
      (fuel n elapsed_time : ℕ) (key : Option String)
      → timeout ≤ fuel + elapsed_time
      → is_some (poll_loop observe include timeout (suc fuel) n elapsed_time key) ≡ true
  unfolding poll_loop
  poll_loop_ends zero n elapsed_time key h =
      if_cases (λ (o : Option Polled). is_some o ≡ true) (ltb elapsed_time timeout) _
        (some (timed_out key)) (λ l. ground (arith, l, h)) (λ l. refl)
  poll_loop_ends (suc fuel) n elapsed_time key h =
      if_cases (λ (o : Option Polled). is_some o ≡ true) (ltb elapsed_time timeout)
        (next (try_once include (observe n)) (known_key key (observe n)) (
          poll_loop observe include timeout (suc fuel) (suc n) (elapsed_time + 5)
            (known_key key (observe n))))
        (some (timed_out key))
        (λ l. next-is_some (try_once include (observe n)) (known_key key (observe n)) _ (
          poll_loop_ends fuel (suc n) (elapsed_time + 5) (known_key key (observe n))
            (omega (arith, h))))
        (λ l. refl)

  loop_step :
      (fuel n elapsed_time : ℕ) (key : Option String)
      → elapsed_time < timeout
      → poll_loop observe include timeout (suc fuel) n elapsed_time key
        ≡ next (try_once include (observe n)) (known_key key (observe n)) (
            poll_loop observe include timeout fuel
              (suc n)
              (elapsed_time + 5)
              (known_key key (observe n)))
  unfolding poll_loop
  loop_step fuel n elapsed_time key h = rw (lt→ltb elapsed_time timeout h)

  loop_over :
      (fuel n elapsed_time : ℕ) (key : Option String)
      → ltb elapsed_time timeout ≡ false
      → poll_loop observe include timeout (suc fuel) n elapsed_time key ≡ some (timed_out key)
  unfolding poll_loop
  loop_over fuel n elapsed_time key h = rw h

  -- If the first attempts go round and the next one, still in time, has an answer, that is the
  -- result.
  pub poll_loop_answers :
      (k fuel n elapsed_time : ℕ) (key : Option String) (r : V1Response)
      → ((i : ℕ) → i < k → try_once include (observe (n + i)) ≡ goes_round)
      → try_once include (observe (n + k)) ≡ answers r
      → elapsed_time + 5 * k < timeout
      → poll_loop observe include timeout (suc k + fuel) n elapsed_time key ≡ some (responded r)
  poll_loop_answers zero fuel n elapsed_time key r before here time =
      let at : try_once include (observe n) ≡ answers r =
        subst (λ m. try_once include (observe m) ≡ answers r) (omega arith) here in
      ap (λ f. poll_loop observe include timeout f n elapsed_time key) (omega arith)
      ∙ loop_step fuel n elapsed_time key (omega (arith, time))
      ∙ ap
          (λ a. next a (known_key key (observe n)) (
            poll_loop observe include timeout fuel (suc n) (elapsed_time + 5)
              (known_key key (observe n))))
          at
  poll_loop_answers (suc k) fuel n elapsed_time key r before here time =
      let at : try_once include (observe n) ≡ goes_round =
        subst (λ m. try_once include (observe m) ≡ goes_round) (omega arith)
          (before 0 (omega arith)) in
      ap (λ f. poll_loop observe include timeout f n elapsed_time key) (omega arith)
      ∙ loop_step (suc k + fuel) n elapsed_time key (omega (arith, time))
      ∙ ap
          (λ a. next a (known_key key (observe n)) (
            poll_loop observe include timeout (suc k + fuel) (suc n) (elapsed_time + 5)
              (known_key key (observe n))))
          at
      ∙ poll_loop_answers k fuel (suc n) (elapsed_time + 5) (known_key key (observe n)) r
          (λ i l.
            subst (λ m. try_once include (observe m) ≡ goes_round) (omega arith)
              (before (suc i) (omega (arith, l))))
          (subst (λ m. try_once include (observe m) ≡ answers r) (omega arith) here)
          (omega (arith, time))

-- The client gets the answer of the first attempt that has one, if that attempt is in time and none
-- before it ends the waiting; nothing is written then.
pub poll_answers :
    (env : Env) (message : ℕ → String) (observe : ℕ → Observation) (include : Bool) (timeout : ℕ)
    (k : ℕ) (r : V1Response) (w : World)
    → ((i : ℕ) → i < k → try_once include (observe i) ≡ goes_round)
    → try_once include (observe k) ≡ answers r
    → 5 * k < timeout
    → poll_for_completion env message observe include timeout w ≡ (returned (from_v1 r), w)
unfolding poll_for_completion
poll_answers env message observe include timeout k r w before here time =
    let fuel : suc timeout ≡ suc k + (timeout - k) = omega (arith, time) in
    ap (λ p. answer env message timeout p w)
      (ap (λ f. poll_loop observe include timeout f 0 0 none) fuel
        ∙ poll_loop_answers observe include timeout k (timeout - k) 0 0 none r
            (λ i l.
              subst (λ m. try_once include (observe m) ≡ goes_round) (omega arith) (before i l))
            (subst (λ m. try_once include (observe m) ≡ answers r) (omega arith) here)
            (omega (arith, time)))

-- The waiting always ends: with the fuel that it is given the loop has a result.
pub poll_ends :
    (observe : ℕ → Observation) (include : Bool) (timeout : ℕ)
    → is_some (poll_loop observe include timeout (suc timeout) 0 0 none) ≡ true
poll_ends observe include timeout =
    poll_loop_ends observe include timeout timeout 0 0 none (omega arith)

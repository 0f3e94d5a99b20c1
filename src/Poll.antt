-- ===== src/Poll.antt =====
-- documentai-api/src/documentai_api/pipeline/jobs.py and the data of utils/jobs.py: waiting for a
-- document. What an attempt meets is an argument, one observation for each attempt: the client may be
-- gone, the read may raise, or it tells of the job. A stored response is read back as it was written.
pub mod Ends
use strata_documentai_api_en.Prelude.{
  ℕ, zero, suc, ◌+◌, ◌*◌, String, Bool, true, false, ◌&&◌, Option, none, some, ltb, or_else,
  is_some, has_text, if◌then◌else◌,
}
use strata_documentai_api_en.Status.{ProcessStatus, is_classified}
use strata_documentai_api_en.Document.{V1Response, ClassificationData, no_data, InternalApiResponse}
use strata_documentai_api_en.Classify.{classify_as_failed}
use strata_documentai_api_en.Store.State.{Env}
use strata_documentai_api_en.Store.Actions.{Action, pure, ◌>>◌}

-- `built` is what `build_v1_api_response` returns for the job with its extracted data, if it does not
-- raise.
pub record JobStatus : Type 0 where
  pub object_key : Option String
  pub process_status : Option ProcessStatus
  pub v1_response_json : Option V1Response
  pub built : Option V1Response

pub data Observation : Type 0 where
  disconnected : Observation
  read_failed : Observation
  job : JobStatus → Observation

abbrev status_classified : Option ProcessStatus → Bool
status_classified none = false
status_classified (some s) = is_classified s

-- What an attempt comes to: an answer, an end, or another attempt.
pub data Attempt : Type 0 where
  answers : V1Response → Attempt
  gives_up : Attempt
  goes_round : Attempt

abbrev answer_or_round : Option V1Response → Attempt
answer_or_round none = goes_round
answer_or_round (some r) = answers r

abbrev attempt_job : Bool → JobStatus → Attempt
attempt_job include_extracted_data j =
    if status_classified j.process_status && is_some j.v1_response_json
    then answer_or_round
        (if include_extracted_data && has_text j.object_key then j.built else j.v1_response_json)
    else goes_round

-- The body of the loop.
unfoldable pub try_once : Bool → Observation → Attempt
unfolding is_classified
try_once include_extracted_data disconnected = gives_up
try_once include_extracted_data read_failed = goes_round
try_once include_extracted_data (job j) = attempt_job include_extracted_data j

-- The object key that is known after an attempt.
abbrev pub known_key : Option String → Observation → Option String
known_key key (job j) = if has_text j.object_key then j.object_key else key
known_key key _ = key

pub data Polled : Type 0 where
  responded : V1Response → Polled
  timed_out : Option String → Polled

abbrev polling_interval : ℕ
polling_interval = 5

abbrev pub next : Attempt → Option String → Option Polled → Option Polled
next (answers r) key rest = some (responded r)
next gives_up key rest = some (timed_out key)
next goes_round key rest = rest

-- The loop, with the number of the attempt, the time elapsed and fuel that counts the attempts.
unfoldable pub poll_loop : (ℕ → Observation) → Bool → ℕ → ℕ → ℕ → ℕ → Option String → Option Polled
unfolding try_once
poll_loop observe include_extracted_data timeout zero n elapsed_time key = none
poll_loop observe include_extracted_data timeout (suc fuel) n elapsed_time key =
    let rest =
      poll_loop observe include_extracted_data timeout fuel (suc n)
        (elapsed_time + polling_interval) (known_key key (observe n)) in
    if ltb elapsed_time timeout
    then next (try_once include_extracted_data (observe n)) (known_key key (observe n)) rest
    else some (timed_out key)

-- A response to the client: one that was stored or built, or the one of the timeout.
pub data PollResponse : Type 0 where
  from_v1 : V1Response → PollResponse
  processing_timeout : PollResponse

abbrev pub answer : Env → (ℕ → String) → ℕ → Option Polled → Action PollResponse
answer env message timeout (some (responded r)) = pure (from_v1 r)
answer env message timeout (some (timed_out (some key))) =
    classify_as_failed env key "Processing timeout"
      (record no_data { additional_info = some (message timeout) }) none none
    >> pure processing_timeout
answer env message timeout _ = pure processing_timeout

-- `poll_for_completion`: `message` is the text with the timeout in it.
unfoldable pub poll_for_completion :
    Env → (ℕ → String) → (ℕ → Observation) → Bool → ℕ → Action PollResponse
unfolding poll_loop classify_as_failed
poll_for_completion env message observe include_extracted_data timeout =
    answer env message timeout
      (poll_loop observe include_extracted_data timeout (suc timeout) 0 0 none)

-- ===== src/Scenarios/Documents.antt =====
-- The theorems on documents, batches and the reaper at the state of Scenarios/Data.
use strata_documentai_api_en.Prelude.{
  is_some, if◌then◌else◌, not, ◌∙◌, ◌∙◌, refl, ◌≡◌, ◌≢◌, ap, true, false, Option, none, some,
  String, ◌+◌, lookup, insert, arith,
}
use mathlib.Core.List.{Memᴰ}
use strata_documentai_api_en.Status.{
  bda, not_started, ProcessStatus, started, success, is_classified, processing,
}
use strata_documentai_api_en.Status.Partition.{ddb_non_terminal_condition-is_classified}
use strata_documentai_api_en.Batch.Counting.{
  Calls, Counted, counting, Calls-count, increment_lem, after_one,
}
use strata_documentai_api_en.Batch.{increment_resolved_count, has_status, jobs_of}
use strata_documentai_api_en.Classify.{write_terminal_status, counted, method_response, is_open}
use strata_documentai_api_en.Classify.Methods.{write_without_map}
use strata_documentai_api_en.Lifecycle.Claims.{
  claims_exclusive, claim_result, claimed, set_processing_status_started,
}
use strata_documentai_api_en.Classify.Terminal.{write-classified}
use strata_documentai_api_en.Classify.Landing.{write-open, landed}
use strata_documentai_api_en.Finality.{StatusAt}
use strata_documentai_api_en.Finality.Stays.{Writes, status_stays}
use strata_documentai_api_en.Reaper.{
  main, verdict, find_stale_records, left_alone, process_stale_record,
}
use strata_documentai_api_en.Reaper.Resolves.{IsFinal, main-IsFinal}
use strata_documentai_api_en.Batch.{create_batch}
use strata_documentai_api_en.Batch.Creation.{create_batch_lem}
use strata_documentai_api_en.Results.{BdaResult, run_bda_result_pipeline}
use strata_documentai_api_en.Results.Persisting.{pipeline_refused}
use strata_documentai_api_en.Store.{document_or_empty}
use strata_documentai_api_en.Store.State.{World, Batch}
use strata_documentai_api_en.Store.Actions.{http_error, raised, validation_error, returned, ◌>>◌}
use strata_documentai_api_en.Scenarios.Data.{
  env, world, update, done_document, started_document, batch,
}

success_classified : is_classified success ≡ true
unfolding is_classified
success_classified = refl

started_classified : is_classified started ≡ false
unfolding is_classified
started_classified = refl

done_found : lookup "b.pdf" world.documents ≡ some done_document
unfolding lookup
done_found = refl

started_found : lookup "a.pdf" world.documents ≡ some started_document
unfolding lookup
started_found = refl

batch_found : lookup "batch-1" world.batches ≡ some batch
unfolding lookup
batch_found = refl

batch_processing : has_status processing batch ≡ true
unfolding has_status
batch_processing = refl

done_stored : StatusAt "b.pdf" success world
done_stored = record { item = done_document; found = done_found; has_status = refl }

abbrev no_job : String → Option String
no_job arn = none

abbrev after_two_writes : World
after_two_writes =
    (process_stale_record no_job ("b.pdf", started_document)
      (write_terminal_status env (update "b.pdf" ProcessStatus.failed) (some "batch-1") none none
        world).1).1

status_stays_example : StatusAt "b.pdf" success after_two_writes
status_stays_example =
    status_stays env no_job "b.pdf" success world after_two_writes success_classified done_stored (
      Writes.reap_one
        (Writes.classify Writes.start (update "b.pdf" ProcessStatus.failed) (some "batch-1") none
          none)
        ("b.pdf", started_document))

write-classified_example :
    write_terminal_status env (update "b.pdf" ProcessStatus.failed) (some "batch-1") none none world
    ≡ (returned tt, world)
write-classified_example =
    write-classified env (update "b.pdf" ProcessStatus.failed) (some "batch-1") none none world
      done_document success done_found refl success_classified refl

started_open : is_open (document_or_empty (lookup "a.pdf" world.documents)) ≡ true
started_open =
    ap (λ o. is_open (document_or_empty o)) started_found
    ∙ ddb_non_terminal_condition-is_classified started
    ∙ ap not started_classified

write-open_example :
    write_terminal_status env (update "a.pdf" success) (some "batch-1") none none world
    ≡ (counted (some "batch-1") >> method_response env (update "a.pdf" success) none none)
        (landed env (update "a.pdf" success) world)
write-open_example =
    write-open env (update "a.pdf" success) world (some "batch-1") none none started_open
      success_classified refl

increment_lem_example : increment_resolved_count "batch-1" world ≡ (
  returned tt,
  record world {
    batches =
        insert "batch-1"
          (after_one world.now (jobs_of "batch-1" world.documents) batch)
          world.batches;
  },
)
increment_lem_example = increment_lem "batch-1" world batch batch_found batch_processing

after_three : World
after_three =
    (increment_resolved_count "batch-1"
      (increment_resolved_count "batch-1" (increment_resolved_count "batch-1" world).1).1).1

three-Calls : Calls "batch-1" 3 world after_three
unfolding after_three
three-Calls = Calls.resolve (Calls.resolve (Calls.resolve Calls.start))

Calls-count_example :
    (b' : Batch) × (lookup "batch-1" after_three.batches ≡ some b') × Counted 2 (3 + 0) b'
Calls-count_example =
    Calls-count 2 "batch-1" 3 world after_three batch three-Calls 0 batch_found
      (counting batch_processing refl refl (omega arith))

stale_found : Memᴰ ("a.pdf", started_document) (find_stale_records world)
unfolding find_stale_records
stale_found = Memᴰ.head refl

timed_out_verdict : verdict no_job started_document ≢ left_alone
unfolding verdict
timed_out_verdict e = cc e

main-IsFinal_example : IsFinal "a.pdf" (main no_job world).1
main-IsFinal_example =
    main-IsFinal no_job world ("a.pdf", started_document) stale_found timed_out_verdict

write_without_map_example :
    write_terminal_status env (update "a.pdf" success) (some "batch-1") none (some bda) world ≡ (
      raised validation_error,
      (write_terminal_status env (update "a.pdf" success) (some "batch-1") none none world).1,
    )
write_without_map_example =
    write_without_map env (update "a.pdf" success) (some "batch-1") none bda world started_open
      success_classified refl
      (ap (λ o. (document_or_empty o).api_responses_by_method) started_found)

not_started_yet : not_started ≢ started
not_started_yet e = cc e

claims_exclusive_example :
    let w' = claim_result "a.pdf" started world in
    ((set_processing_status_started "a.pdf" started world).0 ≡ returned true)
    × (lookup "a.pdf" w'.documents ≡ some (claimed started_document))
    × (set_processing_status_started "a.pdf" not_started w' ≡ (returned false, w'))
claims_exclusive_example =
    claims_exclusive "a.pdf" started not_started world started_document started_found refl
      not_started_yet

abbrev no_match : BdaResult
no_match = record {
  extraction_result = none;
  matched_blueprint_name = "";
  matched_blueprint_confidence = none;
  document_type = none;
  alphanumerics = 51;
}

pipeline_refused_example :
    (run_bda_result_pipeline env
      (some "s3://out/a.json")
      (some ("a.pdf", started_document))
      (some no_match)
      none
      world).0
    ≡ raised validation_error
pipeline_refused_example =
    pipeline_refused env "s3://out/a.json" "a.pdf" started_document no_match none world refl
      started_found (ddb_non_terminal_condition-is_classified started ∙ ap not started_classified)
      refl

create_batch_lem_example :
    let w' = (create_batch "batch-2" 3 none processing none none world).1 in
    ((create_batch "batch-2" 3 none processing none none world).0 ≡ (
      if is_some (lookup "batch-2" world.batches)
      then raised (http_error 409)
      else returned world.now))
    × (create_batch "batch-2" 4 none processing none none w' ≡ (raised (http_error 409), w'))
create_batch_lem_example =
    create_batch_lem "batch-2" 3 4 none none processing processing none none none none world

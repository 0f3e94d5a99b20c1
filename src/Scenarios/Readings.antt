-- ===== src/Scenarios/Readings.antt =====
-- A result of the extraction service, a client that waits, and a cache in use.
use strata_documentai_api_en.Prelude.{
  ℕ, zero, suc, ◌<◌, ◌≡◌, refl, true, false, String, none, some, List, [], ◌∷◌, is_some, arith,
  false,
}
use strata_documentai_api_en.Status.{success}
use strata_documentai_api_en.Document.{ScoreMap, V1Response, V1JobStatus}
use strata_documentai_api_en.Response.{base_response}
use strata_documentai_api_en.Reader.{
  FieldData, Entries, end, entry, field, group, other, read_bda_output, empty_result,
  get_missing_geometry_threshold,
}
use strata_documentai_api_en.Reader.Fields.{
  collect, any_field, score_map_of, is_blank, name_of, is_ungrounded, counts, score_of,
  read-add_all, read_classes, fields_of_items, add_all,
}
use strata_documentai_api_en.Poll.{
  Observation, poll_for_completion, poll_loop, try_once, goes_round, answers, from_v1, read_failed,
  job,
}
use strata_documentai_api_en.Poll.Ends.{poll_answers, poll_ends}
use strata_documentai_api_en.Cache.Refines.{
  Operation, adds, gets, outputs, described_outputs, outputs_lem,
}
use strata_documentai_api_en.Doubles.{to_double, mean_of}
use strata_documentai_api_en.Confidence.{
  all_scores, scores_of, is_below, calculate_average_non_empty_confidence,
}
use strata_documentai_api_en.Store.Actions.{returned}
use strata_documentai_api_en.Scenarios.Data.{env, world, done_document}

abbrev wages : FieldData
wages = record { confidence = some 9000; value = some "12"; field_type = none; geometry = none }

abbrev name : FieldData
name = record { confidence = some 8000; value = some ""; field_type = none; geometry = none }

abbrev items : List Entries
items =
    entry "Wages" (field wages)
      (entry "Employee" (group (entry "Name" (field name) end)) (entry "Pages" other end))
    ∷ []

read-add_all_example :
    read_bda_output true (some items) false
    ≡ add_all (get_missing_geometry_threshold true) false (fields_of_items items) empty_result
read-add_all_example = read-add_all true items false

read_classes_example :
    let r = read_bda_output true (some items) false in
    let fs = fields_of_items items in
    (r.field_confidence_map_list ≡ collect any_field score_map_of fs)
    × (r.empty_fields ≡ collect is_blank name_of fs)
    × (r.fields_missing_geometry
        ≡ collect (is_ungrounded (get_missing_geometry_threshold true)) name_of fs)
    × (r.confidence_scores ≡ collect (counts (get_missing_geometry_threshold true)) score_of fs)
read_classes_example = read_classes true items false

abbrev response : V1Response
response = base_response done_document V1JobStatus.completed "Document processed successfully"

abbrev done : Observation
done = job (record {
  object_key = some "b.pdf";
  process_status = some success;
  v1_response_json = some response;
  built = none;
})

abbrev observe : ℕ → Observation
observe zero = read_failed
observe (suc n) = done

first_round : (i : ℕ) → i < 1 → try_once false (observe i) ≡ goes_round
unfolding try_once
first_round zero h = refl
first_round (suc i) h = let bad : ⊥ = omega (arith, h) in elim bad [ ]

second_answers : try_once false (observe 1) ≡ answers response
unfolding try_once
second_answers = refl

abbrev message : ℕ → String
message n = "Processing did not complete in time"

poll_answers_example :
    poll_for_completion env message observe false 60 world ≡ (returned (from_v1 response), world)
poll_answers_example =
    poll_answers env message observe false 60 1 response world first_round second_answers
      (omega arith)

poll_ends_example : is_some (poll_loop observe false 60 (suc 60) 0 0 none) ≡ true
poll_ends_example = poll_ends observe false 60

abbrev operations : List (ℕ × Operation String)
operations = (0, adds "a" "1" 5) ∷ (100, gets "a") ∷ (40000, gets "a") ∷ (0, gets "a") ∷ []

outputs_lem_example : outputs 0 operations [] ≡ described_outputs 0 operations (λ k. none)
outputs_lem_example = outputs_lem 0 operations

abbrev scored : ScoreMap
scored = record { first = ("Wages", 7000); others = ("Name", 100) ∷ [] }

-- In floats the mean of three scores of 0.7 is below 0.7.
equal_scores_below :
    is_below
      (calculate_average_non_empty_confidence (scored ∷ scored ∷ scored ∷ []) ("Name" ∷ []) [])
      7000
    ≡ true
unfolding is_below calculate_average_non_empty_confidence all_scores scores_of to_double mean_of
equal_scores_below = refl

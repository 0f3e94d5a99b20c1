-- ===== src/Classify/Methods.antt =====
-- The response by extraction method, where the document has no map for it.
use strata_documentai_api_en.Prelude.{
  ℕ, String, ◌≡◌, refl, sym, ap, ◌∙◌, Bool, true, Option, none, some, lookup, lookup-insert_self,
}
use strata_documentai_api_en.Status.{is_classified, ExtractMethod}
use strata_documentai_api_en.Document.{
  Document, UpdateDdbRecord, ClassificationData, InternalApiResponse, ExtractionResult,
}
use strata_documentai_api_en.Response.{truthy}
use strata_documentai_api_en.Timing.{
  TimingUpdates, no_updates, starts, completes, apply_timing, build_timing_updates,
}
use strata_documentai_api_en.Ddb.{
  apply_data, apply_internal_response, with_arn, apply_invocation, apply_update, written, uri_of,
}
use strata_documentai_api_en.Classify.{
  write_terminal_status, is_open, is_authoritative, counted, method_response,
}
use strata_documentai_api_en.Classify.Responses.{write_extract_method_response}
use strata_documentai_api_en.Classify.Landing.{landed, landed_document, write-open, stored}
use strata_documentai_api_en.Finality.Stays.{counted_returned, counted-documents}
use strata_documentai_api_en.Store.Keeps.{bind_returned}
use strata_documentai_api_en.Store.{document_or_empty}
use strata_documentai_api_en.Store.State.{World, Env}
use strata_documentai_api_en.Store.Actions.{raised, validation_error}

-- What an update leaves of the map of responses by method: all of it.
abbrev IsKept : (Document → Document) → Type 0
IsKept f = (d : Document) → (f d).api_responses_by_method ≡ d.api_responses_by_method

data-IsKept : (geo : Bool) (c : Option ClassificationData) → IsKept (apply_data geo c)
unfolding apply_data
data-IsKept geo none d = refl
data-IsKept geo (some c) d = refl

internal-IsKept : (r : Option InternalApiResponse) → IsKept (apply_internal_response r)
unfolding apply_internal_response
internal-IsKept none d = refl
internal-IsKept (some r) d = refl

arn-IsKept : (arn : Option String) (u : UpdateDdbRecord) → IsKept (with_arn arn u)
arn-IsKept none u d = refl
arn-IsKept (some arn) u d = refl

invocation-IsKept : (u : UpdateDdbRecord) → IsKept (apply_invocation u)
unfolding apply_invocation
invocation-IsKept u d = arn-IsKept (truthy u.bda_invocation_arn) u d

update-IsKept : (geo : Bool) (now : ℕ) (u : UpdateDdbRecord) → IsKept (apply_update geo now u)
unfolding apply_update
update-IsKept geo now u d =
    invocation-IsKept u
      (apply_internal_response u.internal_api_response (apply_data geo u.classification d))
    ∙ internal-IsKept u.internal_api_response (apply_data geo u.classification d)
    ∙ data-IsKept geo u.classification d

timing-IsKept : (t : TimingUpdates) → IsKept (apply_timing t)
unfolding apply_timing
timing-IsKept no_updates d = refl
timing-IsKept (starts now wait) d = refl
timing-IsKept (completes t times) d = refl

written-IsKept :
    (env : Env) (now : ℕ) (read : Option Document) (u : UpdateDdbRecord)
    → IsKept (written env now read u)
unfolding written
written-IsKept env now read u d =
    timing-IsKept
      (build_timing_updates env.last_modified now read u.status (uri_of u.classification))
      (apply_update env.missing_geo now u d)
    ∙ update-IsKept env.missing_geo now u d

response_refused :
    (env : Env) (r : UpdateDdbRecord) (result : Option ExtractionResult) (m : ExtractMethod)
    (w : World) (d : Document)
    → lookup r.object_key w.documents ≡ some d
    → d.api_responses_by_method ≡ none
    → method_response env r result (some m) w ≡ (raised validation_error, w)
unfolding write_extract_method_response
response_refused env r result m w d h e = rw (stored env r w d h) (rw (h, e))

-- Where the document is open and holds no map of responses by method, the write of a classified
-- status by an authoritative method ends with DynamoDB's validation error, after everything else is
-- done: the document is as if the method had not been given, and the file is counted.
pub write_without_map :
    (env : Env) (r : UpdateDdbRecord) (batch_id : Option String) (result : Option ExtractionResult)
    (m : ExtractMethod) (w : World)
    → is_open (document_or_empty (lookup r.object_key w.documents)) ≡ true
    → is_classified r.status ≡ true
    → is_authoritative (some m) ≡ true
    → (document_or_empty (lookup r.object_key w.documents)).api_responses_by_method ≡ none
    → write_terminal_status env r batch_id result (some m) w
      ≡ (raised validation_error, (write_terminal_status env r batch_id result none w).1)
write_without_map env r batch_id result m w o c a n =
    let v = (counted batch_id (landed env r w)).1 in
    let found : lookup r.object_key v.documents ≡ some (landed_document env r w) =
      ap (lookup r.object_key) (counted-documents batch_id (landed env r w))
      ∙ lookup-insert_self r.object_key _ w.documents in
    let no_map : (landed_document env r w).api_responses_by_method ≡ none =
      written-IsKept env w.now (lookup r.object_key w.documents) r
        (document_or_empty (lookup r.object_key w.documents))
      ∙ n in
    write-open env r w batch_id result (some m) o c a
    ∙ bind_returned (counted batch_id) (λ _. method_response env r result (some m)) (landed env r w)
        tt (counted_returned batch_id (landed env r w))
    ∙ response_refused env r result m v (landed_document env r w) found no_map
    ∙ ap (λ (x : World). (raised validation_error, x))
        (sym (
          ap (λ r. r.1)
            (write-open env r w batch_id result none o c refl
              ∙ bind_returned (counted batch_id) (λ _. method_response env r result none)
                  (landed env r w) tt (counted_returned batch_id (landed env r w)))))

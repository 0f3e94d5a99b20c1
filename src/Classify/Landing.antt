-- ===== src/Classify/Landing.antt =====
-- What the write of a terminal status leaves behind where the document was still open.
use strata_documentai_api_en.Prelude.{
  inr, inl, Bool-cases, ◌++◌, ◌&&◌, if◌then◌else◌, String, ◌≡◌, true, Option, some, [], ◌∷◌, lookup,
  lookup-insert_self, insert-insert, insert, or_else,
}
use strata_documentai_api_en.Status.{is_classified, ExtractMethod}
use strata_documentai_api_en.Document.{UpdateDdbRecord, ExtractionResult, Document, V1Response}
use strata_documentai_api_en.Response.{build_v1_api_response}
use strata_documentai_api_en.Ddb.{update_ddb, send_record_to_metrics_queue, written, is_sent}
use strata_documentai_api_en.Classify.Responses.{stored_v1_response, finalize_v1_response}
use strata_documentai_api_en.Classify.{
  update_ddb, write_terminal_status, is_open, is_authoritative, counted, method_response,
}
use strata_documentai_api_en.Store.{document_or_empty}
use strata_documentai_api_en.Store.State.{World, Env}
use strata_documentai_api_en.Store.Actions.{◌>>◌, returned}

abbrev pub queue_after : Env → String → Document → World → World
queue_after env key d w = record w {
  metrics_queue =
      if env.has_metrics_queue && is_sent (some d)
      then w.metrics_queue ++ (key ∷ [])
      else w.metrics_queue;
}

pub sent :
    (env : Env) (key : String) (w : World) (d : Document)
    → lookup key w.documents ≡ some d
    → send_record_to_metrics_queue env key w ≡ (returned tt, queue_after env key d w)
unfolding send_record_to_metrics_queue
sent env key w d h = elim (Bool-cases env.has_metrics_queue) [
  | inl q ↦ elim (Bool-cases (is_sent (some d))) [ inl i ↦ rw (h, q, i) | inr i ↦ rw (h, q, i) ]
  | inr q ↦ rw q
]

abbrev v1_of : Env → UpdateDdbRecord → Document → V1Response
v1_of env r d =
    build_v1_api_response env.rules env.missing_geo (env.output_fields d) d r.status
      r.classification r.error_message

abbrev pub with_v1 : Env → UpdateDdbRecord → Document → Document
with_v1 env r d = record d {
  v1_api_response_json = some (v1_of env r d);
  response_code = or_else (v1_of env r d).response_code d.response_code;
}

pub stored :
    (env : Env) (r : UpdateDdbRecord) (w : World) (d : Document)
    → lookup r.object_key w.documents ≡ some d
    → stored_v1_response env r.object_key r.status r.classification r.error_message w
      ≡ (returned (v1_of env r d), w)
unfolding stored_v1_response
stored env r w d h = rw h

pub finalized :
    (env : Env) (r : UpdateDdbRecord) (w : World) (d : Document)
    → lookup r.object_key w.documents ≡ some d
    → finalize_v1_response env r.object_key r.status r.classification r.error_message w
      ≡ (returned tt, record w { documents = insert r.object_key (with_v1 env r d) w.documents })
unfolding finalize_v1_response
finalized env r w d h = rw (stored env r w d h) (rw h)

module _ (env : Env) (r : UpdateDdbRecord) (w : World) where
  -- the document after the conditional write
  abbrev pub updated_document : Document
  updated_document =
      written env w.now (lookup r.object_key w.documents) r
        (document_or_empty (lookup r.object_key w.documents))

  -- and with the response that the record then determines
  abbrev pub landed_document : Document
  landed_document = with_v1 env r updated_document

  abbrev pub landed : World
  landed =
      queue_after env r.object_key updated_document
        (record w { documents = insert r.object_key landed_document w.documents })

  update-open :
      is_open (document_or_empty (lookup r.object_key w.documents)) ≡ true
      → is_classified r.status ≡ true
      → update_ddb env r is_open w ≡ (
        returned tt,
        queue_after env r.object_key updated_document
            (record w { documents = insert r.object_key updated_document w.documents }),
      )
  unfolding update_ddb
  update-open o c =
      rw (o, c)
        (sent env r.object_key _ updated_document (lookup-insert_self r.object_key _ w.documents))

  -- Where the document is open or does not exist, and the status is a classified one, the write of a
  -- terminal status puts the record and the response that is built from it into the document, sends
  -- the document to the metrics queue, if one is configured, unless it is a comparison, and then goes on
  -- to count the file and to write the response by method, whatever these do. The extraction method is
  -- any but the mapping by a model.
  pub write-open :
      (batch_id : Option String) (result : Option ExtractionResult) (method : Option ExtractMethod)
      → is_open (document_or_empty (lookup r.object_key w.documents)) ≡ true
      → is_classified r.status ≡ true
      → is_authoritative method ≡ true
      → write_terminal_status env r batch_id result method w
        ≡ (counted batch_id >> method_response env r result method) landed
  unfolding write_terminal_status
  write-open batch_id result method o c a =
      let u = update-open o c in
      let f =
        finalized env r
          (queue_after env r.object_key updated_document
            (record w { documents = insert r.object_key updated_document w.documents }))
          updated_document (lookup-insert_self r.object_key _ w.documents) in
      rw a (rw u (rw f (rw insert-insert)))

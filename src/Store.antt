-- ===== src/Store.antt =====
-- The state that the pipeline shares, the two DynamoDB tables and the metrics queue, and the calls of
-- documentai-api/src/documentai_api/services/ddb.py on it. That file passes a call on to DynamoDB, so
-- the operations here are the service's documented behaviour: an update of an absent item creates it,
-- a failed condition raises and writes nothing. A call that fails for another reason (a network
-- error, throttling) is not modelled.
pub mod State
pub mod Actions
pub mod Keeps
use strata_documentai_api_en.Prelude.{
  String, Bool, true, Option, none, some, lookup, insert, if◌then◌else◌,
}
use strata_documentai_api_en.Document.{Document, empty_document}
use State.{World, Batch, empty_batch}
use Actions.{Action, returned, raised, conditional_check_failed}

abbrev pub document_or_empty : Option Document → Document
document_or_empty none = empty_document
document_or_empty (some d) = d

abbrev pub batch_or_empty : Option Batch → Batch
batch_or_empty none = empty_batch
batch_or_empty (some b) = b

abbrev pub always {ℓ} : {A : Type ℓ} → A → Bool
always a = true

unfoldable pub get_document : String → Action (Option Document)
get_document key w = (returned (lookup key w.documents), w)

unfoldable pub update_document :
    String → (Document → Document) → (Document → Bool) → Action (Unit {0})
update_document key f condition w =
    let d = document_or_empty (lookup key w.documents) in
    if condition d
    then (returned tt, record w { documents = insert key (f d) w.documents })
    else (raised conditional_check_failed, w)

unfoldable pub get_batch_item : String → Action (Option Batch)
get_batch_item key w = (returned (lookup key w.batches), w)

-- Returns the item as it is after the update.
unfoldable pub update_batch : String → (Batch → Batch) → (Batch → Bool) → Action Batch
update_batch key f condition w =
    let b = batch_or_empty (lookup key w.batches) in
    if condition b
    then (returned (f b), record w { batches = insert key (f b) w.batches })
    else (raised conditional_check_failed, w)

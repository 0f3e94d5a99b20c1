-- ===== src/Lifecycle/Upload/Staying.antt =====
-- What is left of the record that an upload writes when the processor has written its own.
use strata_documentai_api_en.Prelude.{
  is_true, or_else, ℕ, String, ◌≡◌, refl, sym, ap, ◌∙◌, subst, Bool, true, false, Option, none,
  some, List, [], lookup, lookup-insert_self, insert, if_both,
}
use strata_documentai_api_en.Document.{
  V1Response, Document, empty_document, update_record, UpdateDdbRecord,
}
use strata_documentai_api_en.Classify.Landing.{finalized, with_v1}
use strata_documentai_api_en.Lifecycle.Initial.{
  map_if, Arrival, Decided, decide, goes_on, apply_initial, upsert_initial_ddb_record,
  finish_initial, continues, ends, PreExtractionResult,
}
use strata_documentai_api_en.Lifecycle.Counted.{counted_world, shared-counted_world}
use strata_documentai_api_en.Lifecycle.Arrivals.{
  upserted_world, recorded, record_world, record_of, upserted,
}
use strata_documentai_api_en.Store.{document_or_empty}
use strata_documentai_api_en.Store.State.{World, Env}
use strata_documentai_api_en.Store.Actions.{Action, Outcome, pure, proceed}
use strata_documentai_api_en.Lifecycle.Upload.{
  DocumentRecord, consent, minimal_record, insert_minimal_ddb_record,
}

abbrev compare_map {ℓ} : {A : Type ℓ} → Bool → Option (List A)
compare_map true = some []
compare_map false = none

-- What the upload `u` at the time `t` wrote is in the document.
pub record IsUploaded (u : DocumentRecord) (t : ℕ) (d : Document) : Type 0 where
  pub creation : d.created_at ≡ some t
  pub tenant : d.tenant_id ≡ some u.tenant_id
  pub comparison : d.is_compare ≡ some u.is_compare
  pub consented : d.ai_consent_flag ≡ some (consent u.ai_consent_flag)
  pub map_exists : d.api_responses_by_method ≡ compare_map u.is_compare

pub record UploadedAt (u : DocumentRecord) (t : ℕ) (w : World) : Type 0 where
  pub item : Document
  pub found : lookup u.ddb_key w.documents ≡ some item
  pub is_uploaded : IsUploaded u t item

map_of_new : (b : Bool) → map_if {A = String × V1Response} (is_true (some b)) none ≡ compare_map b
map_of_new true = refl
map_of_new false = refl

minimal-IsUploaded :
    (u : DocumentRecord) (t : ℕ)
    → IsUploaded u t (apply_initial t (minimal_record u) empty_document)
unfolding apply_initial
minimal-IsUploaded u t = record {
  creation = refl;
  tenant = refl;
  comparison = refl;
  consented = refl;
  map_exists = map_of_new u.is_compare;
}

record-IsUploaded :
    (u : DocumentRecord) (t : ℕ) (a : Arrival) (v : World) (d : Document)
    → IsUploaded u t d
    → IsUploaded u t (apply_initial v.now (record_of a v) d)
unfolding apply_initial
record-IsUploaded u t a v d p = record {
  creation = ap (λ o. or_else o (some v.now)) p.creation;
  tenant = p.tenant;
  comparison = p.comparison;
  consented = ap (λ o. or_else o (some true)) p.consented;
  map_exists = p.map_exists;
}

v1-IsUploaded :
    (u : DocumentRecord) (t : ℕ) (env : Env) (r : UpdateDdbRecord) (d : Document)
    → IsUploaded u t d
    → IsUploaded u t (with_v1 env r d)
v1-IsUploaded u t env r d p = record {
  creation = p.creation;
  tenant = p.tenant;
  comparison = p.comparison;
  consented = p.consented;
  map_exists = p.map_exists;
}

module _ (u : DocumentRecord) (t : ℕ) where
  put-UploadedAt :
      (key : String) (d : Document) (w : World)
      → key ≡ u.ddb_key
      → IsUploaded u t d
      → UploadedAt u t (record w { documents = insert key d w.documents })
  put-UploadedAt key d w e p = record {
    item = d;
    found =
        ap (λ k. lookup k (insert key d w.documents)) (sym e)
        ∙ lookup-insert_self key d w.documents;
    is_uploaded = p;
  }

  moved-UploadedAt : (v w : World) → v.documents ≡ w.documents → UploadedAt u t w → UploadedAt u t v
  moved-UploadedAt v w e p = record {
    item = p.item;
    found = ap (lookup u.ddb_key) e ∙ p.found;
    is_uploaded = p.is_uploaded;
  }

  ends-UploadedAt :
      (env : Env) (a : Arrival) (d : Decided) (w : World)
      → a.ddb_key ≡ u.ddb_key
      → UploadedAt u t w
      → UploadedAt u t (ends env a d w).1
  ends-UploadedAt env a d w e p =
      let r = update_record a.ddb_key d.process_status in
      subst
        (λ (o : Outcome (Unit {0}) × World).
          UploadedAt u t (proceed o.0 (λ _. pure {A = Option PreExtractionResult} none) o.1).1)
        (sym (finalized env r w p.item (ap (λ k. lookup k w.documents) e ∙ p.found)))
        (put-UploadedAt a.ddb_key (with_v1 env r p.item) w e
          (v1-IsUploaded u t env r p.item p.is_uploaded))

  finish-UploadedAt :
      (env : Env) (a : Arrival) (d : Decided) (w : World)
      → a.ddb_key ≡ u.ddb_key
      → UploadedAt u t w
      → UploadedAt u t (finish_initial env a d w).1
  finish-UploadedAt env a d w e p =
      if_both (λ (m : Action (Option PreExtractionResult)). UploadedAt u t (m w).1) (goes_on d)
        (continues d) (ends env a d) p (ends-UploadedAt env a d w e p)

  record-UploadedAt :
      (env : Env) (a : Arrival) (v : World)
      → a.ddb_key ≡ u.ddb_key
      → UploadedAt u t v
      → UploadedAt u t (record_world env a v)
  record-UploadedAt env a v e p =
      let d =
        apply_initial v.now (record_of a v) (document_or_empty (lookup a.ddb_key v.documents)) in
      moved-UploadedAt (record_world env a v)
        (record v { documents = insert a.ddb_key d v.documents }) refl
        (put-UploadedAt a.ddb_key d v e (
          record-IsUploaded u t a v (document_or_empty (lookup a.ddb_key v.documents)) (
            subst (IsUploaded u t)
              (sym (
                ap (λ k. document_or_empty (lookup k v.documents)) e
                ∙ ap document_or_empty p.found))
              p.is_uploaded)))

module _ (env : Env) (u : DocumentRecord) (a : Arrival) where
  initial-UploadedAt :
      (t : ℕ) (w : World)
      → a.ddb_key ≡ u.ddb_key
      → UploadedAt u t w
      → UploadedAt u t (upsert_initial_ddb_record env a w).1
  unfolding upsert_initial_ddb_record
  initial-UploadedAt t w e p =
      let v = counted_world a w in
      subst
        (λ (r : Outcome (Unit {0}) × World).
          UploadedAt u t (proceed r.0 (λ _. finish_initial env a (decide a)) r.1).1)
        (sym (recorded env a w))
        (finish-UploadedAt u t env a (decide a) (record_world env a v) e (
          record-UploadedAt u t env a v e
            (moved-UploadedAt u t v w (ap (λ s. s.0) (shared-counted_world a w)) p)))

  minimal-UploadedAt :
      (w : World)
      → lookup u.ddb_key w.documents ≡ none
      → UploadedAt u w.now (insert_minimal_ddb_record env u w).1
  unfolding insert_minimal_ddb_record
  minimal-UploadedAt w n =
      subst (λ r. UploadedAt u w.now r.1) (sym (upserted env (minimal_record u) w))
        (let d =
            apply_initial w.now (minimal_record u)
              (document_or_empty (lookup u.ddb_key w.documents)) in
          moved-UploadedAt u w.now (upserted_world env (minimal_record u) w)
            (record w { documents = insert u.ddb_key d w.documents }) refl
            (put-UploadedAt u w.now u.ddb_key d w refl (
              subst (λ d. IsUploaded u w.now (apply_initial w.now (minimal_record u) d))
                (sym (ap document_or_empty n)) (minimal-IsUploaded u w.now))))

  -- What the upload of a new document writes stays when the processor writes the document's first
  -- record, whatever it decides: the time of creation, the tenant, whether it is a comparison, and the
  -- consent. The map of responses by method exists then for a comparison and for no other document.
  -- Between the two the clock and all but the documents may change.
  pub upload_stays :
      (w v : World)
      → a.ddb_key ≡ u.ddb_key
      → lookup u.ddb_key w.documents ≡ none
      → v.documents ≡ (insert_minimal_ddb_record env u w).1.documents
      → UploadedAt u w.now (upsert_initial_ddb_record env a v).1
  upload_stays w v e n k =
      initial-UploadedAt w.now v e (
        moved-UploadedAt u w.now v (insert_minimal_ddb_record env u w).1 k (minimal-UploadedAt w n))

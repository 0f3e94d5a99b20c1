-- ===== src/Documents/Presigned.antt =====
-- documentai-api/src/documentai_api/routers/presigned.py: an upload that the client makes itself, to an address that
-- is signed for it. The configuration and the outcome of the signing are part of the request; the
-- identifier that traces the request, the metadata and the policy of the address are left out.
use strata_documentai_api_en.Scenarios.Data.{env}
use strata_documentai_api_en.Prelude.{
  String, ◌≡◌, refl, Bool, false, ◌∙◌, inl, inr, Option, none, some, joined, has_text, text_in,
  lookup, lookup-insert_self, if◌then◌else◌, if_both, Bool-cases, subst, sym,
}
use strata_documentai_api_en.Status.{pending_upload}
use strata_documentai_api_en.Quota.{TenantLimits}
use strata_documentai_api_en.FileValidation.{no_conversion_needed}
use strata_documentai_api_en.Lifecycle.Upload.{
  DocumentRecord, minimal_record, insert_minimal_ddb_record,
}
use strata_documentai_api_en.BatchUpload.{charge}
use strata_documentai_api_en.Store.State.{World, Env}
use strata_documentai_api_en.Store.Actions.{
  raised, returned, Outcome, Action, http_error, value_error, pure, raise, attempt, ◌>>◌, proceed,
}
use strata_documentai_api_en.Documents.Upload.{inserted}
use strata_documentai_api_en.Finality.{StatusAt}
use strata_documentai_api_en.Store.{document_or_empty}
use strata_documentai_api_en.Lifecycle.Arrivals.{upserted, apply_initial_status}
use strata_documentai_api_en.Lifecycle.Initial.{apply_initial}

-- Where uploads go, as configured.
pub data InputLocation : Type 0 where
  not_configured misconfigured configured : InputLocation

pub record PresignedRequest : Type 0 where
  pub tenant_id : String
  pub filename : String
  pub stem : String
  pub extension : String
  pub job_id : String
  pub content_type : String
  pub category : Option String
  pub ai_consent_flag : Bool
  pub input_location : InputLocation
  pub is_signed : Bool

abbrev pub presigned_key : PresignedRequest → String
presigned_key q = joined q.stem (joined "-" (joined q.job_id q.extension))

abbrev pub presigned_record : PresignedRequest → DocumentRecord
presigned_record q = record {
  ddb_key = presigned_key q;
  job_id = q.job_id;
  tenant_id = q.tenant_id;
  process_status = pending_upload;
  category = q.category;
  batch_id = none;
  ai_consent_flag = some q.ai_consent_flag;
  is_compare = false;
}

abbrev pub located : InputLocation → Action (Unit {0})
located configured = pure tt
located _ = raise (http_error 500)

-- a missing name is refused by `generate_unique_filename`
abbrev pub signed : PresignedRequest → Action (Unit {0})
signed q =
    if has_text (some q.filename)
    then if q.is_signed then pure tt else raise (http_error 500)
    else raise value_error

module _ (env : Env) (tenants : String → Option TenantLimits) (today : String) where
  -- what follows the checks of the request
  abbrev pub issued : PresignedRequest → Action String
  issued q =
      charge env tenants today q.tenant_id
      >> (located q.input_location
          >> (signed q
              >> (attempt (insert_minimal_ddb_record env (presigned_record q)) inserted
                  >> pure q.job_id)))

  -- The identifier of the job is what the answer tells of the record.
  unfoldable pub create_presigned_upload_url : PresignedRequest → Action String
  unfolding charge insert_minimal_ddb_record
  create_presigned_upload_url q =
      if text_in q.content_type no_conversion_needed
      then if q.ai_consent_flag then issued q else raise (http_error 400)
      else raise (http_error 400)

module _ (q : PresignedRequest) (w : World) where
  -- What is known of the records, for each outcome.
  abbrev pub PresignedEnds : Outcome String → World → Type 0
  PresignedEnds (returned job_id) v =
      (job_id ≡ q.job_id) × StatusAt (presigned_key q) pending_upload v
  PresignedEnds (raised e) v = v.documents ≡ w.documents

  kept_then :
      (m : Action (Unit {0})) (n : Action String) (v : World)
      → v.documents ≡ w.documents
      → (m v).1.documents ≡ v.documents
      → ((u : World) → u.documents ≡ w.documents → PresignedEnds (n u).0 (n u).1)
      → PresignedEnds ((m >> n) v).0 ((m >> n) v).1
  kept_then m n v d e k = ends (m v).0 (m v).1 (e ∙ d)
    where
      ends :
          (r : Outcome (Unit {0})) (u : World)
          → u.documents ≡ w.documents
          → PresignedEnds (proceed r (λ _. n) u).0 (proceed r (λ _. n) u).1
      ends (returned t) u i = k u i
      ends (raised e) u i = i

  located_keeps : (l : InputLocation) (v : World) → (located l v).1.documents ≡ v.documents
  located_keeps not_configured v = refl
  located_keeps misconfigured v = refl
  located_keeps configured v = refl

  signed_keeps : (v : World) → (signed q v).1.documents ≡ v.documents
  signed_keeps v = elim (Bool-cases (has_text (some q.filename))) [
    | inr nameless ↦ rw nameless refl
    | inl named ↦ elim (Bool-cases q.is_signed) [
      | inl s ↦ rw (named, s) refl
      | inr s ↦ rw (named, s) refl
    ]
  ]

  recorded_ends :
      (v : World)
      → let r =
          (attempt (insert_minimal_ddb_record env (presigned_record q)) inserted >> pure q.job_id)
            v in
        PresignedEnds r.0 r.1
  unfolding insert_minimal_ddb_record
  recorded_ends v =
      subst
        (λ (x : Outcome (Unit {0}) × World).
          let r = (attempt (λ v'. x) inserted >> pure q.job_id) v in PresignedEnds r.0 r.1)
        (sym (upserted env (minimal_record (presigned_record q)) v))
        (
          refl,
          record {
            item =
                apply_initial v.now (minimal_record (presigned_record q))
                  (document_or_empty (lookup (presigned_key q) v.documents));
            found = lookup-insert_self (presigned_key q) _ v.documents;
            has_status =
                apply_initial_status v.now (minimal_record (presigned_record q))
                  (document_or_empty (lookup (presigned_key q) v.documents));
          },
        )

  -- A request for an upload address either returns, and the record of its job waits for the upload; or it fails,
  -- and no record is touched.
  pub create_presigned_upload_url_lem :
      (env : Env) (tenants : String → Option TenantLimits) (today : String)
      → let r = create_presigned_upload_url env tenants today q w in PresignedEnds r.0 r.1
  unfolding create_presigned_upload_url charge
  create_presigned_upload_url_lem env tenants today =
      if_both (λ (m : Action String). PresignedEnds (m w).0 (m w).1)
        (text_in q.content_type no_conversion_needed) _ (raise (http_error 400))
        (if_both (λ (m : Action String). PresignedEnds (m w).0 (m w).1) q.ai_consent_flag
          (issued env tenants today q) (raise (http_error 400))
          (kept_then (charge env tenants today q.tenant_id) _ w refl refl (λ u d.
            kept_then (located q.input_location) _ u d (located_keeps q.input_location u)
              (λ u' d'. kept_then (signed q) _ u' d' (signed_keeps u') (λ v e. recorded_ends v))))
          refl)
        refl

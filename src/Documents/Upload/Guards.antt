-- ===== src/Documents/Upload/Guards.antt =====
-- What an upload does before it writes the record: its checks, and the count of the tenant's writes.
use strata_documentai_api_en.Prelude.{
  ℕ, String, ◌≡◌, refl, Bool, true, false, Option, none, some, inl, inr, Bool-cases, has_text, ltb,
}
use strata_documentai_api_en.Quota.{
  TenantLimits, Counts, count_on, exceeds, get_monthly_total, has_no_limit, add_one,
  increment_and_check, check_limits, check_tenant,
}
use strata_documentai_api_en.FileValidation.{validate_file_type, is_odt, is_supported}
use strata_documentai_api_en.BatchUpload.{charge}
use strata_documentai_api_en.Store.State.{World, Env}
use strata_documentai_api_en.Store.Actions.{
  conditional_check_failed, validation_error, value_error, runtime_error, retry_error, Outcome,
  Action, returned, raised, http_error, ◌>>=◌, when, proceed,
}
use strata_documentai_api_en.Documents.Upload.{UploadRequest, validate_upload, max_upload_size}

-- A result, or an HTTP error.
abbrev pub IsAnswer : {A : Type 0} → Outcome A → Type 0
IsAnswer (returned a) = Unit {0}
IsAnswer (raised (http_error code)) = Unit {0}
IsAnswer (raised e) = ⊥

-- The action answers, and leaves the documents as they are.
abbrev pub IsGuard : {A : Type 0} → Action A → Type 0
IsGuard m = (w : World) → IsAnswer (m w).0 × ((m w).1.documents ≡ w.documents)

validate_file_type-IsGuard : (detected : String) → IsGuard (validate_file_type detected)
unfolding validate_file_type
validate_file_type-IsGuard detected w = elim (Bool-cases (is_odt detected)) [
  | inl odt ↦ rw odt (tt, refl)
  | inr other ↦ elim (Bool-cases (is_supported detected)) [
    | inl supported ↦ rw (other, supported) (tt, refl)
    | inr unknown ↦ rw (other, unknown) (tt, refl)
  ]
]

pub validate_upload-IsGuard : (q : UploadRequest) → IsGuard (validate_upload q)
unfolding validate_upload
validate_upload-IsGuard q w = elim (Bool-cases (has_text q.filename)) [
  | inr nameless ↦ rw nameless (tt, refl)
  | inl named ↦ elim (Bool-cases (ltb max_upload_size q.size)) [
    | inl large ↦ rw (named, large) (tt, refl)
    | inr fits ↦ rw (named, fits) (validate_file_type-IsGuard q.detected w)
  ]
]

check_limits-IsAnswer :
    (limits : TenantLimits) (tenant_id today : String) (counts : Counts)
    → IsAnswer (check_limits limits tenant_id today counts).0
unfolding check_limits
check_limits-IsAnswer limits tenant_id today counts =
    let n = count_on tenant_id today counts in
    elim (Bool-cases (exceeds n limits.max_writes_per_day)) [
      | inl over ↦ rw over tt
      | inr within ↦
          elim (Bool-cases
            (exceeds (get_monthly_total tenant_id today n counts) limits.max_writes_per_month)) [
              | inl over ↦ rw (within, over) tt
              | inr fits ↦ rw (within, fits) tt
            ]
    ]

increment_and_check-IsAnswer :
    (limits : Option TenantLimits) (tenant_id today : String) (counts : Counts)
    → IsAnswer (check_tenant limits tenant_id today counts).0
increment_and_check-IsAnswer none tenant_id today counts = tt
increment_and_check-IsAnswer (some limits) tenant_id today counts =
    elim (Bool-cases (has_no_limit limits)) [
      | inl free ↦ rw free tt
      | inr limited ↦
          rw limited (check_limits-IsAnswer limits tenant_id today (add_one tenant_id today counts))
    ]

pub charge-IsGuard :
    (env : Env) (tenants : String → Option TenantLimits) (today tenant_id : String) (b : Bool)
    → IsGuard (when b (charge env tenants today tenant_id))
unfolding charge increment_and_check
charge-IsGuard env tenants today tenant_id true w =
    (increment_and_check-IsAnswer (tenants tenant_id) tenant_id today w.request_counts, refl)
charge-IsGuard env tenants today tenant_id false w = (tt, refl)

-- What holds of the end where the guard fails, and of what follows where it returns, holds of the end.
pub guarded :
    {A B : Type 0} (P : Outcome B → World → Type 0) (m : Action A) (n : A → Action B) (w : World)
    → IsGuard m
    → ((code : ℕ) (v : World) → v.documents ≡ w.documents → P (raised (http_error code)) v)
    → ((a : A) (v : World) → v.documents ≡ w.documents → P (n a v).0 (n a v).1)
    → P ((m >>= n) w).0 ((m >>= n) w).1
guarded {A = A} {B = B} P m n w g f k = ends (m w).0 (m w).1 (g w).0 (g w).1
  where
    ends :
        (r : Outcome A) (v : World)
        → IsAnswer r
        → v.documents ≡ w.documents
        → P (proceed r n v).0 (proceed r n v).1
    ends (returned a) v i e = k a v e
    ends (raised (http_error code)) v i e = f code v e
    ends (raised conditional_check_failed) v i e = elim i [ ]
    ends (raised validation_error) v i e = elim i [ ]
    ends (raised value_error) v i e = elim i [ ]
    ends (raised runtime_error) v i e = elim i [ ]
    ends (raised retry_error) v i e = elim i [ ]

-- ===== src/Quota.antt =====
-- documentai-api/src/documentai_api/utils/write_limit.py: the count of a tenant's writes for each day,
-- with a limit for the day and one for the month. The tenants table is the argument `tenants`, and
-- `today` the date. An item of the counts table stands under its tenant and its date; its time to
-- live is not modelled, nor a failure of the service other than of a condition. A call's reads and
-- writes are not interleaved with another's.
pub mod Limits
use text.Mathlib.Text.{starts_with}
use Prim.Native.String.{slice}
use strata_documentai_api_en.Prelude.{
  ℕ, zero, suc, ◌+◌, ◌-◌, String, Bool, true, false, Option, none, some, List, [], ◌∷◌, ltb, str_eq,
  if◌then◌else◌, lookup, insert, Table,
}
use strata_documentai_api_en.Batch.{or_zero}
use strata_documentai_api_en.Store.Actions.{Outcome, returned, raised, http_error}

pub record TenantLimits : Type 0 where
  pub max_writes_per_day : Option ℕ
  pub max_writes_per_month : Option ℕ

-- The counts by tenant, then by date.
abbrev pub Counts : Type 0
Counts = Table (Table ℕ)

abbrev or_empty : Option (Table ℕ) → Table ℕ
or_empty none = []
or_empty (some t) = t

unfoldable pub days_of : String → Counts → Table ℕ
days_of tenant_id counts = or_empty (lookup tenant_id counts)

unfoldable pub count_on : String → String → Counts → ℕ
unfolding days_of
count_on tenant_id date counts = or_zero (lookup date (days_of tenant_id counts))

abbrev set_count : String → String → ℕ → Counts → Counts
set_count tenant_id date n counts =
    insert tenant_id (insert date n (days_of tenant_id counts)) counts

-- `date[:7]`
unfoldable pub get_month_prefix : String → String
get_month_prefix date = slice date 0 7

-- `_query_month_items`
unfoldable pub query_month_items : String → Table ℕ → Table ℕ
query_month_items month_prefix [] = []
query_month_items month_prefix ((date, n) ∷ days) =
    let rest = query_month_items month_prefix days in
    if starts_with date month_prefix then (date, n) ∷ rest else rest

abbrev total_with : String → ℕ → Table ℕ → ℕ
total_with today today_count [] = 0
total_with today today_count ((date, n) ∷ days) =
    (if str_eq date today then today_count else n) + total_with today today_count days

-- `_get_monthly_total`
unfoldable pub get_monthly_total : String → String → ℕ → Counts → ℕ
unfolding days_of query_month_items get_month_prefix
get_monthly_total tenant_id today today_count counts =
    total_with today today_count
      (query_month_items (get_month_prefix today) (days_of tenant_id counts))

-- `_rollback`, under the condition that the count is not zero; one that fails is ignored.
unfoldable pub rollback : String → String → Counts → Counts
unfolding count_on
rollback tenant_id today counts =
    if ltb 0 (count_on tenant_id today counts)
    then set_count tenant_id today (count_on tenant_id today counts - 1) counts
    else counts

unfoldable pub decrement : String → String → Counts → Counts
unfolding rollback
decrement tenant_id date counts = rollback tenant_id date counts

abbrev pub exceeds : ℕ → Option ℕ → Bool
exceeds n none = false
exceeds n (some limit) = ltb limit n

abbrev pub has_no_limit : TenantLimits → Bool
has_no_limit t = elim t.max_writes_per_day [
  | some n ↦ false
  | none ↦ elim t.max_writes_per_month [ some n ↦ false | none ↦ true ]
]

-- What follows the atomic increment, on the counts after it.
unfoldable pub check_limits : TenantLimits → String → String → Counts → Outcome (Unit {0}) × Counts
unfolding count_on get_monthly_total rollback
check_limits limits tenant_id today counts =
    let new_count = count_on tenant_id today counts in
    if exceeds new_count limits.max_writes_per_day
    then (raised (http_error 429), rollback tenant_id today counts)
    else if exceeds (get_monthly_total tenant_id today new_count counts) limits.max_writes_per_month
    then (raised (http_error 429), rollback tenant_id today counts)
    else (returned tt, counts)

abbrev pub add_one : String → String → Counts → Counts
add_one tenant_id today counts =
    set_count tenant_id today (suc (count_on tenant_id today counts)) counts

abbrev pub check_tenant :
    Option TenantLimits → String → String → Counts → Outcome (Unit {0}) × Counts
check_tenant none tenant_id today counts = (returned tt, counts)
check_tenant (some limits) tenant_id today counts =
    if has_no_limit limits
    then (returned tt, counts)
    else check_limits limits tenant_id today (add_one tenant_id today counts)

unfoldable pub increment_and_check :
    (String → Option TenantLimits) → String → String → Counts → Outcome (Unit {0}) × Counts
unfolding check_limits
increment_and_check tenants tenant_id today counts =
    check_tenant (tenants tenant_id) tenant_id today counts

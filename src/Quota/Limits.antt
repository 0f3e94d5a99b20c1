-- ===== src/Quota/Limits.antt =====
-- What the check of a tenant's limits guarantees.
use strata_documentai_api_en.Prelude.{
  zero, ◌≤◌, ◌||◌, ℕ, suc, ◌-◌, String, ◌≡◌, refl, sym, ap, ◌∙◌, subst, Bool, true, false, Option,
  some, ltb, insert, lookup-insert_self, Bool-cases, arith, inl, inr,
}
use strata_documentai_api_en.Quota.{
  TenantLimits, Counts, count_on, days_of, set_count, rollback, exceeds, has_no_limit, check_limits,
  add_one, check_tenant, increment_and_check, get_monthly_total,
}
use strata_documentai_api_en.Store.Actions.{Outcome, returned, raised, http_error}

module _ (tenant_id date : String) where
  days_of-set_count :
      (n : ℕ) (counts : Counts)
      → days_of tenant_id (set_count tenant_id date n counts)
        ≡ insert date n (days_of tenant_id counts)
  unfolding days_of
  days_of-set_count n counts = rw (lookup-insert_self)

  pub count_on-set_count :
      (n : ℕ) (counts : Counts) → count_on tenant_id date (set_count tenant_id date n counts) ≡ n
  unfolding count_on
  count_on-set_count n counts = rw (days_of-set_count n counts, lookup-insert_self)

  rollback_positive :
      (counts : Counts)
      → ltb 0 (count_on tenant_id date counts) ≡ true
      → rollback tenant_id date counts
        ≡ set_count tenant_id date (count_on tenant_id date counts - 1) counts
  unfolding rollback
  rollback_positive counts h = rw h

  rollback_zero :
      (counts : Counts)
      → ltb 0 (count_on tenant_id date counts) ≡ false
      → rollback tenant_id date counts ≡ counts
  unfolding rollback
  rollback_zero counts h = rw h

  pub count_on-rollback :
      (counts : Counts)
      → count_on tenant_id date (rollback tenant_id date counts)
        ≡ count_on tenant_id date counts - 1
  count_on-rollback counts = elim (Bool-cases (ltb 0 (count_on tenant_id date counts))) [
    | inl y ↦
        ap (count_on tenant_id date) (rollback_positive counts y)
        ∙ count_on-set_count (count_on tenant_id date counts - 1) counts
    | inr n ↦ ap (count_on tenant_id date) (rollback_zero counts n) ∙ ground (arith, n)
  ]

  -- Taking back the increment restores the count.
  rollback-add_one :
      (counts : Counts)
      → count_on tenant_id date (rollback tenant_id date (add_one tenant_id date counts))
        ≡ count_on tenant_id date counts
  rollback-add_one counts =
      let c = count_on-rollback (add_one tenant_id date counts) in
      let e = count_on-set_count (suc (count_on tenant_id date counts)) counts in
      omega (arith, c, e)

-- What a call may do where the tenant has limits: it counts the write, and the count for the day and
-- the total of the month are within the limits; or it fails with 429, and the count is what it was,
-- at a point where one more write would have broken a limit.
pub data Checked (limits : TenantLimits) (tenant_id today : String) (before after : Counts)
    : Outcome (Unit {0}) → Type 0 where
  within :
      count_on tenant_id today after ≡ suc (count_on tenant_id today before)
      → exceeds (count_on tenant_id today after) limits.max_writes_per_day ≡ false
      → exceeds
          (get_monthly_total tenant_id today (count_on tenant_id today after) after)
          limits.max_writes_per_month
        ≡ false
      → Checked limits tenant_id today before after (returned tt)
  beyond :
      count_on tenant_id today after ≡ count_on tenant_id today before
      → exceeds (suc (count_on tenant_id today before)) limits.max_writes_per_day
          || exceeds
              (get_monthly_total tenant_id today
                (suc (count_on tenant_id today before))
                (add_one tenant_id today before))
              limits.max_writes_per_month
        ≡ true
      → Checked limits tenant_id today before after (raised (http_error 429))

module _ (limits : TenantLimits) (tenant_id today : String) (counts : Counts) where
  abbrev over_day : Bool
  over_day = exceeds (count_on tenant_id today counts) limits.max_writes_per_day

  abbrev over_month : Bool
  over_month =
      exceeds (get_monthly_total tenant_id today (count_on tenant_id today counts) counts)
        limits.max_writes_per_month

  check_over_day :
      over_day ≡ true
      → check_limits limits tenant_id today counts
        ≡ (raised (http_error 429), rollback tenant_id today counts)
  unfolding check_limits
  check_over_day d = rw d

  check_over_month :
      over_day ≡ false
      → over_month ≡ true
      → check_limits limits tenant_id today counts
        ≡ (raised (http_error 429), rollback tenant_id today counts)
  unfolding check_limits
  check_over_month d m = rw (d, m)

  check_within :
      over_day ≡ false
      → over_month ≡ false
      → check_limits limits tenant_id today counts ≡ (returned tt, counts)
  unfolding check_limits
  check_within d m = rw (d, m)

module _ (limits : TenantLimits) (tenant_id today : String) (counts : Counts) where
  abbrev added : Counts
  added = add_one tenant_id today counts

  count_added : count_on tenant_id today added ≡ suc (count_on tenant_id today counts)
  count_added = count_on-set_count tenant_id today (suc (count_on tenant_id today counts)) counts

  over :
      over_day limits tenant_id today added || over_month limits tenant_id today added ≡ true
      → Checked limits tenant_id today counts
          (rollback tenant_id today added)
          (raised (http_error 429))
  over h = beyond (rollback-add_one tenant_id today counts) (
      subst
        (λ n.
          exceeds n limits.max_writes_per_day
            || exceeds (get_monthly_total tenant_id today n added) limits.max_writes_per_month
          ≡ true)
        count_added h)

  checked :
      let r = check_limits limits tenant_id today added in
      Checked limits tenant_id today counts r.1 r.0
  checked = elim (Bool-cases (over_day limits tenant_id today added)) [
    | inl d ↦
        subst (λ r. Checked limits tenant_id today counts r.1 r.0)
          (sym (check_over_day limits tenant_id today added d)) (over (rw d refl))
    | inr d ↦ elim (Bool-cases (over_month limits tenant_id today added)) [
      | inl m ↦
          subst (λ r. Checked limits tenant_id today counts r.1 r.0)
            (sym (check_over_month limits tenant_id today added d m)) (over (rw (d, m) refl))
      | inr m ↦
          subst (λ r. Checked limits tenant_id today counts r.1 r.0)
            (sym (check_within limits tenant_id today added d m)) (within count_added d m)
    ]
  ]

-- Of every call for a tenant that has a limit: either the write is counted, and the count of the day
-- and the total of the month are within the limits; or the call fails with 429, the count is what it
-- was, and one more write would have broken a limit.
pub increment_and_check_lem :
    (tenants : String → Option TenantLimits) (tenant_id today : String) (counts : Counts)
    (limits : TenantLimits)
    → tenants tenant_id ≡ some limits
    → has_no_limit limits ≡ false
    → let r = increment_and_check tenants tenant_id today counts in
      Checked limits tenant_id today counts r.1 r.0
unfolding increment_and_check
increment_and_check_lem tenants tenant_id today counts limits e h =
    subst (λ r. Checked limits tenant_id today counts r.1 r.0)
      (sym (ap (λ t. check_tenant t tenant_id today counts) e ∙ rw h))
      (checked limits tenant_id today counts)

-- The counts after `k` calls on one day.
abbrev pub after_calls : (String → Option TenantLimits) → String → String → ℕ → Counts → Counts
after_calls tenants tenant_id today zero counts = counts
after_calls tenants tenant_id today (suc k) counts =
    after_calls tenants tenant_id today k (increment_and_check tenants tenant_id today counts).1

at_most :
    (limits : TenantLimits) (tenant_id today : String) (before after : Counts) (limit : ℕ)
    (o : Outcome (Unit {0}))
    → limits.max_writes_per_day ≡ some limit
    → count_on tenant_id today before ≤ limit
    → Checked limits tenant_id today before after o
    → count_on tenant_id today after ≤ limit
at_most limits tenant_id today before after limit _ e h (within n d m) =
    let d' : exceeds (count_on tenant_id today after) (some limit) ≡ false =
      subst (λ l. exceeds (count_on tenant_id today after) l ≡ false) e d in
    ground (arith, d')
at_most limits tenant_id today before after limit _ e h (beyond n x) = omega (arith, n, h)

-- However many calls are made on a day, a count that starts within the limit for the day stays
-- within it.
pub after_calls_bound :
    (tenants : String → Option TenantLimits) (tenant_id today : String) (k : ℕ) (counts : Counts)
    (limits : TenantLimits) (limit : ℕ)
    → tenants tenant_id ≡ some limits
    → limits.max_writes_per_day ≡ some limit
    → count_on tenant_id today counts ≤ limit
    → count_on tenant_id today (after_calls tenants tenant_id today k counts) ≤ limit
after_calls_bound tenants tenant_id today zero counts limits limit t e h = h
after_calls_bound tenants tenant_id today (suc k) counts limits limit t e h =
    after_calls_bound tenants tenant_id today k
      (increment_and_check tenants tenant_id today counts).1 limits limit t e
      (at_most limits tenant_id today counts _ limit _ e h
        (increment_and_check_lem tenants tenant_id today counts limits t (rw e)))

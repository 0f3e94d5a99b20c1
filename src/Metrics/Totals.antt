-- ===== src/Metrics/Totals.antt =====
-- The numbers of a day, of a tenant and of a month against the records that they come from.
use strata_documentai_api_en.Prelude.{
  ℕ, ◌+◌, String, ◌≡◌, refl, ap, ◌∙◌, Option, List, [], ◌∷◌, ◌++◌, str_eq, lookup, Table,
  if◌then◌else◌, arith, filter_if, Bool-cases, inl, inr, lookup-insert, map,
}
use text.Mathlib.TextEquality.{eq_iff}
use strata_documentai_api_en.Metrics.{Readings, RawRecord, Stats, empty_stats, process_record}
use strata_documentai_api_en.Metrics.Aggregate.{
  tenant_of, stats_or_empty, add_for_tenant, process_all, finalize_all, aggregate_records,
}
use strata_documentai_api_en.Metrics.Summary.{merge, merge_all, build_summary}
use strata_documentai_api_en.Metrics.Merging.{
  read_counter-empty, read_counter-finalize_timing, read_counter-merge,
}
use strata_documentai_api_en.Metrics.Counters.{
  Counter, read_counter, worth, read_counter-process_record,
}

-- What records are worth to a number together.
abbrev pub total_worth : Readings → Counter → List RawRecord → ℕ
total_worth rd c [] = 0
total_worth rd c (r ∷ rs) = worth rd c r + total_worth rd c rs

total_worth-append :
    (rd : Readings) (c : Counter) (rs qs : List RawRecord)
    → total_worth rd c (rs ++ qs) ≡ total_worth rd c rs + total_worth rd c qs
total_worth-append rd c [] qs = omega arith
total_worth-append rd c (r ∷ rs) qs = omega (arith, total_worth-append rd c rs qs)

abbrev pub of_tenant : String → List RawRecord → List RawRecord
of_tenant tenant_id = filter_if (λ r. str_eq (tenant_of r) tenant_id)

-- A number of the statistics under a key; zero where there are none.
abbrev pub read_at : Counter → Option Stats → ℕ
read_at c o = read_counter c (stats_or_empty o)

module _ (rd : Readings) (c : Counter) where
  process_all-global :
      (rs : List RawRecord) (s : Stats) (t : Table Stats)
      → read_counter c (process_all rd rs s t).0 ≡ read_counter c s + total_worth rd c rs
  unfolding process_all
  process_all-global [] s t = omega arith
  process_all-global (r ∷ rs) s t = omega (
    arith,
    process_all-global rs (process_record rd r s) (add_for_tenant rd r t),
    read_counter-process_record rd r s c,
  )

  add_for_tenant-read :
      (tenant_id : String) (r : RawRecord) (t : Table Stats)
      → read_at c (lookup tenant_id (add_for_tenant rd r t))
        ≡ read_at c (lookup tenant_id t)
          + (if str_eq (tenant_of r) tenant_id then worth rd c r else 0)
  unfolding add_for_tenant
  add_for_tenant-read tenant_id r t = elim (Bool-cases (str_eq (tenant_of r) tenant_id)) [
    | inl y ↦
        rw (lookup-insert, y)
          (read_counter-process_record rd r (stats_or_empty (lookup (tenant_of r) t)) c
            ∙ ap (λ k. read_at c (lookup k t) + worth rd c r) ((eq_iff _ _).0 y))
    | inr n ↦ rw (lookup-insert, n) (omega arith)
  ]

  of_tenant-worth :
      (tenant_id : String) (r : RawRecord) (rs : List RawRecord)
      → total_worth rd c (of_tenant tenant_id (r ∷ rs))
        ≡ (if str_eq (tenant_of r) tenant_id then worth rd c r else 0)
          + total_worth rd c (of_tenant tenant_id rs)
  of_tenant-worth tenant_id r rs = elim (Bool-cases (str_eq (tenant_of r) tenant_id)) [
    | inl y ↦ rw y
    | inr n ↦ rw n (omega arith)
  ]

  process_all-tenant :
      (tenant_id : String) (rs : List RawRecord) (s : Stats) (t : Table Stats)
      → read_at c (lookup tenant_id (process_all rd rs s t).1)
        ≡ read_at c (lookup tenant_id t) + total_worth rd c (of_tenant tenant_id rs)
  unfolding process_all
  process_all-tenant tenant_id [] s t = omega arith
  process_all-tenant tenant_id (r ∷ rs) s t = omega (
    arith,
    process_all-tenant tenant_id rs (process_record rd r s) (add_for_tenant rd r t),
    add_for_tenant-read tenant_id r t,
    of_tenant-worth tenant_id r rs,
  )

  finalize_all-read :
      (tenant_id : String) (t : Table Stats)
      → read_at c (lookup tenant_id (finalize_all t)) ≡ read_at c (lookup tenant_id t)
  unfolding finalize_all lookup
  finalize_all-read tenant_id [] = refl
  finalize_all-read tenant_id ((name, s) ∷ t) = elim (Bool-cases (str_eq name tenant_id)) [
    | inl y ↦ rw y (read_counter-finalize_timing c s)
    | inr n ↦ rw n (finalize_all-read tenant_id t)
  ]

  -- The statistics under a tenant have, in every number, the sum of what the tenant's own records are
  -- worth to it; those under `__global__` have the sum over all records.
  pub aggregate_records_lem :
      (rs : List RawRecord) (tenant_id : String)
      → read_at c (lookup tenant_id (aggregate_records rd rs)) ≡ (
          if str_eq "__global__" tenant_id
          then total_worth rd c rs
          else total_worth rd c (of_tenant tenant_id rs))
  unfolding aggregate_records lookup
  aggregate_records_lem rs tenant_id =
      let (s, t) = process_all rd rs empty_stats [] in
      elim (Bool-cases (str_eq "__global__" tenant_id)) [
        | inl y ↦
            rw (lookup-insert, y)
              (read_counter-finalize_timing c s
                ∙ process_all-global rs empty_stats []
                ∙ ap (λ n. n + total_worth rd c rs) (read_counter-empty c)
                ∙ omega arith)
        | inr n ↦
            rw (lookup-insert, n)
              (finalize_all-read tenant_id t
                ∙ process_all-tenant tenant_id rs empty_stats []
                ∙ ap (λ n. n + total_worth rd c (of_tenant tenant_id rs)) (read_counter-empty c)
                ∙ omega arith)
      ]

abbrev pub day_stats : Readings → List RawRecord → Stats
day_stats rd rs = stats_or_empty (lookup "__global__" (aggregate_records rd rs))

abbrev pub concat_days : List (List RawRecord) → List RawRecord
concat_days [] = []
concat_days (d ∷ ds) = d ++ concat_days ds

module _ (rd : Readings) (c : Counter) where
  merge_all-days :
      (days : List (List RawRecord)) (a : Stats)
      → read_counter c (merge_all a (map (day_stats rd) days))
        ≡ read_counter c a + total_worth rd c (concat_days days)
  unfolding merge_all
  merge_all-days [] a = omega arith
  merge_all-days (d ∷ days) a = omega (
    arith,
    merge_all-days days (merge a (day_stats rd d)),
    read_counter-merge c a (day_stats rd d),
    aggregate_records_lem rd c d "__global__",
    total_worth-append rd c d (concat_days days),
  )

  -- The summary of the statistics of several days has, in every number, the sum of what the records of
  -- all these days are worth to it: as if the records had been aggregated at once.
  pub build_summary-days :
      (days : List (List RawRecord))
      → read_counter c (build_summary (map (day_stats rd) days))
        ≡ total_worth rd c (concat_days days)
  unfolding build_summary
  build_summary-days days =
      read_counter-finalize_timing c (merge_all empty_stats (map (day_stats rd) days))
      ∙ merge_all-days days empty_stats
      ∙ ap (λ n. n + total_worth rd c (concat_days days)) (read_counter-empty c)
      ∙ omega arith

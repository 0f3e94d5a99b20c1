-- ===== src/Metrics/Balance.antt =====
-- Each table of the statistics counts every record once.
use strata_documentai_api_en.Prelude.{
  ℕ, suc, ◌+◌, ◌≤◌, String, ◌≡◌, refl, Option, none, some, List, [], ◌∷◌, str_eq, lookup, insert,
  Table, arith, Bool-cases, inl, inr, lookup-insert, map,
}
use strata_documentai_api_en.Metrics.{
  Readings, RawRecord, Stats, empty_stats, process_record, add_hour, read_if, add_to,
}
use strata_documentai_api_en.Metrics.Aggregate.{
  stats_or_empty, finalize_timing, add_for_tenant, process_all, finalize_all, aggregate_records,
  tenant_of,
}
use strata_documentai_api_en.Metrics.Summary.{merge, merge_all, merge_table, build_summary}
use strata_documentai_api_en.Metrics.Counters.{
  sum_values, sum_values-add_to, sum_values-merge_table,
}

-- The hour is not known of every record.
pub record IsBalanced (s : Stats) : Type 0 where
  pub status : sum_values s.by_status ≡ s.total_records
  pub classification : sum_values s.by_classification ≡ s.total_records
  pub response_code : sum_values s.by_response_code ≡ s.total_records
  pub file_types : sum_values s.by_file_type ≡ s.total_records
  pub user_categories : sum_values s.by_user_category ≡ s.total_records
  pub upload_methods : sum_values s.by_upload_method ≡ s.total_records
  pub hours : sum_values s.by_hour ≤ s.total_records

empty-IsBalanced : IsBalanced empty_stats
empty-IsBalanced = record {
  status = refl;
  classification = refl;
  response_code = refl;
  file_types = refl;
  user_categories = refl;
  upload_methods = refl;
  hours = omega arith;
}

one_more :
    (key : String) (t : Table ℕ) (n : ℕ) → sum_values t ≡ n → sum_values (add_to key 1 t) ≡ suc n
one_more key t n h = omega (arith, sum_values-add_to key 1 t)

one_hour :
    (o : Option String) (t : Table ℕ) (n : ℕ) → sum_values t ≤ n → sum_values (add_hour o t) ≤ suc n
one_hour none t n h = omega arith
one_hour (some hour) t n h = omega (arith, sum_values-add_to hour 1 t)

process_record-IsBalanced :
    (rd : Readings) (r : RawRecord) (s : Stats) → IsBalanced s → IsBalanced (process_record rd r s)
unfolding process_record
process_record-IsBalanced rd r s p = record {
  status = one_more _ s.by_status s.total_records p.status;
  classification = one_more _ s.by_classification s.total_records p.classification;
  response_code = one_more _ s.by_response_code s.total_records p.response_code;
  file_types = one_more _ s.by_file_type s.total_records p.file_types;
  user_categories = one_more _ s.by_user_category s.total_records p.user_categories;
  upload_methods = one_more _ s.by_upload_method s.total_records p.upload_methods;
  hours = one_hour (read_if rd.read_hour r.created_at) s.by_hour s.total_records p.hours;
}

both :
    (a t : Table ℕ) (n m : ℕ)
    → sum_values a ≡ n
    → sum_values t ≡ m
    → sum_values (merge_table a t) ≡ n + m
both a t n m h k = omega (arith, sum_values-merge_table a t)

merge-IsBalanced : (a s : Stats) → IsBalanced a → IsBalanced s → IsBalanced (merge a s)
unfolding merge
merge-IsBalanced a s p q = record {
  status = both a.by_status s.by_status _ _ p.status q.status;
  classification =
      both a.by_classification s.by_classification _ _ p.classification q.classification;
  response_code = both a.by_response_code s.by_response_code _ _ p.response_code q.response_code;
  file_types = both a.by_file_type s.by_file_type _ _ p.file_types q.file_types;
  user_categories =
      both a.by_user_category s.by_user_category _ _ p.user_categories q.user_categories;
  upload_methods = both a.by_upload_method s.by_upload_method _ _ p.upload_methods q.upload_methods;
  hours = omega (arith, sum_values-merge_table a.by_hour s.by_hour, p.hours, q.hours);
}

finalize_timing-IsBalanced : (s : Stats) → IsBalanced s → IsBalanced (finalize_timing s)
unfolding finalize_timing
finalize_timing-IsBalanced s p = record {
  status = p.status;
  classification = p.classification;
  response_code = p.response_code;
  file_types = p.file_types;
  user_categories = p.user_categories;
  upload_methods = p.upload_methods;
  hours = p.hours;
}

-- Of a table of statistics: those under each key.
abbrev AreBalanced : Table Stats → Type 0
AreBalanced t = (key : String) → IsBalanced (stats_or_empty (lookup key t))

insert-AreBalanced :
    (key : String) (s : Stats) (t : Table Stats)
    → IsBalanced s
    → AreBalanced t
    → AreBalanced (insert key s t)
insert-AreBalanced key s t p h other = elim (Bool-cases (str_eq key other)) [
  | inl y ↦ rw (lookup-insert, y) p
  | inr n ↦ rw (lookup-insert, n) (h other)
]

lookup-finalize_all :
    (key : String) (t : Table Stats)
    → IsBalanced (stats_or_empty (lookup key t))
    → IsBalanced (stats_or_empty (lookup key (finalize_all t)))
unfolding finalize_all lookup
lookup-finalize_all key [] p = p
lookup-finalize_all key ((name, s) ∷ t) p = elim (Bool-cases (str_eq name key)) [
  | inl y ↦ rw y (finalize_timing-IsBalanced s (rw y at p))
  | inr n ↦ rw n (lookup-finalize_all key t (rw n at p))
]

-- The statistics of a day's records under a key.
abbrev pub stats_of : Readings → String → List RawRecord → Stats
stats_of rd key rs = stats_or_empty (lookup key (aggregate_records rd rs))

module _ (rd : Readings) where
  process_all-IsBalanced :
      (rs : List RawRecord) (s : Stats) (t : Table Stats)
      → IsBalanced s
      → AreBalanced t
      → IsBalanced (process_all rd rs s t).0 × AreBalanced (process_all rd rs s t).1
  unfolding process_all add_for_tenant
  process_all-IsBalanced [] s t p h = (p, h)
  process_all-IsBalanced (r ∷ rs) s t p h =
      process_all-IsBalanced rs (process_record rd r s) (add_for_tenant rd r t)
        (process_record-IsBalanced rd r s p)
        (insert-AreBalanced (tenant_of r) _ t
          (process_record-IsBalanced rd r (stats_or_empty (lookup (tenant_of r) t))
            (h (tenant_of r)))
          h)

  aggregate_records-AreBalanced : (rs : List RawRecord) → AreBalanced (aggregate_records rd rs)
  unfolding aggregate_records lookup
  aggregate_records-AreBalanced rs =
      let (p, h) =
        process_all-IsBalanced rs empty_stats [] empty-IsBalanced (λ key. empty-IsBalanced) in
      insert-AreBalanced "__global__" _ _ (finalize_timing-IsBalanced _ p)
        (λ key. lookup-finalize_all key _ (h key))

  merge_all-IsBalanced :
      (key : String) (days : List (List RawRecord)) (a : Stats)
      → IsBalanced a
      → IsBalanced (merge_all a (map (stats_of rd key) days))
  unfolding merge_all
  merge_all-IsBalanced key [] a p = p
  merge_all-IsBalanced key (d ∷ days) a p =
      merge_all-IsBalanced key days (merge a (stats_of rd key d))
        (merge-IsBalanced a (stats_of rd key d) p (aggregate_records-AreBalanced d key))

  -- In the summary of the statistics of any days, of all records or of a tenant's, each of six tables
  -- (by status, classification, response code, file type, category and upload method) counts every
  -- record once: its numbers sum to the total of the records. The table by hour counts none twice.
  pub build_summary-IsBalanced :
      (key : String) (days : List (List RawRecord))
      → IsBalanced (build_summary (map (stats_of rd key) days))
  unfolding build_summary
  build_summary-IsBalanced key days =
      finalize_timing-IsBalanced (merge_all empty_stats (map (stats_of rd key) days))
        (merge_all-IsBalanced key days empty_stats empty-IsBalanced)

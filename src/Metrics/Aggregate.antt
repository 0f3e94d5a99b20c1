-- ===== src/Metrics/Aggregate.antt =====
-- `_aggregate_records` of documentai-api/src/documentai_api/jobs/metrics_aggregator/main.py.
use strata_documentai_api_en.Prelude.{
  String, Option, none, some, List, [], ◌∷◌, ltb, lookup, insert, Table, if◌then◌else◌,
}
use strata_documentai_api_en.Metrics.{
  Readings, RawRecord, Timing, Stats, empty_stats, value_or, process_record,
}

abbrev pub tenant_of : RawRecord → String
tenant_of r = value_or "__unknown__" r.tenant_id

abbrev pub stats_or_empty : Option Stats → Stats
stats_or_empty none = empty_stats
stats_or_empty (some s) = s

abbrev pub with_average : Timing → Timing
with_average t =
    if ltb 0 t.count then record t { avg = some (record { total = t.sum; count = t.count }) } else t

-- `_finalize_timing`
unfoldable pub finalize_timing : Stats → Stats
finalize_timing s = record s {
  total_processing_time = with_average s.total_processing_time;
  bda_processing_time = with_average s.bda_processing_time;
  bda_wait_time = with_average s.bda_wait_time;
}

unfoldable pub add_for_tenant : Readings → RawRecord → Table Stats → Table Stats
unfolding process_record
add_for_tenant rd r t =
    insert (tenant_of r) (process_record rd r (stats_or_empty (lookup (tenant_of r) t))) t

-- the loop over the records, on the statistics of all and those by tenant
unfoldable pub process_all : Readings → List RawRecord → Stats → Table Stats → Stats × Table Stats
unfolding process_record add_for_tenant
process_all rd [] s t = (s, t)
process_all rd (r ∷ rs) s t = process_all rd rs (process_record rd r s) (add_for_tenant rd r t)

unfoldable pub finalize_all : Table Stats → Table Stats
unfolding finalize_timing
finalize_all [] = []
finalize_all ((tenant_id, s) ∷ t) = (tenant_id, finalize_timing s) ∷ finalize_all t

unfoldable pub aggregate_records : Readings → List RawRecord → Table Stats
unfolding process_all finalize_timing finalize_all
aggregate_records rd records =
    let (s, t) = process_all rd records empty_stats [] in
    insert "__global__" (finalize_timing s) (finalize_all t)

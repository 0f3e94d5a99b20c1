-- ===== src/Confidence.antt =====
-- `calculate_average_non_empty_confidence` of documentai-api/src/documentai_api/utils/bda.py and
-- `calculate_field_metrics` of utils/extraction_timing.py. A mean is the float that Python finds, kept as
-- the fraction that it is; a score and a floor are the floats of their ten-thousandths.
use strata_documentai_api_en.Prelude.{
  map, ℕ, ◌*◌, String, Bool, false, not, Option, none, some, List, [], ◌∷◌, ◌++◌, ltb, text_in,
  length, count_if, if◌then◌else◌,
}
use strata_documentai_api_en.Doubles.{one, to_double, mean_of}
use strata_documentai_api_en.Document.{ScoreMap, Fraction, FieldMetrics, ClassificationData}

unfoldable pub scores_of : List String → List (String × ℕ) → List ℕ
scores_of excluded [] = []
scores_of excluded ((name, conf) ∷ fields) =
    let rest = scores_of excluded fields in if text_in name excluded then rest else conf ∷ rest

unfoldable pub all_scores : List String → List ScoreMap → List ℕ
unfolding scores_of
all_scores excluded [] = []
all_scores excluded (m ∷ ms) = scores_of excluded (m.first ∷ m.others) ++ all_scores excluded ms

-- `sum(scores) / len(scores)`, in floats
abbrev pub mean : List ℕ → Option Fraction
mean [] = none
mean (n ∷ ns) = some (record { total = mean_of (map to_double (n ∷ ns)); count = one })

unfoldable pub calculate_average_non_empty_confidence :
    List ScoreMap → List String → List String → Option Fraction
unfolding all_scores mean_of to_double
calculate_average_non_empty_confidence maps empty_fields fields_missing_geometry =
    mean (all_scores (empty_fields ++ fields_missing_geometry) maps)

-- `avg is not None and avg < floor`, the floor being the float of a number of ten-thousandths
unfoldable pub is_below : Option Fraction → ℕ → Bool
unfolding to_double
is_below none floor = false
is_below (some avg) floor = ltb (avg.total * one) (to_double floor * avg.count)

abbrev pub names_or_empty : Option (List String) → List String
names_or_empty none = []
names_or_empty (some l) = l

abbrev metrics_of : Bool → ClassificationData → List ScoreMap → FieldMetrics
metrics_of missing_geo c [] = record {
  field_count = 0;
  field_count_not_empty = 0;
  field_not_empty_avg_confidence = none;
}
metrics_of missing_geo c (m ∷ ms) =
    let geometry = if missing_geo then names_or_empty c.field_missing_geometry_list else [] in
    let excluded = names_or_empty c.field_empty_list ++ geometry in
    record {
      field_count = length (m ∷ ms);
      field_count_not_empty =
          count_if (λ (e : ScoreMap). not (text_in e.first.0 excluded)) (m ∷ ms);
      field_not_empty_avg_confidence =
          calculate_average_non_empty_confidence (m ∷ ms) (names_or_empty c.field_empty_list)
            geometry;
    }

abbrev maps_or_empty : Option (List ScoreMap) → List ScoreMap
maps_or_empty none = []
maps_or_empty (some l) = l

unfoldable pub calculate_field_metrics : Bool → ClassificationData → FieldMetrics
unfolding calculate_average_non_empty_confidence
calculate_field_metrics missing_geo c =
    metrics_of missing_geo c (maps_or_empty c.field_confidence_scores)

-- ===== src/Rules.antt =====
-- documentai-api/src/documentai_api/utils/extraction_rules.py. A rule is an item of the rules table,
-- keyed by tenant and document type; a set of names is the list of its members, and `sorted` of a
-- set the ascending list without repetition. `str.lower` is modelled on the letters A to Z, which is
-- all of it on the identifiers that name fields.
pub mod Missing
pub mod Sorted
use Prim.Native.Nat.{Ordering}
use Prim.Native.Char.{Char, code}
use Prim.Native.String
use strata_documentai_api_en.Prelude.{
  ℕ, ◌-◌, String, Bool, true, false, not, Option, none, some, List, [], ◌∷◌, ◌++◌, ◌&&◌, map, leb,
  text_in, has_text, filter_if, if◌then◌else◌, lookup,
}

lower_char : Char → Char
lower_char c =
    if leb 65 (code c) && leb (code c) 90
    then String.char_at "abcdefghijklmnopqrstuvwxyz" (code c - 65)
    else c

unfoldable pub lower : String → String
unfolding lower_char
lower String.[] = ""
lower (String.◌∷◌ c s) = String.◌∷◌ (lower_char c) (lower s)

-- `sorted` of a set, built by insertion.
place : Ordering → String → String → List String → List String → List String
place Ordering.lt s t ts rest = s ∷ t ∷ ts
place Ordering.eq s t ts rest = t ∷ ts
place Ordering.gt s t ts rest = t ∷ rest

insert_sorted : String → List String → List String
unfolding place
insert_sorted s [] = s ∷ []
insert_sorted s (t ∷ ts) = place (String.compare s t) s t ts (insert_sorted s ts)

unfoldable pub sorted : List String → List String
unfolding insert_sorted
sorted [] = []
sorted (s ∷ ss) = insert_sorted s (sorted ss)

pub record ExtractionRule : Type 0 where
  pub required_fields : List String
  pub optional_fields : List String

pub record ExtractionRuleResult {ℓ} (V : Type ℓ) : Type ℓ where
  pub fields : List (String × V)
  pub missing_required_field_list : List String
  pub required_field_list : List String

-- `_table.get(tenant_id, document_type)`, as the rules of that pair.
abbrev pub RulesTable : Type 0
RulesTable = String → String → Option ExtractionRule

abbrev pub lower_in : String → List String → Bool
lower_in k names = text_in (lower k) (map lower names)

abbrev pub keys {ℓ} : {V : Type ℓ} → List (String × V) → List String
keys [] = []
keys ((k, v) ∷ m) = k ∷ keys m

-- `k.lower() in allowed_lower and k.lower() not in absent_lower`
unfoldable pub is_kept : ExtractionRule → List String → String → Bool
is_kept rule missing_fields k =
    lower_in k (rule.required_fields ++ rule.optional_fields)
    && not (lower_in k missing_fields && lower_in k rule.required_fields)

module _ {ℓ} {V : Type ℓ} where
  unfoldable pub apply_rule :
      ExtractionRule → List (String × V) → List String → ExtractionRuleResult V
  unfolding is_kept
  apply_rule rule fields missing_fields =
      let filtered = filter_if (λ (f : String × V). is_kept rule missing_fields f.0) fields in
      record {
        fields = filtered;
        missing_required_field_list =
            filter_if (λ f. not (lower_in f (keys filtered))) (sorted rule.required_fields);
        required_field_list = sorted rule.required_fields;
      }

  unfoldable pub apply_extraction_rules :
      RulesTable → String → String → List (String × V) → List String → ExtractionRuleResult V
  unfolding apply_rule
  apply_extraction_rules rules tenant_id document_type fields missing_fields =
      elim (rules tenant_id document_type) [
        | none ↦ record {
          fields = fields;
          missing_required_field_list = [];
          required_field_list = [];
        }
        | some rule ↦ apply_rule rule fields missing_fields
      ]

-- With the two lists of names: the required fields that are missing, and all required ones.
unfoldable pub missing_of_rule :
    ExtractionRule → List String → List String → List String × List String
missing_of_rule rule empty_fields fields_missing_geometry = (
  filter_if (λ f. lower_in f (empty_fields ++ fields_missing_geometry))
      (sorted rule.required_fields),
  sorted rule.required_fields,
)

abbrev rule_for : RulesTable → Option String → Option String → Option ExtractionRule
rule_for rules (some tenant_id) (some document_type) =
    if has_text (some tenant_id) && has_text (some document_type)
    then rules tenant_id document_type
    else none
rule_for rules _ _ = none

unfoldable pub get_missing_required_fields :
    RulesTable
    → Option String
    → Option String
    → List String
    → List String
    → Option (List String × List String)
unfolding missing_of_rule
get_missing_required_fields rules tenant_id document_type empty_fields fields_missing_geometry =
    elim (rule_for rules tenant_id document_type) [
      | none ↦ none
      | some rule ↦ some (missing_of_rule rule empty_fields fields_missing_geometry)
    ]

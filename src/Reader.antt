-- ===== src/Reader.antt =====
-- documentai-api/src/documentai_api/readers/bda.py: the fields of the extraction service's result. A
-- value of its JSON is of one of three kinds: an object with the key of a confidence or of a value is
-- a field, another object is a group, and anything else is passed over. A field's value is its text,
-- `str(value)`; its geometry is a text too, as the reader only stores it.
pub mod Fields
use strata_documentai_api_en.Prelude.{
  ℕ, String, Bool, true, false, Option, none, some, List, [], ◌∷◌, ◌++◌, ltb, str_eq, is_some,
  joined, if◌then◌else◌, Table, insert,
}
use strata_documentai_api_en.Document.{ScoreMap}

pub record FieldData : Type 0 where
  pub confidence : Option ℕ
  pub value : Option String
  pub field_type : Option String
  pub geometry : Option String

mutual
  pub data Json : Type 0 where
    field : FieldData → Json
    group : Entries → Json
    other : Json

  pub data Entries : Type 0 where
    end : Entries
    entry : String → Json → Entries → Entries

pub record BdaFieldProcessingResult : Type 0 where
  pub confidence : ℕ
  pub is_empty : Bool
  pub has_geometry : Bool

abbrev pub confidence_or_zero : Option ℕ → ℕ
confidence_or_zero none = 0
confidence_or_zero (some n) = n

abbrev pub is_empty_text : Option String → Bool
is_empty_text none = true
is_empty_text (some s) = str_eq s ""

-- `_process_single_field`
unfoldable pub process_single_field : FieldData → BdaFieldProcessingResult
process_single_field f = record {
  confidence = confidence_or_zero f.confidence;
  is_empty = is_empty_text f.value;
  has_geometry = is_some f.geometry;
}

pub record Geometry : Type 0 where
  pub field_type : Option String
  pub geometry : String

pub record ReaderResult : Type 0 where
  pub field_confidence_map_list : List ScoreMap
  pub field_values : Table (Option String)
  pub field_geometry : Table Geometry
  pub empty_fields : List String
  pub fields_missing_geometry : List String
  pub confidence_scores : List ℕ

abbrev pub empty_result : ReaderResult
empty_result = record {
  field_confidence_map_list = [];
  field_values = [];
  field_geometry = [];
  empty_fields = [];
  fields_missing_geometry = [];
  confidence_scores = [];
}

-- `_get_missing_geometry_threshold`, in ten-thousandths
unfoldable pub get_missing_geometry_threshold : Bool → ℕ
get_missing_geometry_threshold included = if included then 2500 else 0

abbrev pub full_name : String → String → String
full_name parent_key field_name =
    if str_eq parent_key "" then field_name else joined (joined parent_key ".") field_name

abbrev geometry_of : Bool → String → FieldData → Option String → Table Geometry → Table Geometry
geometry_of true name f (some g) t =
    insert name (record { field_type = f.field_type; geometry = g }) t
geometry_of _ name f _ t = t

abbrev pub classify_field : ℕ → String → BdaFieldProcessingResult → ReaderResult → ReaderResult
classify_field threshold name p r =
    if p.is_empty
    then record r { empty_fields = r.empty_fields ++ (name ∷ []) }
    else if (if p.has_geometry then false else ltb p.confidence threshold)
    then record r { fields_missing_geometry = r.fields_missing_geometry ++ (name ∷ []) }
    else record r { confidence_scores = r.confidence_scores ++ (p.confidence ∷ []) }

-- What one field adds, under its full name.
unfoldable pub add_field : ℕ → Bool → String → FieldData → ReaderResult → ReaderResult
unfolding process_single_field
add_field threshold include_geometry name f r =
    let p = process_single_field f in
    let r' = classify_field threshold name p r in
    record r' {
      field_confidence_map_list =
          r.field_confidence_map_list
          ++ (record { first = (name, p.confidence); others = [] } ∷ []);
      field_values = insert name f.value r.field_values;
      field_geometry = geometry_of include_geometry name f f.geometry r.field_geometry;
    }

-- `_extract_fields_recursive`
unfoldable mutual
  unfolding add_field

  pub extract_fields : ℕ → Bool → String → Entries → ReaderResult → ReaderResult
  extract_fields threshold geo parent_key end r = r
  extract_fields threshold geo parent_key (entry name j rest) r =
      extract_fields threshold geo parent_key rest
        (extract_json threshold geo (full_name parent_key name) j r)

  pub extract_json : ℕ → Bool → String → Json → ReaderResult → ReaderResult
  extract_json threshold geo name (field f) r = add_field threshold geo name f r
  extract_json threshold geo name (group entries) r = extract_fields threshold geo name entries r
  extract_json threshold geo name other r = r

unfoldable pub extract_items : ℕ → Bool → List Entries → ReaderResult → ReaderResult
unfolding extract_fields
extract_items threshold geo [] r = r
extract_items threshold geo (item ∷ items) r =
    extract_items threshold geo items (extract_fields threshold geo "" item r)

-- `read_bda_output`, of the items of the result that are objects, where it has the key of them
unfoldable pub read_bda_output : Bool → Option (List Entries) → Bool → ReaderResult
unfolding extract_items get_missing_geometry_threshold
read_bda_output included none geo = empty_result
read_bda_output included (some items) geo =
    extract_items (get_missing_geometry_threshold included) geo items empty_result

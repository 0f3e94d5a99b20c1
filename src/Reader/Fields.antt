-- ===== src/Reader/Fields.antt =====
-- The reader against a description of it: the fields in order, with their full names, added one by one.
use mathlib.Core.List.{append-nil, append_assoc}
use strata_documentai_api_en.Prelude.{
  not, ◌&&◌, is_some, true, inl, inr, Bool-cases, is_some, ◌&&◌, true, not, ℕ, ◌≡◌, refl, sym, ap,
  ◌∙◌, String, Bool, some, List, [], ◌∷◌, ◌++◌, ltb, if◌then◌else◌,
}
use strata_documentai_api_en.Document.{ScoreMap}
use strata_documentai_api_en.Reader.{
  is_empty_text, confidence_or_zero, ScoreMap, is_empty_text, confidence_or_zero, FieldData, Json,
  Entries, field, group, other, end, entry, full_name, ReaderResult, empty_result, add_field,
  process_single_field, extract_fields, extract_json, extract_items, read_bda_output,
  get_missing_geometry_threshold,
}

-- The fields of a result, depth first, under their full names.
mutual
  pub fields_of : String → Entries → List (String × FieldData)
  fields_of parent_key end = []
  fields_of parent_key (entry name j rest) =
      fields_of_json (full_name parent_key name) j ++ fields_of parent_key rest

  pub fields_of_json : String → Json → List (String × FieldData)
  fields_of_json name (field f) = (name, f) ∷ []
  fields_of_json name (group entries) = fields_of name entries
  fields_of_json name other = []

abbrev pub fields_of_items : List Entries → List (String × FieldData)
fields_of_items [] = []
fields_of_items (item ∷ items) = fields_of "" item ++ fields_of_items items

abbrev pub add_all : ℕ → Bool → List (String × FieldData) → ReaderResult → ReaderResult
add_all threshold geo [] r = r
add_all threshold geo ((name, f) ∷ fs) r =
    add_all threshold geo fs (add_field threshold geo name f r)

module _ (threshold : ℕ) (geo : Bool) where
  add_all-append :
      (fs gs : List (String × FieldData)) (r : ReaderResult)
      → add_all threshold geo (fs ++ gs) r ≡ add_all threshold geo gs (add_all threshold geo fs r)
  add_all-append [] gs r = refl
  add_all-append ((name, f) ∷ fs) gs r = add_all-append fs gs (add_field threshold geo name f r)

mutual
  unfolding extract_fields extract_json fields_of fields_of_json

  extract-add_all :
      (threshold : ℕ) (geo : Bool) (parent_key : String) (entries : Entries) (r : ReaderResult)
      → extract_fields threshold geo parent_key entries r
        ≡ add_all threshold geo (fields_of parent_key entries) r
  extract-add_all threshold geo parent_key end r = refl
  extract-add_all threshold geo parent_key (entry name j rest) r =
      extract-add_all threshold geo parent_key rest
        (extract_json threshold geo (full_name parent_key name) j r)
      ∙ ap (add_all threshold geo (fields_of parent_key rest))
          (extract_json-add_all threshold geo (full_name parent_key name) j r)
      ∙ sym (
          add_all-append threshold geo (fields_of_json (full_name parent_key name) j)
            (fields_of parent_key rest) r)

  extract_json-add_all :
      (threshold : ℕ) (geo : Bool) (name : String) (j : Json) (r : ReaderResult)
      → extract_json threshold geo name j r ≡ add_all threshold geo (fields_of_json name j) r
  extract_json-add_all threshold geo name (field f) r = refl
  extract_json-add_all threshold geo name (group entries) r =
      extract-add_all threshold geo name entries r
  extract_json-add_all threshold geo name other r = refl

extract_items-add_all :
    (threshold : ℕ) (geo : Bool) (items : List Entries) (r : ReaderResult)
    → extract_items threshold geo items r ≡ add_all threshold geo (fields_of_items items) r
unfolding extract_items
extract_items-add_all threshold geo [] r = refl
extract_items-add_all threshold geo (item ∷ items) r =
    extract_items-add_all threshold geo items (extract_fields threshold geo "" item r)
    ∙ ap (add_all threshold geo (fields_of_items items)) (extract-add_all threshold geo "" item r)
    ∙ sym (add_all-append threshold geo (fields_of "" item) (fields_of_items items) r)

-- Reading a result adds its fields one by one, in the order of the document, each under its full
-- name.
pub read-add_all :
    (included : Bool) (items : List Entries) (geo : Bool)
    → read_bda_output included (some items) geo
      ≡ add_all (get_missing_geometry_threshold included) geo (fields_of_items items) empty_result
unfolding read_bda_output
read-add_all included items geo =
    extract_items-add_all (get_missing_geometry_threshold included) geo items empty_result

-- What `g` makes of the fields that `p` selects, in order.
abbrev pub collect :
    {A : Type 0}
    → (FieldData → Bool)
    → (String → FieldData → A)
    → List (String × FieldData)
    → List A
collect p g [] = []
collect p g ((name, f) ∷ fs) = (if p f then g name f ∷ [] else []) ++ collect p g fs

abbrev pub any_field : FieldData → Bool
any_field f = true

abbrev pub is_blank : FieldData → Bool
is_blank f = is_empty_text f.value

-- a text of which no place in the document is known, and that is not certain enough
abbrev pub is_ungrounded : ℕ → FieldData → Bool
is_ungrounded threshold f =
    not (is_blank f)
    && (not (is_some f.geometry) && ltb (confidence_or_zero f.confidence) threshold)

abbrev pub counts : ℕ → FieldData → Bool
counts threshold f = not (is_blank f) && not (is_ungrounded threshold f)

abbrev pub name_of : String → FieldData → String
name_of name f = name

abbrev pub score_of : String → FieldData → ℕ
score_of name f = confidence_or_zero f.confidence

abbrev pub score_map_of : String → FieldData → ScoreMap
score_map_of name f = record { first = (name, confidence_or_zero f.confidence); others = [] }

module _ (threshold : ℕ) where
  -- What `r'` has over `r` are the fields, each in its class.
  abbrev pub AreAdded : List (String × FieldData) → ReaderResult → ReaderResult → Type 0
  AreAdded fs r r' =
      (r'.field_confidence_map_list
        ≡ r.field_confidence_map_list ++ collect any_field score_map_of fs)
      × (r'.empty_fields ≡ r.empty_fields ++ collect is_blank name_of fs)
      × (r'.fields_missing_geometry
          ≡ r.fields_missing_geometry ++ collect (is_ungrounded threshold) name_of fs)
      × (r'.confidence_scores ≡ r.confidence_scores ++ collect (counts threshold) score_of fs)

  add_one :
      (geo : Bool) (name : String) (f : FieldData) (r : ReaderResult)
      → AreAdded ((name, f) ∷ []) r (add_field threshold geo name f r)
  unfolding add_field process_single_field
  add_one geo name f r = elim (Bool-cases (is_blank f)) [
    | inl b ↦ rw b (
      refl,
      refl,
      sym (append-nil r.fields_missing_geometry),
      sym (append-nil r.confidence_scores),
    )
    | inr b ↦ elim (Bool-cases (is_some f.geometry)) [
      | inl g ↦
          rw (b, g)
            (
              refl,
              sym (append-nil r.empty_fields),
              sym (append-nil r.fields_missing_geometry),
              refl,
            )
      | inr g ↦ elim (Bool-cases (ltb (confidence_or_zero f.confidence) threshold)) [
        | inl t ↦
            rw (b, g, t)
              (refl, sym (append-nil r.empty_fields), refl, sym (append-nil r.confidence_scores))
        | inr t ↦
            rw (b, g, t)
              (
                refl,
                sym (append-nil r.empty_fields),
                sym (append-nil r.fields_missing_geometry),
                refl,
              )
      ]
    ]
  ]

  joined_classes :
      {A : Type 0} (p : FieldData → Bool) (g : String → FieldData → A) (a b c : List A)
      (name : String) (f : FieldData) (fs : List (String × FieldData))
      → b ≡ a ++ collect p g ((name, f) ∷ [])
      → c ≡ b ++ collect p g fs
      → c ≡ a ++ collect p g ((name, f) ∷ fs)
  joined_classes p g a b c name f fs h k =
      let own = if p f then g name f ∷ [] else [] in
      k
      ∙ ap (λ l. l ++ collect p g fs) (h ∙ ap (λ l. a ++ l) (append-nil own))
      ∙ append_assoc a own (collect p g fs)

  add_all-AreAdded :
      (geo : Bool) (fs : List (String × FieldData)) (r : ReaderResult)
      → AreAdded fs r (add_all threshold geo fs r)
  add_all-AreAdded geo [] r = (
    sym (append-nil r.field_confidence_map_list),
    sym (append-nil r.empty_fields),
    sym (append-nil r.fields_missing_geometry),
    sym (append-nil r.confidence_scores),
  )
  add_all-AreAdded geo ((name, f) ∷ fs) r =
      let r' = add_field threshold geo name f r in
      let q = add_all threshold geo fs r' in
      let (a, b, c, d) = add_one geo name f r in
      let (a', b', c', d') = add_all-AreAdded geo fs r' in
      (
        joined_classes any_field score_map_of r.field_confidence_map_list
            r'.field_confidence_map_list q.field_confidence_map_list name f fs a a',
        joined_classes is_blank name_of r.empty_fields r'.empty_fields q.empty_fields name f fs b
            b',
        joined_classes (is_ungrounded threshold) name_of r.fields_missing_geometry
            r'.fields_missing_geometry q.fields_missing_geometry name f fs c c',
        joined_classes (counts threshold) score_of r.confidence_scores r'.confidence_scores
            q.confidence_scores name f fs d d',
      )

-- Reading a result lists every field with its confidence, and puts it in its class, in the order of the document and
-- under its full name: the empty ones are those with no text; without geometry are those with a
-- text, no place in the document and a confidence below the threshold; and of the rest the
-- confidences count.
pub read_classes :
    (included : Bool) (items : List Entries) (geo : Bool)
    → let r = read_bda_output included (some items) geo in
      let fs = fields_of_items items in
      let threshold = get_missing_geometry_threshold included in
      (r.field_confidence_map_list ≡ collect any_field score_map_of fs)
      × (r.empty_fields ≡ collect is_blank name_of fs)
      × (r.fields_missing_geometry ≡ collect (is_ungrounded threshold) name_of fs)
      × (r.confidence_scores ≡ collect (counts threshold) score_of fs)
read_classes included items geo = rw (read-add_all included items geo) (
    add_all-AreAdded (get_missing_geometry_threshold included) geo (fields_of_items items)
      empty_result)

-- ===== src/Rules/Missing.antt =====
-- What the extraction rules leave of a document's fields, and which required fields they report.
use mathlib.Core.List.{append-nil}
use text.Mathlib.TextEquality.{eq_iff}
use strata_documentai_api_en.Prelude.{
  String, ◌≡◌, refl, ap, Bool, true, false, not, List, [], ◌∷◌, ◌++◌, ◌&&◌, ◌∙◌, ap, Bool-cases,
  inl, inr, arith, str_eq, text_in, filter_if, Bool-cases, inl, inr,
}
use strata_documentai_api_en.Rules.{
  ExtractionRule, keys, lower, lower_in, is_kept, apply_rule, lower, missing_of_rule,
  missing_of_rule, sorted,
}
use strata_documentai_api_en.Rules.Sorted.{text_in-sorted}

at_equal : (p : String → Bool) (x y : String) → str_eq x y ≡ true → p x ≡ p y
at_equal p x y e = ap p ((eq_iff x y).0 e)

text_in-filter_if :
    (p : String → Bool) (x : String) (xs : List String)
    → text_in x (filter_if p xs) ≡ (text_in x xs && p x)
text_in-filter_if p x [] = refl
text_in-filter_if p x (y ∷ ys) = ground (arith, text_in-filter_if p x ys, at_equal p x y)

same_lower : (x y : String) → str_eq x y ≡ true → str_eq (lower x) (lower y) ≡ true
same_lower x y e = (eq_iff (lower x) (lower y)).1 (ap lower ((eq_iff x y).0 e))

lower_in_of_text_in :
    (f : String) (xs ys : List String) → text_in f xs ≡ true → lower_in f (xs ++ ys) ≡ true
lower_in_of_text_in f [] ys h = cc
lower_in_of_text_in f (x ∷ xs) ys h = ground (arith, lower_in_of_text_in f xs ys, same_lower f x)

is_kept_of_required :
    (rule : ExtractionRule) (missing_fields : List String) (f : String)
    → text_in f rule.required_fields ≡ true
    → lower_in f missing_fields ≡ false
    → is_kept rule missing_fields f ≡ true
unfolding is_kept
is_kept_of_required rule missing_fields f r m =
    rw (lower_in_of_text_in f rule.required_fields rule.optional_fields r, m)

module _ {ℓ} {V : Type ℓ} where
  keys-filter_if :
      (p : String → Bool) (x : String) (fields : List (String × V))
      → text_in x (keys (filter_if (λ (f : String × V). p f.0) fields))
        ≡ (text_in x (keys fields) && p x)
  keys-filter_if p x [] = refl
  keys-filter_if p x ((k, v) ∷ fields) = ground (arith, keys-filter_if p x fields, at_equal p x k)

  -- The fields that a rule leaves are exactly those that it names, required or optional and whatever
  -- their case, less the required ones that are given as missing.
  pub apply_rule_fields :
      (rule : ExtractionRule) (fields : List (String × V)) (missing_fields : List String)
      (k : String)
      → text_in k (keys (apply_rule rule fields missing_fields).fields)
        ≡ (text_in k (keys fields) && is_kept rule missing_fields k)
  unfolding apply_rule
  apply_rule_fields rule fields missing_fields k =
      keys-filter_if (is_kept rule missing_fields) k fields

  -- A field is reported as missing exactly when it is required and no field is left under its name in
  -- any case: every required field is either left or reported, and none is both.
  pub apply_rule_missing :
      (rule : ExtractionRule) (fields : List (String × V)) (missing_fields : List String)
      (f : String)
      → let result = apply_rule rule fields missing_fields in
        text_in f result.missing_required_field_list
        ≡ (text_in f rule.required_fields && not (lower_in f (keys result.fields)))
  unfolding apply_rule
  apply_rule_missing rule fields missing_fields f =
      text_in-filter_if
        (λ g. not (
          lower_in g
            (keys (filter_if (λ (p : String × V). is_kept rule missing_fields p.0) fields))))
        f (sorted rule.required_fields)
      ∙ rw (text_in-sorted f rule.required_fields)

  -- A required field is never reported as missing while a field of its name, in any case, is given,
  -- and is not itself given as missing in any case.
  pub apply_rule_present :
      (rule : ExtractionRule) (fields : List (String × V)) (missing_fields : List String)
      (f : String)
      → text_in f (keys fields) ≡ true
      → lower_in f missing_fields ≡ false
      → text_in f (apply_rule rule fields missing_fields).missing_required_field_list ≡ false
  apply_rule_present rule fields missing_fields f given present =
      let result = apply_rule rule fields missing_fields in
      elim (Bool-cases (text_in f rule.required_fields)) [
        | inl r ↦
            let kept : text_in f (keys result.fields) ≡ true =
              apply_rule_fields rule fields missing_fields f
              ∙ rw (given, is_kept_of_required rule missing_fields f r present) in
            let left : lower_in f (keys result.fields) ≡ true =
              rw append-nil at (lower_in_of_text_in f (keys result.fields) [] kept) in
            apply_rule_missing rule fields missing_fields f ∙ rw (r, left)
        | inr n ↦ apply_rule_missing rule fields missing_fields f ∙ rw n
      ]

-- At processing time, a required field is reported exactly when it is required and stands, in some
-- case, among the fields found empty or without geometry.
pub missing_of_rule_lem :
    (rule : ExtractionRule) (empty_fields fields_missing_geometry : List String) (f : String)
    → text_in f (missing_of_rule rule empty_fields fields_missing_geometry).0
      ≡ (text_in f rule.required_fields && lower_in f (empty_fields ++ fields_missing_geometry))
unfolding missing_of_rule
missing_of_rule_lem rule empty_fields fields_missing_geometry f =
    text_in-filter_if (λ g. lower_in g (empty_fields ++ fields_missing_geometry)) f
      (sorted rule.required_fields)
    ∙ rw (text_in-sorted f rule.required_fields)

-- ===== src/Prelude/Dict.antt =====
-- A table with text keys: Python's `dict`, and a DynamoDB table by its partition key.
use Prim.Native.String.{String}
use mathlib.Core.Path.{◌≡◌}
use mathlib.Core.Logic.{◌≢◌}
use mathlib.Core.Bool.{true, false}
use mathlib.Core.Option.{Option, none, some}
use mathlib.Core.List.{List, [], ◌∷◌}
use native.Mathlib.Omega.{arith}
use text.Mathlib.TextEquality.{eq_iff}
use text.Mathlib.TextPositions.{eq_refl}
use strata_documentai_api_en.Prelude.Tests.{str_eq, if◌then◌else◌}

pub str_refl : (s : String) → str_eq s s ≡ true
str_refl s = eq_refl s

pub str_ne : (s t : String) → s ≢ t → str_eq s t ≡ false
str_ne s t h = ground (arith, eq_iff s t)

pub str_sym : (s t : String) → str_eq s t ≡ str_eq t s
str_sym s t = ground (arith, eq_iff s t, eq_iff t s)

-- A table is the list of its items, each a key with a value; the first item under a key counts.
abbrev pub Table {ℓ} : Type ℓ → Type ℓ
Table V = List (String × V)

module _ {ℓ} {V : Type ℓ} where
  unfoldable pub lookup : String → Table V → Option V
  lookup key [] = none
  lookup key ((name, value) ∷ table) = if str_eq name key then some value else lookup key table

  unfoldable pub insert : String → V → Table V → Table V
  insert key new [] = (key, new) ∷ []
  insert key new ((name, value) ∷ table) =
      if str_eq name key then (key, new) ∷ table else (name, value) ∷ insert key new table

  unfoldable pub delete : String → Table V → Table V
  delete key [] = []
  delete key ((name, value) ∷ table) =
      let rest = delete key table in if str_eq name key then rest else (name, value) ∷ rest

  pub lookup-insert :
      (key other : String) (new : V) (table : Table V)
      → lookup other (insert key new table)
        ≡ (if str_eq key other then some new else lookup other table)
  unfolding insert lookup
  lookup-insert key other new [] = ground arith
  lookup-insert key other new ((name, value) ∷ table) =
      let rest = lookup-insert key other new table in
      ground (arith, rest, eq_iff name other, eq_iff name key, eq_iff key other)

  pub lookup-delete :
      (key other : String) (table : Table V)
      → lookup other (delete key table) ≡ (if str_eq key other then none else lookup other table)
  unfolding delete lookup
  lookup-delete key other [] = ground arith
  lookup-delete key other ((name, value) ∷ table) =
      let rest = lookup-delete key other table in
      ground (arith, rest, eq_iff name other, eq_iff name key, eq_iff key other)

  pub lookup-insert_self :
      (key : String) (new : V) (table : Table V) → lookup key (insert key new table) ≡ some new
  lookup-insert_self key new table = rw (lookup-insert key key new table, str_refl key)

  pub lookup-insert_ne :
      (key other : String) (new : V) (table : Table V)
      → key ≢ other
      → lookup other (insert key new table) ≡ lookup other table
  lookup-insert_ne key other new table differ =
      rw (lookup-insert key other new table, str_ne key other differ)

  pub insert-insert :
      (key : String) (new old : V) (table : Table V)
      → insert key new (insert key old table) ≡ insert key new table
  unfolding insert
  insert-insert key new old [] = rw (str_refl key)
  insert-insert key new old ((name, value) ∷ table) =
      let rest = insert-insert key new old table in
      ground (arith, rest, eq_iff name key, eq_iff key key)

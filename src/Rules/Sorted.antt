-- ===== src/Rules/Sorted.antt =====
-- `sorted` of a set of names, in documentai-api/src/documentai_api/utils/extraction_rules.py.
use Prim.Native.Nat.{Ordering, compare as compare_ℕ}
use Prim.Native.Char.{code}
use Prim.Native.String
use Prim.Native.String.compare
use text.Mathlib.TextEquality.{path_by_compare}
use strata_documentai_api_en.Prelude.{
  ℕ, String, ◌≡◌, refl, sym, ◌∙◌, List, [], ◌∷◌, ◌||◌, arith, str_eq, text_in,
}
use strata_documentai_api_en.Rules.{place, insert_sorted, sorted}

then_flip :
    (o p q r : Ordering)
    → (o ≡ Ordering.gt → p ≡ Ordering.lt)
    → (o ≡ Ordering.eq → p ≡ Ordering.eq)
    → (q ≡ Ordering.gt → r ≡ Ordering.lt)
    → String.then o q ≡ Ordering.gt
    → String.then p r ≡ Ordering.lt
then_flip Ordering.lt p q r a b c h = cc
then_flip Ordering.eq p q r a b c h = rw (b refl) (c h)
then_flip Ordering.gt p q r a b c h = rw (a refl) refl

codes_flip : (m n : ℕ) → compare_ℕ m n ≡ Ordering.gt → compare_ℕ n m ≡ Ordering.lt
codes_flip m n h = ground arith

codes_same : (m n : ℕ) → compare_ℕ m n ≡ Ordering.eq → compare_ℕ n m ≡ Ordering.eq
codes_same m n h = ground arith

compare_flip : (s t : String) → String.compare s t ≡ Ordering.gt → String.compare t s ≡ Ordering.lt
compare_flip String.[] String.[] h = cc (compare.nil-nil, h)
compare_flip String.[] (String.◌∷◌ d t) h = cc (compare.nil-cons d t, h)
compare_flip (String.◌∷◌ c s) String.[] h = compare.nil-cons c s
compare_flip (String.◌∷◌ c s) (String.◌∷◌ d t) h =
    compare.cons-cons d c t s
    ∙ then_flip (compare_ℕ (code c) (code d)) (compare_ℕ (code d) (code c)) (String.compare s t)
        (String.compare t s) (codes_flip (code c) (code d)) (codes_same (code c) (code d))
        (compare_flip s t) (sym (compare.cons-cons c d s t) ∙ h)

-- Each name comes before the next, so none is repeated.
abbrev pub Below : String → List String → Type 0
Below s [] = Unit
Below s (t ∷ ts) = String.compare s t ≡ Ordering.lt

abbrev pub IsAscending : List String → Type 0
IsAscending [] = Unit
IsAscending (s ∷ ss) = Below s ss × IsAscending ss

module _ (r s t : String) (ts rest : List String) where
  Below-place :
      (o : Ordering)
      → Below r (t ∷ ts)
      → String.compare r s ≡ Ordering.lt
      → Below r (place o s t ts rest)
  unfolding place
  Below-place Ordering.lt b h = h
  Below-place Ordering.eq b h = b
  Below-place Ordering.gt b h = b

Below-insert_sorted :
    (r s : String) (ts : List String)
    → Below r ts
    → String.compare r s ≡ Ordering.lt
    → Below r (insert_sorted s ts)
unfolding insert_sorted
Below-insert_sorted r s [] b h = h
Below-insert_sorted r s (t ∷ ts) b h =
    Below-place r s t ts (insert_sorted s ts) (String.compare s t) b h

place-IsAscending :
    (o : Ordering) (s t : String) (ts rest : List String)
    → String.compare s t ≡ o
    → IsAscending (t ∷ ts)
    → (String.compare t s ≡ Ordering.lt → Below t rest)
    → IsAscending rest
    → IsAscending (place o s t ts rest)
unfolding place
place-IsAscending Ordering.lt s t ts rest e h b a = (e, h)
place-IsAscending Ordering.eq s t ts rest e h b a = h
place-IsAscending Ordering.gt s t ts rest e h b a = (b (compare_flip s t e), a)

insert_sorted-IsAscending :
    (s : String) (ts : List String) → IsAscending ts → IsAscending (insert_sorted s ts)
unfolding insert_sorted
insert_sorted-IsAscending s [] h = (tt, tt)
insert_sorted-IsAscending s (t ∷ ts) h =
    place-IsAscending (String.compare s t) s t ts (insert_sorted s ts) refl h
      (Below-insert_sorted t s ts h.0) (insert_sorted-IsAscending s ts h.1)

pub sorted-IsAscending : (ss : List String) → IsAscending (sorted ss)
unfolding sorted
sorted-IsAscending [] = tt
sorted-IsAscending (s ∷ ss) = insert_sorted-IsAscending s (sorted ss) (sorted-IsAscending ss)

text_in-place :
    (o : Ordering) (x s t : String) (ts rest : List String)
    → String.compare s t ≡ o
    → text_in x rest ≡ (str_eq x s || text_in x ts)
    → text_in x (place o s t ts rest) ≡ (str_eq x s || text_in x (t ∷ ts))
unfolding place
text_in-place Ordering.lt x s t ts rest e h = refl
text_in-place Ordering.eq x s t ts rest e h = rw (path_by_compare s t e) (ground arith)
text_in-place Ordering.gt x s t ts rest e h = ground arith

text_in-insert_sorted :
    (x s : String) (ts : List String)
    → text_in x (insert_sorted s ts) ≡ (str_eq x s || text_in x ts)
unfolding insert_sorted
text_in-insert_sorted x s [] = refl
text_in-insert_sorted x s (t ∷ ts) =
    text_in-place (String.compare s t) x s t ts (insert_sorted s ts) refl
      (text_in-insert_sorted x s ts)

-- Sorting keeps the members.
pub text_in-sorted : (x : String) (ss : List String) → text_in x (sorted ss) ≡ text_in x ss
unfolding sorted
text_in-sorted x [] = refl
text_in-sorted x (s ∷ ss) = rw (text_in-insert_sorted x s (sorted ss), text_in-sorted x ss)

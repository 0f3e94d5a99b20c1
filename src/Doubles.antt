-- ===== src/Doubles.antt =====
-- Python's floats, binary64 with ties to even, on what confidences make: decimals of four places, their
-- sums and their means. A number is kept as a multiple of 2⁻¹³⁰, which is exact for every float from
-- 2⁻⁷⁸ up; the sum is the compensated one of Python 3.12 and later.
use strata_documentai_api_en.Prelude.{
  ℕ, zero, suc, ◌+◌, ◌-◌, ◌*◌, ◌/◌, ◌%◌, ◌^◌, Bool, false, not, List, [], ◌∷◌, ltb, length,
  if◌then◌else◌,
}

abbrev pub one : ℕ
one = 2 ^ 130

abbrev mantissa : ℕ
mantissa = 2 ^ 53

unfoldable half_even : ℕ → ℕ → ℕ
half_even p d =
    let k = p / d in
    let r = p % d in if ltb (2 * r) d then k else if ltb d (2 * r) then k + 1 else k + k % 2

-- `p / q` to 53 binary digits, the last of which is worth `step` at least. The fuel is the number of
-- doublings of `step` that are tried.
unfoldable rounded : ℕ → ℕ → ℕ → ℕ → ℕ
unfolding half_even
rounded zero step p q = half_even p (q * step) * step
rounded (suc fuel) step p q =
    let rest = rounded fuel (2 * step) p q in
    if ltb p (mantissa * (q * step)) then half_even p (q * step) * step else rest

-- Enough for every number below 2¹⁷⁹.
abbrev nearest : ℕ → ℕ → ℕ
nearest p q = rounded 256 1 p q

-- The float of a number of ten-thousandths.
unfoldable pub to_double : ℕ → ℕ
unfolding rounded
to_double n = nearest (n * one) 10000

record Signed : Type 0 where
  negative : Bool
  size : ℕ

abbrev positive : ℕ → Signed
positive n = record { negative = false; size = n }

abbrev opposite : Signed → Signed
opposite a = record a { negative = not a.negative }

abbrev exact_sum : Signed → Signed → Signed
exact_sum a b =
    if (if a.negative then b.negative else not b.negative)
    then record a { size = a.size + b.size }
    else if ltb b.size a.size
    then record a { size = a.size - b.size }
    else record b { size = b.size - a.size }

unfoldable add : Signed → Signed → Signed
unfolding rounded
add a b = let s = exact_sum a b in record s { size = nearest s.size 1 }

-- One more number; the second component gathers what the first one loses.
unfoldable add_next : Signed × Signed → Signed → Signed × Signed
unfolding add
add_next (total, lost) x =
    let t = add total x in
    let d =
      if ltb total.size x.size
      then add (add x (opposite t)) total
      else add (add total (opposite t)) x in
    (t, add lost d)

unfoldable sum_from : Signed × Signed → List ℕ → ℕ
unfolding add_next
sum_from (total, lost) [] = (add total lost).size
sum_from (total, lost) (n ∷ ns) = sum_from (add_next (total, lost) (positive n)) ns

-- `sum(scores) / len(scores)`, of floats; of no floats it is not asked
unfoldable pub mean_of : List ℕ → ℕ
unfolding sum_from rounded
mean_of [] = 0
mean_of (n ∷ ns) = nearest (sum_from (positive n, positive 0) ns) (length (n ∷ ns))

-- ===== src/Analytics/Describe.antt =====
-- dashboard/app/analytics.py: the percentile and the description of a sample. An outer none is the
-- IndexError of a subscript.
use hybrid_tls_lab.Prelude.{
  ℕ, ◌+◌, ◌-◌, ◌*◌, ◌^◌, Option, none, some, List, [], ◌∷◌, ◌==◌, if◌then◌else◌, ◌>>=◌, length,
  get_elem?,
}
use hybrid_tls_lab.Prelude.Double.{
  Double, nearest, of_int, div_int, add, sub, mul, div, floor, ceil,
}
use hybrid_tls_lab.Prelude.Double.Order.{double_leb, sorted}

-- `a * (1 - weight) + b * weight`
abbrev pub lerp : Double → Double → Double → Double
lerp a b weight = add (mul a (sub (of_int 1) weight)) (mul b weight)

unfoldable pub interpolate : List Double → Double → Option (Option Double)
interpolate ordered position =
    let lower = floor position in
    let upper = ceil position in
    if lower == upper then (do a ← get_elem? ordered lower; some (some a)) else (do
      a ← get_elem? ordered lower
      b ← get_elem? ordered upper
      some (some (lerp a b (sub position (of_int lower)))))

unfoldable pub percentile_of : List Double → ℕ → Option (Option Double)
percentile_of [] p = some none
percentile_of (x ∷ []) p = some (some x)
percentile_of (x ∷ y ∷ rest) p =
    let ordered = x ∷ y ∷ rest in interpolate ordered (div_int ((length ordered - 1) * p) 100)

-- `percentile(values, p)`, of a whole `p`
unfoldable pub percentile : List Double → ℕ → Option (Option Double)
percentile values p = percentile_of (sorted values) p

pub record Description : Type 0 where
  pub count : ℕ
  pub mean : Option Double
  pub p50 : Option Double
  pub p95 : Option Double
  pub p99 : Option Double
  pub min : Option Double
  pub max : Option Double

-- `[float(value) for value in values if value is not None]`
abbrev pub clean_values : List (Option ℕ) → List Double
clean_values [] = []
clean_values (none ∷ values) = clean_values values
clean_values (some n ∷ values) = of_int n ∷ clean_values values

-- The sum without a rounding.
abbrev pub exact_sum : List Double → Double
exact_sum [] = record { num = 0; scale = 0 }
exact_sum (x ∷ xs) =
    let rest = exact_sum xs in
    record { num = x.num * 2 ^ rest.scale + rest.num * 2 ^ x.scale; scale = x.scale + rest.scale }

-- `statistics.fmean`: the sum of `math.fsum`, rounded once, over the length.
unfoldable pub fmean : List Double → Double
fmean xs = let sum = exact_sum xs in div (nearest sum.num (2 ^ sum.scale)) (of_int (length xs))

abbrev pub least : Double → List Double → Double
least m [] = m
least m (x ∷ xs) = least (if double_leb m x then m else x) xs

abbrev pub greatest : Double → List Double → Double
greatest m [] = m
greatest m (x ∷ xs) = greatest (if double_leb x m then m else x) xs

abbrev pub no_values : Description
no_values = record {
  count = 0;
  mean = none;
  p50 = none;
  p95 = none;
  p99 = none;
  min = none;
  max = none;
}

-- The dict of a sample, from its percentiles.
abbrev pub description_of : Double → List Double → (p50 p95 p99 : Option Double) → Description
description_of x xs p50 p95 p99 = record {
  count = length (x ∷ xs);
  mean = some (fmean (x ∷ xs));
  p50 = p50;
  p95 = p95;
  p99 = p99;
  min = some (least x xs);
  max = some (greatest x xs);
}

unfoldable pub describe_clean : List Double → Option Description
describe_clean [] = some no_values
describe_clean (x ∷ xs) = do
  p50 ← percentile (x ∷ xs) 50
  p95 ← percentile (x ∷ xs) 95
  p99 ← percentile (x ∷ xs) 99
  some (description_of x xs p50 p95 p99)

unfoldable pub describe : List (Option ℕ) → Option Description
describe values = describe_clean (clean_values values)

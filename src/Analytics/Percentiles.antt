-- ===== src/Analytics/Percentiles.antt =====
-- Every subscript of `percentile` is in range, and the median of an odd sample.
use mathlib.Core.List.{Perm}
use hybrid_tls_lab.Prelude.{
  ℕ, ◌+◌, ◌-◌, ◌*◌, ◌^◌, ◌≤◌, ◌<◌, ◌≡◌, refl, ap, inl, inr, arith, some, true, List, [], ◌∷◌, ◌==◌,
  length, get_elem?, get_elem?_in_range, Bool-cases,
}
use hybrid_tls_lab.Prelude.Double.{Double, of_int, sub, div_int, floor, ceil}
use hybrid_tls_lab.Prelude.Double.Order.{
  sorted, sorted-perm, IsAscending, sorted-IsAscending, length-sorted, parts-le, parts-eq,
}
use hybrid_tls_lab.Analytics.{lerp, interpolate, percentile_of, percentile}

module _ (ordered : List Double) (position : Double) where
  interpolate_total :
      floor position < length ordered
      → ceil position < length ordered
      → (q : Double) × (interpolate ordered position ≡ some (some q))
  unfolding interpolate
  interpolate_total lo hi =
      let (a, found) = get_elem?_in_range ordered (floor position) lo in
      let (b, found') = get_elem?_in_range ordered (ceil position) hi in
      elim (Bool-cases (floor position == ceil position)) [
        | inl e ↦ (a, rw (e, found))
        | inr e ↦ (lerp a b (sub position (of_int (floor position))), rw (e, found, found'))
      ]

  interpolate_exact :
      {k : ℕ} {a : Double}
      → floor position ≡ k
      → ceil position ≡ k
      → get_elem? ordered k ≡ some a
      → interpolate ordered position ≡ some (some a)
  unfolding interpolate
  interpolate_exact {k} e e' found =
      let same : (k == k) ≡ true = ground arith in rw (e, e', same, found)

percentile_of_total :
    (ordered : List Double) (p : ℕ)
    → 0 < length ordered
    → length ordered ≤ 2 ^ 46
    → p ≤ 100
    → (q : Double) × (percentile_of ordered p ≡ some (some q))
unfolding percentile_of
percentile_of_total [] p some_values short h = absurd (omega arith)
percentile_of_total (x ∷ []) p some_values short h = (x, refl)
percentile_of_total (x ∷ y ∷ rest) p some_values short h =
    let n = length (x ∷ y ∷ rest) - 1 in
    let product : n * p ≤ 100 * n = grind (arith) in
    let (lo, hi) = parts-le (n * p) 100 n (omega arith) (omega arith) product in
    interpolate_total (x ∷ y ∷ rest) (div_int (n * p) 100) (omega arith) (omega arith)

-- A sample of at least one value and at most 2 ^ 46 has a p-th percentile for every whole p up to
-- 100: no subscript is out of range.
pub percentile_total :
    (x : Double) (xs : List Double) (p : ℕ)
    → length (x ∷ xs) ≤ 2 ^ 46
    → p ≤ 100
    → (q : Double) × (percentile (x ∷ xs) p ≡ some (some q))
unfolding percentile
percentile_total x xs p short h =
    let same = length-sorted (x ∷ xs) in
    percentile_of_total (sorted (x ∷ xs)) p (omega arith) (omega arith) h

percentile_of_middle :
    (ordered : List Double) (k : ℕ) {m : Double}
    → length ordered ≡ 2 * k + 1
    → length ordered ≤ 2 ^ 46
    → get_elem? ordered k ≡ some m
    → percentile_of ordered 50 ≡ some (some m)
unfolding percentile_of
percentile_of_middle [] k odd short found = absurd (omega arith)
percentile_of_middle (x ∷ []) k odd short found =
    let first : k ≡ 0 = omega arith in ap some (rw first at found)
percentile_of_middle (x ∷ y ∷ rest) k odd short found =
    let n = length (x ∷ y ∷ rest) - 1 in
    let (lo, hi) = parts-eq (n * 50) 100 k (omega arith) (omega arith) (omega arith) in
    interpolate_exact (x ∷ y ∷ rest) (div_int (n * 50) 100) lo hi found

-- The 50th percentile of 2k + 1 values, up to 2 ^ 46 of them, is the k-th (from 0) of the values
-- in ascending order, without a rounding.
pub percentile_median :
    (xs : List Double) (k : ℕ)
    → length xs ≡ 2 * k + 1
    → length xs ≤ 2 ^ 46
    → (ordered : List Double) × (m : Double) × Perm ordered xs
      × IsAscending ordered
      × (get_elem? ordered k ≡ some m)
      × (percentile xs 50 ≡ some (some m))
unfolding percentile
percentile_median xs k odd short =
    let same = length-sorted xs in
    let (m, found) = get_elem?_in_range (sorted xs) k (omega arith) in
    (
      sorted xs,
      m,
      sorted-perm xs,
      sorted-IsAscending xs,
      found,
      percentile_of_middle (sorted xs) k (omega arith) (omega arith) found,
    )

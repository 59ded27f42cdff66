-- ===== src/Score/Summary/Range.antt =====
-- The least, the greatest and the average total of `score_summary`.
use hybrid_tls_lab.Prelude.{
  ℕ, ◌*◌, ◌≤◌, ◌<◌, ◌≡◌, refl, arith, List, [], ◌∷◌, length, sum_of, All, if◌then◌else◌, ltb,
  Bool-cases, inl, inr, All-map, ◌==◌, false, All-of_map, All-and, le-sum_of, sum_of-le,
}
use mathlib.Core.List.{Memᴰ}
use native.Mathlib.Nat.{le_trans}
use hybrid_tls_lab.Prelude.Double.Bounds.{round-div_int_bounds}
use hybrid_tls_lab.Score.{Scored}
use hybrid_tls_lab.Score.Summary.{
  min_from, max_from, min_of, max_of, totals, average, score_summary,
}

least_le : (x m : ℕ) → ((if ltb x m then x else m) ≤ m) × ((if ltb x m then x else m) ≤ x)
least_le x m = ground arith

greatest_ge : (x m : ℕ) → (m ≤ (if ltb m x then x else m)) × (x ≤ (if ltb m x then x else m))
greatest_ge x m = ground arith

min_from-le : (m : ℕ) (xs : List ℕ) → (min_from m xs ≤ m) × All (λ x. min_from m xs ≤ x) xs
min_from-le m [] = (omega arith, tt)
min_from-le m (x ∷ xs) =
    let least : ℕ = if ltb x m then x else m in
    let (below, all) = min_from-le least xs in
    let (le_m, le_x) = least_le x m in (le_trans below le_m, (le_trans below le_x, all))

le-max_from : (m : ℕ) (xs : List ℕ) → (m ≤ max_from m xs) × All (λ x. x ≤ max_from m xs) xs
le-max_from m [] = (omega arith, tt)
le-max_from m (x ∷ xs) =
    let greatest : ℕ = if ltb m x then x else m in
    let (above, all) = le-max_from greatest xs in
    let (m_le, x_le) = greatest_ge x m in (le_trans m_le above, (le_trans x_le above, all))

max_from-le : (k m : ℕ) (xs : List ℕ) → m ≤ k → All (λ x. x ≤ k) xs → max_from m xs ≤ k
max_from-le k m [] h all = h
max_from-le k m (x ∷ xs) h all = max_from-le k (if ltb m x then x else m) xs (ground arith) all.1

min_from-mem : (m : ℕ) (xs : List ℕ) → Memᴰ (min_from m xs) (m ∷ xs)
min_from-mem m [] = Memᴰ.head refl
min_from-mem m (x ∷ xs) = elim (Bool-cases (ltb x m)) [
  | inl e ↦ rw e (Memᴰ.tail (min_from-mem x xs))
  | inr e ↦ rw e (mem_skip (min_from-mem m xs))
]
  where
    mem_skip : {y : ℕ} → Memᴰ y (m ∷ xs) → Memᴰ y (m ∷ x ∷ xs)
    mem_skip (Memᴰ.head e) = Memᴰ.head e
    mem_skip (Memᴰ.tail t) = Memᴰ.tail (Memᴰ.tail t)

max_from-mem : (m : ℕ) (xs : List ℕ) → Memᴰ (max_from m xs) (m ∷ xs)
max_from-mem m [] = Memᴰ.head refl
max_from-mem m (x ∷ xs) = elim (Bool-cases (ltb m x)) [
  | inl e ↦ rw e (Memᴰ.tail (max_from-mem x xs))
  | inr e ↦ rw e (mem_skip (max_from-mem m xs))
]
  where
    mem_skip : {y : ℕ} → Memᴰ y (m ∷ xs) → Memᴰ y (m ∷ x ∷ xs)
    mem_skip (Memᴰ.head e) = Memᴰ.head e
    mem_skip (Memᴰ.tail t) = Memᴰ.tail (Memᴰ.tail t)

average_bounds :
    (sum n lo hi : ℕ)
    → n * lo ≤ sum
    → sum ≤ n * hi
    → 0 < n
    → hi ≤ 100
    → (lo ≤ average sum n) × (average sum n ≤ hi)
unfolding average
average_bounds sum n lo hi above below pos small =
    let some_rows : (n == 0) ≡ false = ground arith in
    rw some_rows (round-div_int_bounds sum n lo hi pos above below (omega arith))

-- For rows that score at most 100, and at least one of them: the least and the greatest total are
-- totals of rows, every total lies between them, and so does the rounded average.
pub score_summary_range :
    (r : Scored) (rows : List Scored)
    → All (λ s. s.total ≤ 100) (r ∷ rows)
    → let s = score_summary (r ∷ rows) in
      Memᴰ s.min (totals (r ∷ rows))
      × Memᴰ s.max (totals (r ∷ rows))
      × All (λ x. (s.min ≤ x) × (x ≤ s.max)) (totals (r ∷ rows))
      × (s.min ≤ s.avg)
      × (s.avg ≤ s.max)
unfolding score_summary min_of max_of
score_summary_range r rows small =
    let (min_le, mins) = min_from-le r.total (totals rows) in
    let (le_max, maxs) = le-max_from r.total (totals rows) in
    let top =
      max_from-le 100 r.total (totals rows) small.0 (All-map _ (λ s. s.total) rows small.1) in
    let lo = min_from r.total (totals rows) in
    let hi = max_from r.total (totals rows) in
    let below = le-sum_of (λ s. s.total) lo (r ∷ rows) (min_le, All-of_map _ _ rows mins) in
    let above = sum_of-le (λ s. s.total) hi (r ∷ rows) (le_max, All-of_map _ _ rows maxs) in
    let (lo_le, le_hi) =
      average_bounds (sum_of (λ s. s.total) (r ∷ rows)) (length (r ∷ rows)) lo hi below above
        (omega arith) top in
    (
      min_from-mem r.total (totals rows),
      max_from-mem r.total (totals rows),
      ((min_le, le_max), All-and _ _ (totals rows) mins maxs),
      lo_le,
      le_hi,
    )

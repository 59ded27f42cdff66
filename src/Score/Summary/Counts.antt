-- ===== src/Score/Summary/Counts.antt =====
-- The counts of `score_summary`.
use hybrid_tls_lab.Prelude.{
  ◌+◌, ◌≡◌, refl, arith, List, [], ◌∷◌, length, count_if, length-keep, count_if-le-length, not,
  count_if-add-not,
}
use hybrid_tls_lab.Score.{Scored}
use hybrid_tls_lab.Score.Formula.{critical, high, moderate}
use hybrid_tls_lab.Score.Summary.{in_band, has_action, score_summary}

bands_partition :
    (rows : List Scored)
    → in_band critical rows + in_band high rows + in_band moderate rows ≡ length rows
bands_partition [] = refl
bands_partition (r ∷ rows) = ground (arith, bands_partition rows)

-- Every row is counted in exactly one band, and either as remediable or as one with no action;
-- the rows with no action are those of effort 0.
pub score_summary_counts :
    (rows : List Scored)
    → let s = score_summary rows in
      (s.critical + s.high + s.moderate ≡ s.n)
      × (s.remediable + s.no_action ≡ s.n)
      × (s.no_action ≡ count_if (λ r. not (has_action r)) rows)
      × (s.n ≡ length rows)
unfolding score_summary
score_summary_counts rows = omega (
  arith,
  bands_partition rows,
  length-keep has_action rows,
  count_if-le-length has_action rows,
  count_if-add-not has_action rows,
)

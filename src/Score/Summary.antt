-- ===== src/Score/Summary.antt =====
-- dashboard/app/score.py, `score_summary`.
pub mod Counts
pub mod Range
use hybrid_tls_lab.Prelude.{
  ℕ, ◌+◌, ◌-◌, ◌≤◌, ◌≡◌, refl, arith, min, max, Bool, true, false, List, [], ◌∷◌, map, ◌==◌, ltb,
  leb, if◌then◌else◌, length, keep, count_if, sum_of, All, length-keep, count_if-le-length,
}
use hybrid_tls_lab.Prelude.Double.{div_int, round}
use hybrid_tls_lab.Prelude.Text.{Text}
use hybrid_tls_lab.Score.{Scored}
use hybrid_tls_lab.Score.Formula.{Band, critical, high, moderate, BandRange, bands, band_label}

abbrev pub band_eq : Band → Band → Bool
band_eq critical critical = true
band_eq high high = true
band_eq moderate moderate = true
band_eq _ _ = false

-- `min(..., default=0)` and `max(..., default=0)`
abbrev pub min_from : ℕ → List ℕ → ℕ
min_from m [] = m
min_from m (x ∷ xs) = min_from (if ltb x m then x else m) xs

abbrev pub max_from : ℕ → List ℕ → ℕ
max_from m [] = m
max_from m (x ∷ xs) = max_from (if ltb m x then x else m) xs

unfoldable pub min_of : List ℕ → ℕ
min_of [] = 0
min_of (x ∷ xs) = min_from x xs

unfoldable pub max_of : List ℕ → ℕ
max_of [] = 0
max_of (x ∷ xs) = max_from x xs

-- An entry of `bands` in the summary.
pub record BandCount : Type 0 where
  pub range : BandRange
  pub label : Text
  pub n : ℕ

pub record ScoreSummary : Type 0 where
  pub n : ℕ
  pub critical : ℕ
  pub high : ℕ
  pub moderate : ℕ
  pub avg : ℕ
  pub min : ℕ
  pub max : ℕ
  pub pq_ready : ℕ
  pub pq_cert : ℕ
  pub static_rsa : ℕ
  pub remediable : ℕ
  pub no_action : ℕ
  pub bands : List BandCount

abbrev pub in_band : Band → List Scored → ℕ
in_band b = count_if (λ r. band_eq r.band_code b)

abbrev pub has_action : Scored → Bool
has_action r = ltb 0 r.effort.0

abbrev pub totals : List Scored → List ℕ
totals = map (λ r. r.total)

-- `round(sum / (n or 1))`
unfoldable pub average : ℕ → ℕ → ℕ
average sum n = round (div_int sum (if n == 0 then 1 else n))

unfoldable pub score_summary : List Scored → ScoreSummary
score_summary rows =
    let remediable = keep has_action rows in
    record {
      n = length rows;
      critical = in_band Band.critical rows;
      high = in_band Band.high rows;
      moderate = in_band Band.moderate rows;
      avg = average (sum_of (λ r. r.total) rows) (length rows);
      min = min_of (totals rows);
      max = max_of (totals rows);
      pq_ready = count_if (λ r. r.posture.pqc) rows;
      pq_cert = count_if (λ r. leb r.f2.0 3) rows;
      static_rsa = count_if (λ r. r.posture.static_rsa) rows;
      remediable = length remediable;
      no_action = length rows - length remediable;
      bands =
          map (λ b. record { range = b; label = band_label b.code; n = in_band b.code rows }) bands;
    }

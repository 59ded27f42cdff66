-- ===== src/Roadmap/Scores.antt =====
-- The six scores that a ranked record can have.
use hybrid_tls_lab.Prelude.{ℕ, ◌≤◌, ◌≡◌, refl, ◌⊎◌, arith, some}
use hybrid_tls_lab.Prelude.Double.{nearest, scale_up, scale_down}
use hybrid_tls_lab.Prelude.Round.{round_div}
use hybrid_tls_lab.Prelude.Text.{Text}
use hybrid_tls_lab.Roadmap.{cost_weight, status_weight, score_of}

score_table :
    (score_of 3 1 ≡ 300)
    × (score_of 3 3 ≡ 100)
    × (score_of 3 8 ≡ 38)
    × (score_of 1 1 ≡ 100)
    × (score_of 1 3 ≡ 33)
    × (score_of 1 8 ≡ 12)
    × (score_of 0 1 ≡ 0)
    × (score_of 0 3 ≡ 0)
    × (score_of 0 8 ≡ 0)
unfolding score_of nearest scale_up scale_down round_div
score_table = (refl, refl, refl, refl, refl, refl, refl, refl, refl)

cost_weight_cases :
    (size : Text) {cost : ℕ} → cost_weight size ≡ some cost → (cost ≡ 1) ⊎ (cost ≡ 3) ⊎ (cost ≡ 8)
unfolding cost_weight
cost_weight_cases size h = ground arith

status_weight_cases :
    (status : Text)
    → (status_weight status ≡ 3) ⊎ (status_weight status ≡ 1) ⊎ (status_weight status ≡ 0)
unfolding status_weight
status_weight_cases status = ground arith

-- A cheaper remediation never scores lower at the same urgency, and a more urgent status never
-- scores lower at the same cost.
pub score_of_mono :
    (status status' size size' : Text) {cost cost' : ℕ}
    → cost_weight size ≡ some cost
    → cost_weight size' ≡ some cost'
    → cost ≤ cost'
    → status_weight status' ≤ status_weight status
    → score_of (status_weight status') cost' ≤ score_of (status_weight status) cost
score_of_mono status status' size size' h h' le le' = ground (
  arith,
  score_table,
  cost_weight_cases size h,
  cost_weight_cases size' h',
  status_weight_cases status,
  status_weight_cases status',
)

-- ===== src/Score/Bounds.antt =====
-- The range of the total, its band, and what raises it.
use hybrid_tls_lab.Prelude.{
  ℕ, ◌≤◌, ◌<◌, ◌≡◌, ◌≢◌, ◌↔◌, ◌⊎◌, inl, inr, arith, true, false, Option, none, some,
}
use hybrid_tls_lab.Prelude.Text.{Text}
use hybrid_tls_lab.Tprm.{Vendor}
use hybrid_tls_lab.Hndl.{HndlInput}
use hybrid_tls_lab.Score.Formula
use hybrid_tls_lab.Score.Formula.{
  Posture, penalty, Band, critical, high, moderate, first_band, band,
}
use hybrid_tls_lab.Score.Certs.{Scan}
use hybrid_tls_lab.Score.{posture_of, scan_or, years_of, sensitivity_of, total_of, score_row}

f1_cases :
    (p : Posture)
    → ((Formula.f1 p).0 ≡ 40) × (p.tls13 ≡ false)
      ⊎ ((Formula.f1 p).0 ≡ 38) × (p.tls13 ≡ true) × (p.pqc ≡ false)
      ⊎ ((Formula.f1 p).0 ≡ 5) × (p.tls13 ≡ true) × (p.pqc ≡ true)
unfolding Formula.f1
f1_cases p = ground arith

f2_bounds : (p : Posture) → (3 ≤ (Formula.f2 p).0) × ((Formula.f2 p).0 ≤ 35)
unfolding Formula.f2
f2_bounds p = ground arith

f3_bounds :
    (years : Option ℕ) (sens : Text)
    → (10 ≤ (Formula.f3 years sens).0) × ((Formula.f3 years sens).0 ≤ 25)
unfolding Formula.f3
f3_bounds none sens = omega arith
f3_bounds (some years) sens = ground arith

f3_short : (years : ℕ) (sens : Text) → years < 8 → (Formula.f3 (some years) sens).0 ≡ 10
unfolding Formula.f3
f3_short years sens h = ground arith

penalty_cases :
    (p : Posture)
    → ((penalty p).0 ≡ 10) × (p.static_rsa ≡ true) ⊎ ((penalty p).0 ≡ 0) × (p.static_rsa ≡ false)
unfolding penalty
penalty_cases p = ground arith

pub total_of_bounds :
    (p : Posture) (years : Option ℕ) (sens : Text)
    → (18 ≤ total_of p years sens) × (total_of p years sens ≤ 100)
unfolding total_of
total_of_bounds p years sens =
    grind (arith, f1_cases p, f2_bounds p, f3_bounds years sens, penalty_cases p)

-- The ranges of the bands, met without a gap up to 100.
pub band_iff :
    (total : ℕ)
    → total ≤ 100
    → ((band total ≡ critical) ↔ (90 ≤ total))
      × ((band total ≡ high) ↔ ((63 ≤ total) × (total ≤ 89)))
      × ((band total ≡ moderate) ↔ (total ≤ 62))
unfolding band first_band
band_iff total h = ground arith

-- Every scored row has a total from 18 to 100 and the band whose range holds it.
pub score_row_band :
    (row : Vendor) (scan : Option Scan) (stub : Option HndlInput)
    → let s = score_row row scan stub in
      (18 ≤ s.total)
      × (s.total ≤ 100)
      × ((s.band_code ≡ critical) ↔ (90 ≤ s.total))
      × ((s.band_code ≡ high) ↔ ((63 ≤ s.total) × (s.total ≤ 89)))
      × ((s.band_code ≡ moderate) ↔ (s.total ≤ 62))
unfolding score_row
score_row_band row scan stub =
    let p = posture_of row (scan_or scan) in
    let bounds = total_of_bounds p (years_of stub) (sensitivity_of stub) in
    let (is_critical, is_high, is_moderate) = band_iff _ bounds.1 in
    (bounds.0, bounds.1, is_critical, is_high, is_moderate)

effort_cases : (p : Posture) → (2 ≤ (Formula.effort p).0) ⊎ ((p.tls13 ≡ true) × (p.pqc ≡ true))
unfolding Formula.effort
effort_cases p = ground arith

ready_total :
    (p : Posture) (years : Option ℕ) (sens : Text)
    → p.tls13 ≡ true
    → p.pqc ≡ true
    → total_of p years sens ≤ 75
unfolding total_of
ready_total p years sens h h' =
    grind (arith, f1_cases p, f2_bounds p, f3_bounds years sens, penalty_cases p)

-- A critical row calls for a change of the key exchange: an effort of 2 or 3. A row that has
-- TLS 1.3 and a hybrid group scores at most 75.
pub score_row_critical :
    (row : Vendor) (scan : Option Scan) (stub : Option HndlInput)
    → let s = score_row row scan stub in
      (s.band_code ≡ critical → 2 ≤ s.effort.0)
      × (s.posture.tls13 ≡ true → s.posture.pqc ≡ true → s.total ≤ 75)
unfolding score_row
score_row_critical row scan stub =
    let p = posture_of row (scan_or scan) in
    let years = years_of stub in
    let sens = sensitivity_of stub in
    let (is_critical, _, _) = band_iff _ (total_of_bounds p years sens).1 in
    (
      (λ h. elim (effort_cases p) [
        | inl two ↦ two
        | inr (new, hybrid) ↦
            let at_least = is_critical.0 h in
            absurd (omega (arith, ready_total p years sens new hybrid))
      ]),
      ready_total p years sens,
    )

short_total :
    (p : Posture) (kept : Option ℕ) (sens : Text) {years : ℕ}
    → kept ≡ some years
    → years < 8
    → p.static_rsa ≡ false
    → total_of p kept sens ≤ 85
unfolding total_of
short_total p kept sens {years} known short safe =
    rw known (grind (arith, f1_cases p, f2_bounds p, f3_short years sens short, penalty_cases p))

-- Without static RSA, data kept for less than 8 years never make a row critical.
pub score_row_short_retention :
    (row : Vendor) (scan : Option Scan) (stub : HndlInput) {years : ℕ}
    → stub.retention_years ≡ some years
    → years < 8
    → (score_row row scan (some stub)).posture.static_rsa ≡ false
    → (score_row row scan (some stub)).band_code ≢ critical
unfolding score_row
score_row_short_retention row scan stub known short safe h =
    let p = posture_of row (scan_or scan) in
    let sens = sensitivity_of (some stub) in
    let low = short_total p stub.retention_years sens known short safe in
    let at_least = (band_iff _ (total_of_bounds p stub.retention_years sens).1).0.0 h in omega arith

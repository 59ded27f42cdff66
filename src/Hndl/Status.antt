-- ===== src/Hndl/Status.antt =====
-- When a target is exposed, and when it waits for its data owner.
use hybrid_tls_lab.Prelude.{ℕ, ◌≤◌, ◌≡◌, ◌≢◌, ◌↔◌, ◌⊎◌, refl, arith, Option, none, some, true}
use hybrid_tls_lab.Prelude.Text.{codes, text_eq_iff, contains}
use hybrid_tls_lab.Tprm.{TierClass, tier1}
use hybrid_tls_lab.Hndl.{HndlInput, exposure_status_of, status_exposed}

-- The retention is known, and reaches the low end of the threat window.
abbrev pub ReachesThreat : Option ℕ → Type 0
ReachesThreat none = ⊥
ReachesThreat (some years) = 8 ≤ years

-- The data are classified as sensitive and outlive the low end of the threat window.
abbrev pub OutlivesThreat : HndlInput → Type 0
OutlivesThreat stub =
    (stub.data_sensitivity ≢ codes "UNCLASSIFIED")
    × (stub.data_sensitivity ≢ codes "NONE")
    × ReachesThreat stub.retention_years

abbrev pub NeedsOwner : HndlInput → Type 0
NeedsOwner stub = (stub.retention_years ≡ none) ⊎ (stub.data_sensitivity ≡ codes "UNCLASSIFIED")

module _ (year : ℕ) where
  exposed_at :
      (tier : TierClass) (stub : HndlInput) (r : Option ℕ)
      → stub.retention_years ≡ r
      → (exposure_status_of year tier stub ≡ status_exposed)
        ↔ ((tier ≢ tier1) × OutlivesThreat stub)
  unfolding exposure_status_of
  exposed_at tier stub none e = rw e (
      ground (
        arith,
        text_eq_iff stub.data_sensitivity (codes "UNCLASSIFIED"),
        text_eq_iff stub.data_sensitivity (codes "NONE"),
      ))
  exposed_at tier stub (some years) e = rw e (
      ground (
        arith,
        text_eq_iff stub.data_sensitivity (codes "UNCLASSIFIED"),
        text_eq_iff stub.data_sensitivity (codes "NONE"),
      ))

  unclassified_at :
      (tier : TierClass) (stub : HndlInput) (r : Option ℕ)
      → stub.retention_years ≡ r
      → (contains (codes "UNCLASSIFIED") (exposure_status_of year tier stub) ≡ true)
        ↔ NeedsOwner stub
  unfolding exposure_status_of
  unclassified_at tier stub none e =
      rw e (ground (arith, text_eq_iff stub.data_sensitivity (codes "UNCLASSIFIED")))
  unclassified_at tier stub (some years) e =
      rw e (ground (arith, text_eq_iff stub.data_sensitivity (codes "UNCLASSIFIED")))

  -- Whatever the year, a target is EXPOSED exactly if its tier is not 1 and its data are known to
  -- be sensitive and to stay so for 8 years or more; and its status says UNCLASSIFIED exactly if
  -- the sensitivity or the retention is unknown.
  pub exposure_status_of_iff :
      (tier : TierClass) (stub : HndlInput)
      → ((exposure_status_of year tier stub ≡ status_exposed)
          ↔ ((tier ≢ tier1) × OutlivesThreat stub))
        × ((contains (codes "UNCLASSIFIED") (exposure_status_of year tier stub) ≡ true)
            ↔ NeedsOwner stub)
  exposure_status_of_iff tier stub = (
    exposed_at tier stub stub.retention_years refl,
    unclassified_at tier stub stub.retention_years refl,
  )

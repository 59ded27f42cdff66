-- ===== src/Tests/Posture.antt =====
-- The tiers, the mandates, the exposure and the roadmap on the two vendors.
use hybrid_tls_lab.Prelude.{ℕ, ◌≡◌, ◌≢◌, ◌↔◌, ◌+◌, refl, true, some, List, length, All, keep}
use mathlib.Core.List.{Perm}
use hybrid_tls_lab.Prelude.Sort.{IsDescending, with_key}
use hybrid_tls_lab.Prelude.Text.{codes, contains}
use hybrid_tls_lab.Tprm.{
  tier1, tier3, yn, tier_of, pqc_display, load_row, load_vendors, derive_tier, match_yes,
  yes_display,
}
use hybrid_tls_lab.Qvi.{load_targets, target_of}
use hybrid_tls_lab.Compliance.Verdicts.{HasAgreement, load_targets-HasAgreement}
use hybrid_tls_lab.Hndl.{status_exposed, exposure_status_of, build_exposure, load_hndl_inputs}
use hybrid_tls_lab.Hndl.Status.{OutlivesThreat, NeedsOwner, exposure_status_of_iff}
use hybrid_tls_lab.Roadmap.{build_roadmap}
use hybrid_tls_lab.Roadmap.Order.{score, ranked_of, unranked, build_roadmap_partition}
use hybrid_tls_lab.Tests.{
  vendors_csv, bank_vendor, shop_vendor, targets, hndl_inputs_csv, shop_input,
}

program : Unit {0}
unfolding yn tier_of derive_tier pqc_display match_yes yes_display load_row load_vendors
    load_targets target_of
program = tt

-- What the program computes for the two vendors.
bank_tier : (bank_vendor.tier_class ≡ tier1) × (bank_vendor.pqc ≡ codes "Yes (X25519MLKEM768)")
unfolding program
bank_tier = (refl, refl)

shop_tier : (shop_vendor.tier_class ≡ tier3) × (shop_vendor.pqc ≡ codes "No")
unfolding program
shop_tier = (refl, refl)

load_targets-HasAgreement_example : All HasAgreement targets
unfolding program
load_targets-HasAgreement_example = load_targets-HasAgreement vendors_csv {ts = targets} refl

exposure_status_of_iff_example :
    ((exposure_status_of 2026 tier3 shop_input ≡ status_exposed)
      ↔ ((tier3 ≢ tier1) × OutlivesThreat shop_input))
    × ((contains (codes "UNCLASSIFIED") (exposure_status_of 2026 tier3 shop_input) ≡ true)
        ↔ NeedsOwner shop_input)
exposure_status_of_iff_example = exposure_status_of_iff 2026 tier3 shop_input

build_roadmap_partition_example :
    let rs = build_exposure 2026 targets (load_hndl_inputs (some hndl_inputs_csv)) in
    let m = build_roadmap rs in
    Perm m.prioritized (ranked_of rs)
    × IsDescending score m.prioritized
    × ((k : ℕ) → with_key score k m.prioritized ≡ with_key score k (ranked_of rs))
    × (m.needs_input ≡ keep unranked rs)
    × (length m.prioritized + length m.needs_input ≡ length rs)
build_roadmap_partition_example =
    build_roadmap_partition (build_exposure 2026 targets (load_hndl_inputs (some hndl_inputs_csv)))

-- ===== src/Qvi/Summary.antt =====
-- The counts of `qvi_summary`.
use hybrid_tls_lab.Prelude.{
  ℕ, ◌+◌, ◌≤◌, ◌≡◌, refl, inl, inr, arith, Bool, true, false, List, [], ◌∷◌, ◌==◌, length, count_if,
  Bool-cases,
}
use hybrid_tls_lab.Prelude.Double.Bounds.{percent-le}
use hybrid_tls_lab.Tprm.{TierClass, tier1, tier2, tier3}
use hybrid_tls_lab.Qvi.{Target, Counts, bump, count_tiers, ready_pct, qvi_summary}

abbrev pub tier_eq : TierClass → TierClass → Bool
tier_eq tier1 tier1 = true
tier_eq tier2 tier2 = true
tier_eq tier3 tier3 = true
tier_eq _ _ = false

abbrev pub in_tier : TierClass → List Target → ℕ
in_tier k = count_if (λ t. tier_eq t.tier_class k)

-- The loop adds to each counter the number of targets of its tier.
count_tiers_lem :
    (c : Counts) (ts : List Target)
    → ((count_tiers c ts).tier1 ≡ c.tier1 + in_tier tier1 ts)
      × ((count_tiers c ts).tier2 ≡ c.tier2 + in_tier tier2 ts)
      × ((count_tiers c ts).tier3 ≡ c.tier3 + in_tier tier3 ts)
unfolding count_tiers
count_tiers_lem c [] = omega arith
count_tiers_lem c (t ∷ ts) = ground (arith, count_tiers_lem (bump t.tier_class c) ts)

ready_pct-le : (ready total : ℕ) → ready ≤ total → ready_pct ready total ≤ 100
unfolding ready_pct
ready_pct-le ready total h = elim (Bool-cases (total == 0)) [
  | inl e ↦ rw e (omega arith)
  | inr e ↦ rw e (percent-le ready total h (ground arith))
]

tiers_partition :
    (ts : List Target) → in_tier tier1 ts + in_tier tier2 ts + in_tier tier3 ts ≡ length ts
tiers_partition [] = refl
tiers_partition (t ∷ ts) = ground (arith, tiers_partition ts)

-- Each card shows the number of targets of its tier, the three add up to the total, and the
-- percentage of ready targets is at most 100.
pub qvi_summary_counts :
    (ts : List Target)
    → let s = qvi_summary ts in
      (s.tier1 ≡ in_tier tier1 ts)
      × (s.tier2 ≡ in_tier tier2 ts)
      × (s.tier3 ≡ in_tier tier3 ts)
      × (s.tier1 + s.tier2 + s.tier3 ≡ s.total)
      × (s.total ≡ length ts)
      × (s.pq_ready_pct ≤ 100)
unfolding qvi_summary
qvi_summary_counts ts =
    let start : Counts = record { tier1 = 0; tier2 = 0; tier3 = 0 } in
    let counted = count_tiers_lem start ts in
    let sum = tiers_partition ts in
    let ready : (count_tiers start ts).tier1 ≤ length ts = omega arith in
    omega (arith, ready_pct-le _ (length ts) ready)

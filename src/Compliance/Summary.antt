-- ===== src/Compliance/Summary.antt =====
-- The counts of `compliance_summary`.
use hybrid_tls_lab.Prelude.{
  ◌+◌, ◌≡◌, refl, arith, List, [], ◌∷◌, length, count_if, count_if-add-not, not,
}
use hybrid_tls_lab.Qvi.{Target}
use hybrid_tls_lab.Compliance.{
  MandateId, fips203, rbi_qsafe, eu_dora, check, Tally, PerMandate, evaluate, compliance_of,
  compute_compliance, no_verdicts, count_verdict, count_results, count_targets, compliance_summary,
}

abbrev pub tally_of : MandateId → PerMandate → Tally
tally_of fips203 p = p.fips203
tally_of rbi_qsafe p = p.rbi_qsafe
tally_of eu_dora p = p.eu_dora

-- One target adds one verdict to the tally of each mandate.
count_one :
    (m : MandateId) (t : Target) (p : PerMandate)
    → tally_of m (count_results (compliance_of t).mandates p)
      ≡ count_verdict (check m t) (tally_of m p)
unfolding count_results compliance_of evaluate
count_one fips203 t p = refl
count_one rbi_qsafe t p = refl
count_one eu_dora t p = refl

count_all :
    (m : MandateId) (ts : List Target) (p : PerMandate)
    → let result = tally_of m (count_targets (compute_compliance ts) p) in
      let start = tally_of m p in
      (result.pass ≡ start.pass + count_if (check m) ts)
      × (result.fail ≡ start.fail + count_if (λ t. not (check m t)) ts)
unfolding compute_compliance count_targets
count_all m [] p = omega arith
count_all m (t ∷ ts) p =
    ground (arith, count_one m t p, count_all m ts (count_results (compliance_of t).mandates p))

abbrev none_counted : PerMandate
none_counted = record { fips203 = no_verdicts; rbi_qsafe = no_verdicts; eu_dora = no_verdicts }

-- For each mandate the summary counts the targets that pass its check and those that fail it,
-- and the two counts add up to the number of targets.
pub compliance_summary_counts :
    (m : MandateId) (ts : List Target)
    → let result = tally_of m (compliance_summary (compute_compliance ts)) in
      (result.pass ≡ count_if (check m) ts)
      × (result.fail ≡ count_if (λ t. not (check m t)) ts)
      × (result.pass + result.fail ≡ length ts)
unfolding compliance_summary
compliance_summary_counts fips203 ts =
    omega (arith, count_all fips203 ts none_counted, count_if-add-not (check fips203) ts)
compliance_summary_counts rbi_qsafe ts =
    omega (arith, count_all rbi_qsafe ts none_counted, count_if-add-not (check rbi_qsafe) ts)
compliance_summary_counts eu_dora ts =
    omega (arith, count_all eu_dora ts none_counted, count_if-add-not (check eu_dora) ts)

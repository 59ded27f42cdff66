-- ===== src/Compliance.antt =====
-- dashboard/app/compliance.py: the mandates, their checks on a target, and the counts.
pub mod Verdicts
pub mod Summary
use hybrid_tls_lab.Prelude.{ℕ, ◌+◌, Bool, true, false, not, ◌&&◌, List, [], ◌∷◌, map}
use hybrid_tls_lab.Prelude.Text.{Text, codes, text_eq}
use hybrid_tls_lab.Qvi.{Target}

-- The `id` of a mandate.
pub data MandateId : Type 0 where
  fips203 rbi_qsafe eu_dora : MandateId

-- The order of `MANDATES`.
abbrev pub mandates : List MandateId
mandates = fips203 ∷ rbi_qsafe ∷ eu_dora ∷ []

abbrev pub mandate_name : MandateId → Text
mandate_name fips203 = codes "NIST FIPS 203 (ML-KEM)"
mandate_name rbi_qsafe = codes "RBI Q-SAFE"
mandate_name eu_dora = codes "EU DORA"

-- The `check` of a mandate. A target has every key, so none of them raises.
unfoldable pub check : MandateId → Target → Bool
check fips203 t = not (text_eq t.pqc (codes "No"))
check rbi_qsafe t = text_eq t.tls13 (codes "Yes") && not (text_eq t.pqc (codes "No"))
check eu_dora t =
    text_eq t.tls13 (codes "Yes")
    && text_eq t.static_rsa (codes "No")
    && text_eq t.weak_cipher (codes "No")

pub record MandateResult : Type 0 where
  pub id : MandateId
  pub name : Text
  pub passed : Bool

pub record ComplianceResult : Type 0 where
  pub target : Text
  pub mandates : List MandateResult

unfoldable pub evaluate : Target → MandateId → MandateResult
evaluate t m = record { id = m; name = mandate_name m; passed = check m t }

unfoldable pub compliance_of : Target → ComplianceResult
compliance_of t = record { target = t.target; mandates = map (evaluate t) mandates }

unfoldable pub compute_compliance : List Target → List ComplianceResult
compute_compliance targets = map compliance_of targets

pub record Tally : Type 0 where
  pub pass : ℕ
  pub fail : ℕ

-- The dict from the ids to their tallies.
pub record PerMandate : Type 0 where
  pub fips203 : Tally
  pub rbi_qsafe : Tally
  pub eu_dora : Tally

abbrev pub count_verdict : Bool → Tally → Tally
count_verdict true t = record t { pass = t.pass + 1 }
count_verdict false t = record t { fail = t.fail + 1 }

-- `per_mandate[mr["id"]][key] += 1`
abbrev pub count_result : MandateResult → PerMandate → PerMandate
count_result mr p = elim mr.id [
  | MandateId.fips203 ↦ record p { fips203 = count_verdict mr.passed p.fips203 }
  | MandateId.rbi_qsafe ↦ record p { rbi_qsafe = count_verdict mr.passed p.rbi_qsafe }
  | MandateId.eu_dora ↦ record p { eu_dora = count_verdict mr.passed p.eu_dora }
]

unfoldable pub count_results : List MandateResult → PerMandate → PerMandate
count_results [] p = p
count_results (mr ∷ mrs) p = count_results mrs (count_result mr p)

unfoldable pub count_targets : List ComplianceResult → PerMandate → PerMandate
count_targets [] p = p
count_targets (r ∷ rs) p = count_targets rs (count_results r.mandates p)

abbrev pub no_verdicts : Tally
no_verdicts = record { pass = 0; fail = 0 }

unfoldable pub compliance_summary : List ComplianceResult → PerMandate
compliance_summary results =
    count_targets results
      (record { fips203 = no_verdicts; rbi_qsafe = no_verdicts; eu_dora = no_verdicts })

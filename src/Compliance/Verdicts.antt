-- ===== src/Compliance/Verdicts.antt =====
-- The verdicts against the tier of the same target.
use hybrid_tls_lab.Prelude.{
  ◌≡◌, refl, ap, sym, ◌↔◌, arith, some, Bool, true, false, not, ◌&&◌, List, All, All-imp, All-map,
  >>=-eq-some,
}
use mathlib.Core.Path.{subst, subst₂, fun_ext}
use mathlib.Core.Option.{some-injective}
use hybrid_tls_lab.Prelude.Text.{Text, codes, text_eq}
use hybrid_tls_lab.Tprm.{
  CsvRow, Findings, TierClass, tier1, tier2, tier3, tier_of, yes_no, load_vendors,
}
use hybrid_tls_lab.Tprm.Tiers.{IsDerived, shown, load_vendors-All-IsDerived}
use hybrid_tls_lab.Qvi.{Target, target_of, load_targets}
use hybrid_tls_lab.Compliance.{MandateId, fips203, rbi_qsafe, eu_dora, check}

-- The verdicts on what a row shows.
abbrev pub verdict : MandateId → Findings → Bool
verdict fips203 f = f.pqc
verdict rbi_qsafe f = f.tls13 && f.pqc
verdict eu_dora f = f.tls13 && not f.static_rsa && not f.weak_cipher

text_eq-no_of_yes_no :
    (s : Text) (b : Bool) → s ≡ yes_no b → text_eq s (codes "No") ≡ not (text_eq s (codes "Yes"))
text_eq-no_of_yes_no s true e = rw e
text_eq-no_of_yes_no s false e = rw e

check-eq-verdict :
    (m : MandateId) (t : Target) → IsDerived t.row → check m t ≡ verdict m (shown t.row)
unfolding check
check-eq-verdict fips203 t d = refl
check-eq-verdict rbi_qsafe t d = refl
check-eq-verdict eu_dora t d =
    rw (text_eq-no_of_yes_no _ _ d.static_rsa_shown, text_eq-no_of_yes_no _ _ d.weak_cipher_shown)

-- What a tier says of the three verdicts.
abbrev pub Agrees : TierClass → (MandateId → Bool) → Type 0
Agrees tier passes =
    ((tier ≡ tier1) ↔ (passes fips203 ≡ true) × (passes rbi_qsafe ≡ true) × (passes eu_dora ≡ true))
    × ((tier ≡ tier2)
        ↔ (passes fips203 ≡ false) × (passes rbi_qsafe ≡ false) × (passes eu_dora ≡ true))
    × ((tier ≡ tier3) ↔ (passes eu_dora ≡ false))

tier_of-Agrees : (f : Findings) → Agrees (tier_of f).0 (λ m. verdict m f)
unfolding tier_of
tier_of-Agrees f = ground arith

abbrev pub HasAgreement : Target → Type 0
HasAgreement t = Agrees t.tier_class (λ m. check m t)

pub check-HasAgreement : (t : Target) → IsDerived t.row → HasAgreement t
check-HasAgreement t d =
    subst₂ Agrees (sym (ap (λ p. p.0) d.tier_shown)) (fun_ext (λ m. sym (check-eq-verdict m t d)))
      (tier_of-Agrees (shown t.row))

pub load_targets-All-IsDerived :
    (rows : List CsvRow) {ts : List Target}
    → load_targets rows ≡ some ts
    → All (λ t. IsDerived t.row) ts
unfolding load_targets target_of
load_targets-All-IsDerived rows h =
    let (vs, loaded, e) = >>=-eq-some (load_vendors rows) _ h in
    subst (All (λ (t : Target). IsDerived t.row)) (some-injective _ _ e)
      (All-map _ target_of vs (load_vendors-All-IsDerived rows loaded))

-- Of the targets that a CSV file gives, those of tier 1 pass every mandate, those of tier 2 pass
-- EU DORA alone, those of tier 3 fail EU DORA, and no others do.
pub load_targets-HasAgreement :
    (rows : List CsvRow) {ts : List Target} → load_targets rows ≡ some ts → All HasAgreement ts
load_targets-HasAgreement rows {ts} h =
    All-imp ts check-HasAgreement (load_targets-All-IsDerived rows h)

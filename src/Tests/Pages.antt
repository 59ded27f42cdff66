-- ===== src/Tests/Pages.antt =====
-- The pages and the documents of the two vendors.
use hybrid_tls_lab.Prelude.{◌≡◌, refl, All}
use hybrid_tls_lab.Prelude.Text.{codes, or_else, strip_by}
use hybrid_tls_lab.Tprm.{
  yn, tier_of, derive_tier, pqc_display, match_yes, yes_display, yes_with, load_row, load_vendors,
}
use hybrid_tls_lab.Qvi.{load_targets, target_of}
use hybrid_tls_lab.Cbom.{is_kem_trim, unspecified_kem, kem_name, remove_yes}
use hybrid_tls_lab.Cbom.Kem.{kem_name-yes_with}
use hybrid_tls_lab.Cbom.Findings.{HasMatchingDocument, load_targets-HasMatchingDocument}
use hybrid_tls_lab.Tests.{vendors_csv, targets}

loading : Unit {0}
unfolding yn tier_of derive_tier pqc_display match_yes yes_display load_row load_vendors
    load_targets target_of
loading = tt

-- A closing parenthesis that belongs to the provider is lost.
kem_name_of_parens : kem_name (yes_with (codes "X25519 (hybrid)")) ≡ codes "X25519 (hybrid"
unfolding kem_name remove_yes
kem_name_of_parens = refl

kem_name-yes_with_example :
    kem_name (yes_with (codes "X25519 (hybrid)"))
    ≡ or_else (strip_by is_kem_trim (codes "X25519 (hybrid)")) unspecified_kem
kem_name-yes_with_example = kem_name-yes_with (codes "X25519 (hybrid)") refl

load_targets-HasMatchingDocument_example :
    All (HasMatchingDocument (codes "1b4e") (codes "2026-01-01")) targets
unfolding loading
load_targets-HasMatchingDocument_example =
    load_targets-HasMatchingDocument (codes "1b4e") (codes "2026-01-01") vendors_csv {ts = targets}
      refl

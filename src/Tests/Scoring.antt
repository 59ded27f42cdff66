-- ===== src/Tests/Scoring.antt =====
-- The scores of the two vendors, with and without a scan.
use hybrid_tls_lab.Prelude.{◌≡◌, ◌↔◌, ◌≤◌, refl, true, false, none, some, List, [], ◌∷◌, map}
use mathlib.Core.List.{Perm}
use hybrid_tls_lab.Prelude.Sort.{IsDescending, sort_desc}
use hybrid_tls_lab.Prelude.Text.{codes}
use hybrid_tls_lab.Tprm.{
  yn, tier_of, derive_tier, pqc_display, match_yes, yes_display, load_row, load_vendors,
}
use hybrid_tls_lab.Tprm.Tiers.{load_row-IsDerived}
use hybrid_tls_lab.Hndl.{load_hndl_inputs}
use hybrid_tls_lab.Score.Formula
use hybrid_tls_lab.Score.Formula.{
  Posture, critical, high, moderate, yes_text, band, first_band, penalty,
}
use hybrid_tls_lab.Score.Certs.{
  ScanRecord, object, items, add_results, ScanFile, missing, mapping, not_mapping, Cache, certs,
  fill, add_scans, add_scan, scan_of,
}
use hybrid_tls_lab.Score.{
  Scored, posture_of, score_row, load_scored, score_rows, by_total, total_of,
}
use hybrid_tls_lab.Score.Bounds.{score_row_band}
use hybrid_tls_lab.Score.Listed.{unscanned_provider}
use hybrid_tls_lab.Score.Cached.{certs_not_mapping}
use hybrid_tls_lab.Score.Ranking.{Improves-total_of}
use hybrid_tls_lab.Score.Rows.{scored}
use hybrid_tls_lab.Score.Summary.{totals}
use hybrid_tls_lab.Main.{ScorePage, by_ratio, score_page}
use hybrid_tls_lab.Main.Pages.{score_page_views}
use hybrid_tls_lab.Tests.{bank, vendors_csv, bank_vendor, shop_vendor, hndl_inputs_csv, shop_input}

program : Unit {0}
unfolding yn tier_of derive_tier pqc_display match_yes yes_display load_row load_vendors
program = tt

scoring : Unit {0}
unfolding program yes_text posture_of certs fill add_results add_scans add_scan scan_of Formula.f1
    Formula.f2 Formula.f3 penalty total_of band first_band score_row Formula.effort
scoring = tt

abbrev shop_scan : ScanRecord
shop_scan = record {
  label = some (codes "Shop");
  certificate = none;
  tls13 = some true;
  pqc = some false;
  static_rsa = some false;
}

abbrev scans : List ScanFile
scans = missing ∷ mapping (items (object shop_scan ∷ [])) ∷ []

abbrev shop_cache : Cache
shop_cache = (codes "Shop", scan_of shop_scan) ∷ []

abbrev scored_rows : List Scored
scored_rows = score_row bank_vendor none none ∷ score_row shop_vendor none (some shop_input) ∷ []

-- The totals without a scan: RSA certificates, no owner input for the bank, 10 years for the shop.
unscanned_totals : totals scored_rows ≡ 98 ∷ 100 ∷ []
unfolding program scoring
unscanned_totals = refl

score_row_band_example :
    let s = score_row shop_vendor (some (scan_of shop_scan)) (some shop_input) in
    (18 ≤ s.total)
    × (s.total ≤ 100)
    × ((s.band_code ≡ critical) ↔ (90 ≤ s.total))
    × ((s.band_code ≡ high) ↔ ((63 ≤ s.total) × (s.total ≤ 89)))
    × ((s.band_code ≡ moderate) ↔ (s.total ≤ 62))
score_row_band_example = score_row_band shop_vendor (some (scan_of shop_scan)) (some shop_input)

unscanned_provider_example :
    let s = score_row bank_vendor none none in
    (s.posture.pqc ≡ false) × (s.f1.0 ≡ 38) × (s.effort.0 ≡ 2)
unfolding program
unscanned_provider_example =
    unscanned_provider bank_vendor (codes "X25519MLKEM768") none
      (load_row-IsDerived bank {v = bank_vendor} refl).1 refl refl

certs_not_mapping_example :
    let (found, state) = certs (missing ∷ not_mapping ∷ scans) none in
    (found ≡ none) × (certs scans state ≡ (some [], some []))
certs_not_mapping_example = certs_not_mapping (missing ∷ []) scans scans (tt, tt)

abbrev old_posture : Posture
old_posture = record {
  tls13 = false;
  pqc = false;
  static_rsa = true;
  weak_cipher = true;
  cert_key = codes "RSA 2048";
  cert_sig_alg = codes "sha256WithRSAEncryption";
}

abbrev new_posture : Posture
new_posture = record old_posture { tls13 = true; static_rsa = false }

Improves-total_of_example :
    (total_of new_posture (some 10) (codes "PII") ≤ total_of old_posture (some 10) (codes "PII"))
    × ((Formula.effort new_posture).0 ≤ (Formula.effort old_posture).0)
Improves-total_of_example =
    Improves-total_of new_posture old_posture (some 10) (codes "PII") (record {
      tls13 = λ e. refl;
      pqc = λ e. e;
      static_rsa = λ e. refl;
      cert_key = refl;
      cert_sig_alg = refl;
    })

-- What `load_scored` returns without a scan.
loaded_rows :
    (load_scored vendors_csv (some hndl_inputs_csv) [] none).0
    ≡ some (
        sort_desc by_total (
          map
            (scored [] (load_hndl_inputs (some hndl_inputs_csv)))
            (bank_vendor ∷ shop_vendor ∷ [])))
unfolding program certs fill load_scored score_rows
loaded_rows = refl

score_page_views_example :
    let rows = sort_desc by_total (
      map (scored [] (load_hndl_inputs (some hndl_inputs_csv))) (bank_vendor ∷ shop_vendor ∷ [])) in
    (p : ScorePage) × (q : ScorePage) × ((score_page false vendors_csv
        (some hndl_inputs_csv)
        []
        none).0
      ≡ some p)
    × ((score_page true vendors_csv (some hndl_inputs_csv) [] none).0 ≡ some q)
    × (p.targets ≡ rows)
    × Perm q.targets rows
    × IsDescending by_ratio q.targets
    × (q.s.n ≡ p.s.n)
    × (q.s.critical ≡ p.s.critical)
    × (q.s.high ≡ p.s.high)
    × (q.s.moderate ≡ p.s.moderate)
    × (q.s.pq_ready ≡ p.s.pq_ready)
    × (q.s.static_rsa ≡ p.s.static_rsa)
    × (q.s.remediable ≡ p.s.remediable)
score_page_views_example = score_page_views vendors_csv (some hndl_inputs_csv) [] none loaded_rows

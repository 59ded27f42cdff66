-- ===== src/Score.antt =====
-- dashboard/app/score.py: the scored rows and their summary.
pub mod Formula
pub mod Certs
pub mod Summary
pub mod Bounds
pub mod Listed
pub mod Cached
pub mod Ranking
pub mod Rows
use hybrid_tls_lab.Prelude.{
  ℕ, ◌+◌, ◌-◌, min, max, Bool, true, false, Option, none, some, List, [], ◌∷◌, ◌==◌, ltb, leb,
  if◌then◌else◌, length, keep, count_if, sum_of,
}
use hybrid_tls_lab.Prelude.Double.{of_int, div_int, round, round_to}
use hybrid_tls_lab.Prelude.Dict.{Dict, lookup}
use hybrid_tls_lab.Prelude.Sort.{sort_desc}
use hybrid_tls_lab.Prelude.Text.{Text, codes, or_else}
use hybrid_tls_lab.Tprm.{CsvRow, Vendor, load_vendors}
use hybrid_tls_lab.Hndl.{HndlRow, HndlInput, load_hndl_inputs}
use hybrid_tls_lab.Score.Formula.{
  Posture, yes_text, f1, f2, f3, effort, penalty, Band, critical, high, moderate, band, band_label,
}
use hybrid_tls_lab.Score.Certs.{Scan, ScanFile, Cache, certs}

pub record Scored : Type 0 where
  pub row : Vendor
  pub posture : Posture
  pub target : Text
  pub f1 : ℕ × Text
  pub f2 : ℕ × Text
  pub f3 : ℕ × Text
  pub pen : ℕ × Text
  pub total : ℕ
  pub band_code : Band
  pub band_label : Text
  pub effort : ℕ × Text
  -- in tenths
  pub ratio : ℕ
  pub retention_years : Option ℕ
  pub data_sensitivity : Text

-- `bool(scan[k]) if scan.get(k) is not None else _yes(row.get(k))`
abbrev pub measured_or : Option Bool → Text → Bool
measured_or (some b) listed = b
measured_or none listed = yes_text listed

abbrev pub no_scan : Scan
no_scan = record { cert_key = []; cert_sig_alg = []; tls13 = none; pqc = none; static_rsa = none }

abbrev pub scan_or : Option Scan → Scan
scan_or none = no_scan
scan_or (some scan) = scan

unfoldable pub posture_of : Vendor → Scan → Posture
posture_of row scan = record {
  tls13 = measured_or scan.tls13 row.tls13;
  pqc = measured_or scan.pqc row.pqc;
  static_rsa = measured_or scan.static_rsa row.static_rsa;
  weak_cipher = yes_text row.weak_cipher;
  cert_key = scan.cert_key;
  cert_sig_alg = scan.cert_sig_alg;
}

abbrev pub years_of : Option HndlInput → Option ℕ
years_of none = none
years_of (some stub) = stub.retention_years

abbrev pub sensitivity_of : Option HndlInput → Text
sensitivity_of none = codes "unclassified"
sensitivity_of (some stub) = or_else stub.data_sensitivity (codes "unclassified")

unfoldable pub total_of : Posture → Option ℕ → Text → ℕ
total_of p years sens =
    min 100 ((Formula.f1 p).0 + (Formula.f2 p).0 + (Formula.f3 years sens).0 + (penalty p).0)

-- `round(total / eff, 1) if eff else 0.0`
unfoldable pub ratio_of : ℕ → ℕ → ℕ
ratio_of total eff = if eff == 0 then 0 else round_to 10 (div_int total eff)

unfoldable pub score_row : Vendor → Option Scan → Option HndlInput → Scored
score_row row scan stub =
    let p = posture_of row (scan_or scan) in
    let years = years_of stub in
    let sens = sensitivity_of stub in
    let total = total_of p years sens in
    record {
      row = row;
      posture = p;
      target = row.vendor;
      f1 = Formula.f1 p;
      f2 = Formula.f2 p;
      f3 = Formula.f3 years sens;
      pen = penalty p;
      total = total;
      band_code = band total;
      band_label = Formula.band_label (band total);
      effort = Formula.effort p;
      ratio = ratio_of total (Formula.effort p).0;
      retention_years = years;
      data_sensitivity = sens;
    }

-- What a call may return, beside the cache that it leaves.
abbrev pub Outcome : Type 0
Outcome = Option (List Scored) × Option Cache

abbrev pub cons_outcome : Scored → Outcome → Outcome
cons_outcome s (none, cache) = (none, cache)
cons_outcome s (some rows, cache) = (some (s ∷ rows), cache)

-- The loop, which asks for the certificates in each round.
unfoldable pub score_rows : List ScanFile → Dict HndlInput → List Vendor → Option Cache → Outcome
score_rows files hndl [] cache = (some [], cache)
score_rows files hndl (row ∷ rows) cache =
    let (found, cache') = certs files cache in
    let rest = score_rows files hndl rows cache' in
    elim found [
      | none ↦ (none, cache')
      | some scans ↦
          cons_outcome (score_row row (lookup row.vendor scans) (lookup row.vendor hndl)) rest
    ]

abbrev pub by_total : Scored → ℕ
by_total s = s.total

abbrev pub sort_outcome : Outcome → Outcome
sort_outcome (none, cache) = (none, cache)
sort_outcome (some rows, cache) = (some (sort_desc by_total rows), cache)

unfoldable pub load_scored :
    List CsvRow → Option (List HndlRow) → List ScanFile → Option Cache → Outcome
load_scored csv hndl_rows files cache = elim (load_vendors csv) [
  | none ↦ (none, cache)
  | some rows ↦ sort_outcome (score_rows files (load_hndl_inputs hndl_rows) rows cache)
]

-- ===== src/Main.antt =====
-- dashboard/app/main.py: what the pages show, before it is rendered. A none of these is the
-- AttributeError that `load_vendors` lets through, which the server answers by status 500.
pub mod Pages
pub mod App
use hybrid_tls_lab.Prelude.{
  ℕ, Bool, Option, none, some, List, [], ◌∷◌, if◌then◌else◌, ◌>>=◌, first_where, map,
}
use hybrid_tls_lab.Prelude.Sort.{sort_desc}
use hybrid_tls_lab.Prelude.Text.{Text, text_eq}
use hybrid_tls_lab.Tprm.{CsvRow}
use hybrid_tls_lab.Qvi.{Target, load_targets}
use hybrid_tls_lab.Hndl.{
  HndlRow, ExposureRecord, ExposureSummary, load_hndl_inputs, build_exposure, exposure_summary,
}
use hybrid_tls_lab.Roadmap.{Roadmap, build_roadmap}
use hybrid_tls_lab.Cbom.{Document, build_cbom}
use hybrid_tls_lab.Score.{Scored, load_scored}
use hybrid_tls_lab.Score.Certs.{ScanFile, Cache}
use hybrid_tls_lab.Score.Summary.{ScoreSummary, score_summary}

abbrev pub by_ratio : Scored → ℕ
by_ratio r = r.ratio

-- The rows of the score page and their summary.
pub record ScorePage : Type 0 where
  pub targets : List Scored
  pub s : ScoreSummary

-- `queue` is the test `view == "queue"`.
abbrev pub view_rows : Bool → List Scored → List Scored
view_rows queue rows = if queue then sort_desc by_ratio rows else rows

unfoldable pub score_page :
    Bool
    → List CsvRow
    → Option (List HndlRow)
    → List ScanFile
    → Option Cache
    → Option ScorePage × Option Cache
score_page queue csv hndl_rows files cache =
    let (result, cache') = load_scored csv hndl_rows files cache in
    (
      (do
        loaded ← result
        some (record {
          targets = view_rows queue loaded;
          s = score_summary (view_rows queue loaded);
        })),
      cache',
    )

pub record HndlPage : Type 0 where
  pub exposure_records : List ExposureRecord
  pub exposure : ExposureSummary

-- The file of inputs depends on the scenario.
unfoldable pub hndl_page :
    (ten_years : Bool)
    → ℕ
    → List CsvRow
    → (default_rows rows_10y : Option (List HndlRow)) → Option HndlPage
hndl_page ten_years year csv default_rows rows_10y = do
  targets ← load_targets csv
  let hndl_inputs = load_hndl_inputs (if ten_years then rows_10y else default_rows)
  let exposure_records = build_exposure year targets hndl_inputs
  some
      (record { exposure_records = exposure_records; exposure = exposure_summary exposure_records })

unfoldable pub roadmap_page : ℕ → List CsvRow → Option (List HndlRow) → Option Roadmap
roadmap_page year csv hndl_rows = do
  targets ← load_targets csv
  some (build_roadmap (build_exposure year targets (load_hndl_inputs hndl_rows)))

-- None is the status 404.
abbrev pub respond : Text → Text → Option Target → Option Document
respond uuid now none = none
respond uuid now (some t) = some (build_cbom uuid now t)

unfoldable pub cbom_json : Text → Text → List CsvRow → Text → Option (Option Document)
cbom_json uuid now csv target_name = do
  targets ← load_targets csv
  some (respond uuid now (first_where (λ t. text_eq t.target target_name) targets))

-- ===== src/Main/App.antt =====
-- dashboard/app/main.py: `create_app`. A request is served from the database, the certificate cache
-- and the files of the installation; an exception that a handler lets through is the status 500.
pub mod Routes
pub mod Writes
pub mod Limits
pub mod Totals
pub mod Served
pub mod ReadBack
use hybrid_tls_lab.Prelude.{
  ℕ, Bool, true, false, Option, none, some, List, [], ◌∷◌, ◌++◌, if◌then◌else◌, ◌>>=◌,
}
use hybrid_tls_lab.Prelude.Text.{Text, codes, text_eq}
use hybrid_tls_lab.Tprm.{CsvRow}
use hybrid_tls_lab.Tprm.File.{read_vendors}
use hybrid_tls_lab.Qvi.{Target, QviSummary, load_targets, qvi_summary}
use hybrid_tls_lab.Compliance.{ComplianceResult, PerMandate, compute_compliance, compliance_summary}
use hybrid_tls_lab.Hndl.{HndlRow}
use hybrid_tls_lab.Hndl.File.{read_hndl_rows}
use hybrid_tls_lab.Roadmap.{Roadmap}
use hybrid_tls_lab.Cbom.{Document}
use hybrid_tls_lab.Score.Certs.{ScanFile, Cache}
use hybrid_tls_lab.Schemas.{accepts_run, accepts_server, accepts_client}
use hybrid_tls_lab.Db.{Database, Measurement, Result, ok, err}
use hybrid_tls_lab.Db.History.{Write, create, complete, server, client, apply, initial}
use hybrid_tls_lab.Db.Queries.{RunRow, DashboardData, dashboard_data}
use hybrid_tls_lab.Db.Export.{csv_export}
use hybrid_tls_lab.Main.{ScorePage, HndlPage, score_page, hndl_page, roadmap_page, cbom_json}

-- What the requests are served from beside the state: the files, the clock, and what SQLite leaves
-- open.
pub record Installation : Type 0 where
  pub vendors_csv : Text
  pub hndl_inputs_csv : Option Text
  pub hndl_inputs_10y_csv : Option Text
  pub scan_files : List ScanFile
  pub year : ℕ
  pub by_started : List RunRow → List RunRow
  pub by_created : List Measurement → List Measurement
  pub instant_text : ℕ → Text

pub record State : Type 0 where
  pub repository : Database
  pub cert_cache : Option Cache

-- The state of `create_app` on a database file that is new.
abbrev pub at_start : State
at_start = record { repository = initial; cert_cache = none }

-- The pages that show the context alone.
pub data Plain : Type 0 where
  overview scanner benchmark migration_cost docs : Plain

-- A call of a route's handler with its query; one that writes has a body that could be parsed. Which
-- handler a path reaches is FastAPI's matter.
pub data Request : Type 0 where
  health : Request
  page : Plain → (run_id : Option Text) → Request
  score : (run_id view : Option Text) → Request
  hndl : (run_id : Option Text) → (scenario : Text) → Request
  compliance : (run_id : Option Text) → Request
  roadmap : (run_id : Option Text) → Request
  cbom : (target_name uuid now : Text) → Request
  post : Write → Request
  dashboard : (run_id : Option Text) → Request
  results_csv : (run_id : Option Text) → Request

-- What `_page_context` gives to every page.
pub record PageContext : Type 0 where
  pub active_nav : Text
  pub initial : DashboardData
  pub targets : List Target
  pub qvi : QviSummary

-- What a page has of its own.
pub data Content : Type 0 where
  no_content : Content
  score_content : ScorePage → (view : Option Text) → Content
  hndl_content : HndlPage → (scenario scenario_label : Text) → Content
  compliance_content : List ComplianceResult → PerMandate → Content
  roadmap_content : Roadmap → Content

pub data Body : Type 0 where
  html : (title : Text) → PageContext → Content → Body
  json_ok : (id : Text) → Body
  json_health : Body
  json_dashboard : DashboardData → Body
  json_document : Document → Body
  csv_text : Text → Body
  detail : Text → Body
  no_body : Body

pub record Response : Type 0 where
  pub status : ℕ
  pub body : Body

abbrev pub server_error : Response
server_error = record { status = 500; body = no_body }

abbrev pub answer : Option Body → Response
answer none = server_error
answer (some b) = record { status = 200; body = b }

abbrev pub plain_title : Plain → Text
plain_title overview = codes "Overview"
plain_title scanner = codes "Scanner"
plain_title benchmark = codes "Crypto Engine"
plain_title migration_cost = codes "Migration Cost"
plain_title docs = codes "Docs"

abbrev pub plain_nav : Plain → Text
plain_nav overview = codes "overview"
plain_nav scanner = codes "scanner"
plain_nav benchmark = codes "benchmark"
plain_nav migration_cost = codes "migration"
plain_nav docs = codes "docs"

-- `view == "queue"`
abbrev pub is_queue : Option Text → Bool
is_queue none = false
is_queue (some view) = text_eq view (codes "queue")

abbrev pub is_ten_years : Text → Bool
is_ten_years scenario = text_eq scenario (codes "10y")

abbrev pub scenario_label : Bool → Text
scenario_label true = codes "Minimum regulatory floor (5y transaction & loan, 10y policy records)"
scenario_label false = codes "Institution-typical retention (8y transaction, 15y loan, 25y policy)"

abbrev pub score_title : Bool → Text
score_title queue = if queue then codes "Remediation Queue" else codes "Quantum Risk Score"

abbrev pub score_nav : Bool → Text
score_nav queue = if queue then codes "remediation" else codes "score"

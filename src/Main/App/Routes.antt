-- ===== src/Main/App/Routes.antt =====
-- dashboard/app/main.py: the handlers of the routes, and the service of requests one after the other.
use hybrid_tls_lab.Prelude.{
  ℕ, Bool, true, Option, none, some, List, [], ◌∷◌, ◌++◌, if◌then◌else◌, ◌>>=◌,
}
use hybrid_tls_lab.Prelude.Text.{Text, codes}
use hybrid_tls_lab.Tprm.{CsvRow}
use hybrid_tls_lab.Tprm.File.{read_vendors}
use hybrid_tls_lab.Qvi.{load_targets, qvi_summary}
use hybrid_tls_lab.Compliance.{compute_compliance, compliance_summary}
use hybrid_tls_lab.Hndl.{HndlRow}
use hybrid_tls_lab.Hndl.File.{read_hndl_rows}
use hybrid_tls_lab.Cbom.{Document}
use hybrid_tls_lab.Score.Certs.{Cache}
use hybrid_tls_lab.Schemas.{accepts_run, accepts_server, accepts_client}
use hybrid_tls_lab.Db.{Database, Result, ok, err}
use hybrid_tls_lab.Db.History.{Write, create, complete, server, client, apply}
use hybrid_tls_lab.Db.Queries.{dashboard_data}
use hybrid_tls_lab.Db.Export.{csv_export}
use hybrid_tls_lab.Main.{ScorePage, score_page, hndl_page, roadmap_page, cbom_json}
use hybrid_tls_lab.Main.App.{
  Installation, State, Plain, Request, health, page, score, hndl, compliance, roadmap, cbom, post,
  dashboard, results_csv, PageContext, no_content, score_content, hndl_content, compliance_content,
  roadmap_content, Body, html, json_ok, json_health, json_dashboard, json_document, csv_text,
  detail, no_body, Response, server_error, answer, plain_title, plain_nav, is_queue, is_ten_years,
  scenario_label, score_title, score_nav,
}

-- The constraints that FastAPI checks before it calls the handler; the id of a run that is completed
-- is a part of the path, and has none.
unfoldable pub accepts : Write → Bool
accepts (create payload now) = accepts_run payload
accepts (complete run_id started now) = true
accepts (server payload started now) = accepts_server payload
accepts (client payload started now) = accepts_client payload

-- The status of a success, and the id that is sent back.
abbrev pub success_status : Write → ℕ
success_status (create payload now) = 201
success_status (complete run_id started now) = 200
success_status (server payload started now) = 201
success_status (client payload started now) = 201

abbrev pub success_id : Write → Text
success_id (create payload now) = payload.run_id
success_id (complete run_id started now) = run_id
success_id (server payload started now) = payload.sample_id
success_id (client payload started now) = payload.sample_id

abbrev pub write_answer : Write → Result (Unit {0}) → Response
write_answer w (ok _) = record { status = success_status w; body = json_ok (success_id w) }
write_answer w (err e) = server_error

-- The four routes that write.
unfoldable pub handle_write : Write → Database → Response × Database
handle_write w db =
    if accepts w
    then (let (result, db') = apply w db in (write_answer w result, db'))
    else (record { status = 422; body = no_body }, db)

-- 404 is the HTTPException of the handler.
abbrev pub document_answer : Text → Option (Option Document) → Response
document_answer target_name none = server_error
document_answer target_name (some none) = record {
  status = 404;
  body = detail (codes "Unknown target: " ++ target_name);
}
document_answer target_name (some (some d)) = record { status = 200; body = json_document d }

-- A request that reads only the database.
abbrev pub reads : State → Option Body → Response × State
reads st b = (answer b, st)

module _ (env : Installation) where
  unfoldable pub page_context : Database → Option Text → Text → Option PageContext
  page_context db run_id nav = do
    csv ← read_vendors env.vendors_csv
    loaded ← load_targets csv
    shown ← dashboard_data env.by_started env.by_created run_id db
    some (record { active_nav = nav; initial = shown; targets = loaded; qvi = qvi_summary loaded })

  unfoldable pub plain_page : Plain → Option Text → Database → Option Body
  plain_page p run_id db = do
    context ← page_context db run_id (plain_nav p)
    some (html (plain_title p) context no_content)

  -- What `load_scored` reads.
  unfoldable pub score_inputs : Option (List CsvRow × Option (List HndlRow))
  score_inputs = do
    csv ← read_vendors env.vendors_csv
    hndl_rows ← read_hndl_rows env.hndl_inputs_csv
    some (csv, hndl_rows)

  unfoldable pub score_body : Option Text → Option Text → Database → Option ScorePage → Option Body
  score_body run_id view db shown = do
    p ← shown
    context ← page_context db run_id (score_nav (is_queue view))
    some (html (score_title (is_queue view)) context (score_content p view))

  -- `load_scored` is called first, and leaves its cache filled where the page then fails.
  abbrev pub score_outcome :
      Option Text
      → Option Text
      → State
      → Option (List CsvRow × Option (List HndlRow))
      → Option Body × Option Cache
  score_outcome run_id view st none = (none, st.cert_cache)
  score_outcome run_id view st (some (csv, hndl_rows)) =
      let (shown, cache) = score_page (is_queue view) csv hndl_rows env.scan_files st.cert_cache in
      (score_body run_id view st.repository shown, cache)

  unfoldable pub score_route : Option Text → Option Text → State → Option Body × Option Cache
  score_route run_id view st = score_outcome run_id view st score_inputs

  -- The file of the ten-year scenario is read only there.
  unfoldable pub hndl_route : Option Text → Text → Database → Option Body
  hndl_route run_id scenario db =
      let ten_years = is_ten_years scenario in
      do
        csv ← read_vendors env.vendors_csv
        hndl_rows ←
            read_hndl_rows (if ten_years then env.hndl_inputs_10y_csv else env.hndl_inputs_csv)
        shown ← hndl_page ten_years env.year csv hndl_rows hndl_rows
        context ← page_context db run_id (codes "hndl")
        some (
            html (codes "HNDL Exposure") context
              (hndl_content shown scenario (scenario_label ten_years)))

  unfoldable pub compliance_route : Option Text → Database → Option Body
  compliance_route run_id db = do
    csv ← read_vendors env.vendors_csv
    loaded ← load_targets csv
    let results = compute_compliance loaded
    context ← page_context db run_id (codes "compliance")
    some (
        html (codes "Compliance") context (compliance_content results (compliance_summary results)))

  unfoldable pub roadmap_route : Option Text → Database → Option Body
  roadmap_route run_id db = do
    csv ← read_vendors env.vendors_csv
    hndl_rows ← read_hndl_rows env.hndl_inputs_csv
    m ← roadmap_page env.year csv hndl_rows
    context ← page_context db run_id (codes "roadmap")
    some (html (codes "Roadmap") context (roadmap_content m))

  unfoldable pub cbom_route : Text → Text → Text → Response
  cbom_route target_name uuid now =
      document_answer target_name
        (do csv ← read_vendors env.vendors_csv; cbom_json uuid now csv target_name)

  unfoldable pub dashboard_route : Option Text → Database → Option Body
  dashboard_route run_id db = do
    shown ← dashboard_data env.by_started env.by_created run_id db
    some (json_dashboard shown)

  unfoldable pub serve : Request → State → Response × State
  serve health st = (record { status = 200; body = json_health }, st)
  serve (page p run_id) st = reads st (plain_page p run_id st.repository)
  serve (score run_id view) st =
      let (b, cache) = score_route run_id view st in (answer b, record st { cert_cache = cache })
  serve (hndl run_id scenario) st = reads st (hndl_route run_id scenario st.repository)
  serve (compliance run_id) st = reads st (compliance_route run_id st.repository)
  serve (roadmap run_id) st = reads st (roadmap_route run_id st.repository)
  serve (cbom target_name uuid now) st = (cbom_route target_name uuid now, st)
  serve (post w) st =
      let (response, db) = handle_write w st.repository in (response, record st { repository = db })
  serve (dashboard run_id) st = reads st (dashboard_route run_id st.repository)
  serve (results_csv run_id) st =
      reads st (some (csv_text (csv_export env.instant_text env.by_created run_id st.repository)))

  unfoldable pub serve_all : List Request → State → State
  serve_all [] st = st
  serve_all (r ∷ rs) st = serve_all rs (serve r st).1

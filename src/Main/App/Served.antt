-- ===== src/Main/App/Served.antt =====
-- That the requests that read are answered.
use hybrid_tls_lab.Prelude.{ℕ, Bool, true, false, ◌||◌, ◌==◌, List}
use hybrid_tls_lab.Prelude.Text.{Text}
use hybrid_tls_lab.Main.App.{
  Request, health, page, score, hndl, compliance, roadmap, cbom, post, dashboard, results_csv,
}

abbrev pub is_read : Request → Bool
is_read (post w) = false
is_read health = true
is_read (page p run_id) = true
is_read (score run_id view) = true
is_read (hndl run_id scenario) = true
is_read (compliance run_id) = true
is_read (roadmap run_id) = true
is_read (cbom target_name uuid now) = true
is_read (dashboard run_id) = true
is_read (results_csv run_id) = true

-- A document is found or it is not; every other read has what it asks for.
abbrev pub is_answer : Request → ℕ → Bool
is_answer (cbom target_name uuid now) status = status == 200 || status == 404
is_answer (post w) status = status == 200
is_answer health status = status == 200
is_answer (page p run_id) status = status == 200
is_answer (score run_id view) status = status == 200
is_answer (hndl run_id scenario) status = status == 200
is_answer (compliance run_id) status = status == 200
is_answer (roadmap run_id) status = status == 200
is_answer (dashboard run_id) status = status == 200
is_answer (results_csv run_id) status = status == 200

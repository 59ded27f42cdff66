-- ===== src/Tests/Reads.antt =====
-- The dashboard after the history of writes.
use hybrid_tls_lab.Prelude.{◌+◌, ◌≤◌, ◌≡◌, refl, arith, none, some, List, [], ◌∷◌}
use hybrid_tls_lab.Prelude.Sort.{insert_desc, sort_desc, sort_desc-perm}
use hybrid_tls_lab.Prelude.Text.{codes}
use hybrid_tls_lab.Db.Table.{find, upsert}
use hybrid_tls_lab.Db.{
  Run, Measurement, create_run, complete_run, record_server, record_client, server_body,
  client_body, insert_sample, ensure_run, mode_allowed, set_completed,
}
use hybrid_tls_lab.Db.History.{initial, apply, replay, replay-IsValid}
use hybrid_tls_lab.Db.Queries.{RunRow, DashboardData, run_row, runs}
use hybrid_tls_lab.Db.Queries.{dashboard_between}
use hybrid_tls_lab.Db.Between.{dashboard_between-replay}
use hybrid_tls_lab.Db.History.{server}
use hybrid_tls_lab.Db.{Database}
use hybrid_tls_lab.Tests.Storage.{writes, server_report}

reading : Unit {0}
unfolding replay apply create_run complete_run record_server record_client server_body client_body
    insert_sample ensure_run mode_allowed find upsert set_completed runs insert_desc sort_desc
    run_row
reading = tt

abbrev by_started : List RunRow → List RunRow
by_started = sort_desc (λ r. r.started_at)

abbrev by_created : List Measurement → List Measurement
by_created = sort_desc (λ m. m.created_at)

abbrev stored_run : Run
stored_run = record {
  id = codes "run-1";
  started_at = 0;
  completed_at = some 8;
  client_name = codes "openssl-client";
  openssl_version = none;
  iterations = some 1;
  warmup = some 0;
  notes = none;
}

abbrev listed_run : RunRow
listed_run = record { run = stored_run; samples = 1; successes = 0 }

-- A sample that is reported while the dashboard is computed.
abbrev meanwhile : Database
meanwhile =
    replay (server (record server_report { sample_id = codes "s-2" }) 9 10 ∷ [])
      (replay writes initial)

dashboard_between-replay_example :
    (d : DashboardData) × (dashboard_between by_started by_created none
        (replay writes initial)
        meanwhile
      ≡ some d)
    × (d.selected_run ≡ some (codes "run-1"))
    × (1 ≤ d.summary.classical.samples + d.summary.hybrid.samples)
    × (d.summary.hybrid_p256.samples ≡ 0)
unfolding reading
dashboard_between-replay_example =
    dashboard_between-replay by_started by_created (sort_desc-perm (λ r. r.started_at))
      (sort_desc-perm (λ m. m.created_at)) (replay writes initial)
      (server (record server_report { sample_id = codes "s-2" }) 9 10 ∷ []) {r = listed_run}
      {rs = []} (replay-IsValid writes) (omega arith) refl refl

-- ===== src/Db/Between.antt =====
-- The dashboard while measurements are written: `dashboard_data` reads the runs and the measurements
-- on two connections.
use mathlib.Core.List.{Perm}
use hybrid_tls_lab.Prelude.{
  ◌+◌, ◌^◌, ◌≤◌, ◌≡◌, refl, inl, inr, arith, false, none, some, List, [], ◌∷◌, length, count_if,
  Bool-cases,
}
use hybrid_tls_lab.Prelude.Text.{Text, text_eq, is_empty}
use hybrid_tls_lab.Db.Table.{upsert}
use hybrid_tls_lab.Db.{
  Measurement, Database, sample_key, insert_sample, ensure_run, server_row, server_update,
  server_body, client_row, client_update, client_body, create_run, complete_run, record_server,
  record_client,
}
use hybrid_tls_lab.Db.Integrity.{IsValid, OnOk, transaction_keeps, insert_sample_keeps}
use hybrid_tls_lab.Db.History.{
  Write, create, complete, server, client, apply, replay, replay_from-IsValid,
}
use hybrid_tls_lab.Db.Queries.{RunRow, of_run, DashboardData, runs, dashboard_between}
use hybrid_tls_lab.Db.Dashboard.{dashboard_between-first_run}

counted_from :
    (update : Measurement → Measurement) (new : Measurement) (id : Text)
    → ((m : Measurement) → (update m).run_id ≡ m.run_id)
    → (ms : List Measurement)
    → count_if (of_run id) ms ≤ count_if (of_run id) (upsert sample_key update new ms)
unfolding upsert
counted_from update new id keeps [] = omega arith
counted_from update new id keeps (m ∷ ms) =
    elim (Bool-cases (text_eq (sample_key m) (sample_key new))) [
      | inl e ↦ rw (e, keeps m) (omega arith)
      | inr e ↦ rw e (omega (arith, counted_from update new id keeps ms))
    ]

-- The number of measurements of a run does not fall.
abbrev Keeps : Text → Database → Database → Type 0
Keeps id db db' = count_if (of_run id) db.measurements ≤ count_if (of_run id) db'.measurements

module _ (id : Text) (update : Measurement → Measurement) (new : Measurement)
    (keeps : (m : Measurement) → (update m).run_id ≡ m.run_id) where
  insert_sample-Keeps :
      (first db : Database)
      → Keeps id first db
      → OnOk (Keeps id first) (insert_sample update new db)
  insert_sample-Keeps first db h =
      insert_sample_keeps (Keeps id first) update new db
        λ known allowed. omega (arith, h, counted_from update new id keeps db.measurements)

apply-Keeps : (id : Text) (w : Write) (db : Database) → Keeps id db (apply w db).1
unfolding apply create_run complete_run record_server record_client server_body client_body
    ensure_run
apply-Keeps id (create payload now) db = omega arith
apply-Keeps id (complete run_id started now) db = omega arith
apply-Keeps id (server payload started now) db =
    transaction_keeps (Keeps id db) (server_body payload started now) db (omega arith) (
      insert_sample-Keeps id (server_update payload now) (server_row payload now) (λ m. refl) db
        (ensure_run payload.run_id started db) (omega arith))
apply-Keeps id (client payload started now) db =
    transaction_keeps (Keeps id db) (client_body payload started now) db (omega arith) (
      insert_sample-Keeps id (client_update payload now) (client_row payload now) (λ m. refl) db
        (ensure_run payload.run_id started db) (omega arith))

replay-Keeps : (id : Text) (ws : List Write) (db : Database) → Keeps id db (replay ws db)
unfolding replay
replay-Keeps id [] db = omega arith
replay-Keeps id (w ∷ ws) db = omega (arith, apply-Keeps id w db, replay-Keeps id ws (apply w db).1)

module _ (by_started : List RunRow → List RunRow) (by_created : List Measurement → List Measurement)
    (started_perm : (rs : List RunRow) → Perm (by_started rs) rs)
    (created_perm : (ms : List Measurement) → Perm (by_created ms) ms) where
  -- A dashboard for which no run is asked for, any two orders of rows that rearrange them, and any
  -- writes that are made while it is computed, between its reading of the runs and of the
  -- measurements: if the database was valid and holds at most 2 ^ 46 measurements after the writes,
  -- and if the first run that was listed has an id that is not empty, then the dashboard is given; it
  -- selects that run, and its summary counts no fewer measurements of it than the list says, none of
  -- them in the mode hybrid_p256.
  pub dashboard_between-replay :
      (db : Database) (ws : List Write) {r : RunRow} {rs : List RunRow}
      → IsValid db
      → length (replay ws db).measurements ≤ 2 ^ 46
      → runs by_started 20 db ≡ r ∷ rs
      → is_empty r.id ≡ false
      → (d : DashboardData) × (dashboard_between by_started by_created none db (replay ws db)
          ≡ some d)
        × (d.selected_run ≡ some r.id)
        × (r.samples ≤ d.summary.classical.samples + d.summary.hybrid.samples)
        × (d.summary.hybrid_p256.samples ≡ 0)
  dashboard_between-replay db ws {r} {rs} v short listed named =
      let (d, shown, selected, counted, no_p256, _, samples) =
        dashboard_between-first_run by_started by_created started_perm created_perm db
          (replay ws db) (replay_from-IsValid ws db v) short listed named in
      (d, shown, selected, omega (arith, counted, samples, replay-Keeps r.id ws db), no_p256)

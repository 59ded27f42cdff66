-- ===== src/Db/History.antt =====
-- The writes that the API makes, one after the other, on the database of `initialize`. A write that
-- raises is answered by an error, and the next one finds the database as it was left.
use hybrid_tls_lab.Prelude.{ℕ, ◌≡◌, ◌⊎◌, inl, inr, refl, List, [], ◌∷◌}
use hybrid_tls_lab.Prelude.Text.{Text}
use hybrid_tls_lab.Schemas.{RunCreate, ServerMeasurement, ClientMeasurement}
use hybrid_tls_lab.Db.{
  Database, Result, Error, ok, err, transaction, server_body, client_body, create_run, complete_run,
  record_server, record_client,
}
use hybrid_tls_lab.Db.Integrity.{
  IsValid, create_run-IsValid, complete_run-IsValid, record_server-IsValid, record_client-IsValid,
}

-- A write, with the instants that its calls of `iso_now` return.
pub data Write : Type 0 where
  create : RunCreate → (now : ℕ) → Write
  complete : (run_id : Text) → (started now : ℕ) → Write
  server : ServerMeasurement → (started now : ℕ) → Write
  client : ClientMeasurement → (started now : ℕ) → Write

unfoldable pub apply : Write → Database → Result (Unit {0}) × Database
apply (create payload now) = create_run payload now
apply (complete run_id started now) = complete_run run_id started now
apply (server payload started now) = record_server payload started now
apply (client payload started now) = record_client payload started now

-- The database after `CREATE TABLE IF NOT EXISTS` on a new file.
abbrev pub initial : Database
initial = record { benchmark_runs = []; measurements = [] }

unfoldable pub replay : List Write → Database → Database
replay [] db = db
replay (w ∷ ws) db = replay ws (apply w db).1

apply-IsValid : (w : Write) (db : Database) → IsValid db → IsValid (apply w db).1
unfolding apply
apply-IsValid (create payload now) = create_run-IsValid payload now
apply-IsValid (complete run_id started now) = complete_run-IsValid run_id started now
apply-IsValid (server payload started now) = record_server-IsValid payload started now
apply-IsValid (client payload started now) = record_client-IsValid payload started now

pub replay_from-IsValid : (ws : List Write) (db : Database) → IsValid db → IsValid (replay ws db)
unfolding replay
replay_from-IsValid [] db v = v
replay_from-IsValid (w ∷ ws) db v = replay_from-IsValid ws (apply w db).1 (apply-IsValid w db v)

-- After any sequence of writes, failed ones included, the keys of both tables are unique, and
-- every measurement has a run that exists and a mode that the schema allows.
pub replay-IsValid : (ws : List Write) → IsValid (replay ws initial)
replay-IsValid ws =
    replay_from-IsValid ws initial
      (record { runs_distinct = tt; samples_distinct = tt; has_run = tt; has_mode = tt })

Result-cases : (r : Result Database) → ((db : Database) × (r ≡ ok db)) ⊎ ((e : Error) × (r ≡ err e))
Result-cases (ok db) = inl (db, refl)
Result-cases (err e) = inr (e, refl)

transaction_failed :
    (body : Database → Result Database) (db : Database) {e : Error}
    → (transaction body db).0 ≡ err e
    → (transaction body db).1 ≡ db
transaction_failed body db h = elim (Result-cases (body db)) [
  | inl (db', done) ↦ cc (h, done)
  | inr (e', failed) ↦ rw (failed, transaction)
]

-- A write that raises leaves the database as it was.
pub apply-err :
    (w : Write) (db : Database) {e : Error} → (apply w db).0 ≡ err e → (apply w db).1 ≡ db
unfolding apply create_run complete_run record_server record_client
apply-err (create payload now) db h = cc
apply-err (complete run_id started now) db h = cc
apply-err (server payload started now) db h =
    transaction_failed (server_body payload started now) db h
apply-err (client payload started now) db h =
    transaction_failed (client_body payload started now) db h

-- ===== src/Db/Atomic.antt =====
-- Which measurements are stored, and that a refused one leaves no trace.
use hybrid_tls_lab.Prelude.{ℕ, ◌≡◌, refl, true, false}
use hybrid_tls_lab.Prelude.Text.{Text, text_eq_refl}
use hybrid_tls_lab.Schemas.{
  Mode, classical, hybrid, hybrid_p256, ServerMeasurement, ClientMeasurement, mode_text,
}
use hybrid_tls_lab.Db.Table.{upsert, find-upsert}
use hybrid_tls_lab.Db.{
  Measurement, Database, Result, Error, ok, err, transaction, server_body, client_body,
  check_failed, run_key, sample_key, bare_run, ensure_run, mode_allowed, is_run, fits_row,
  insert_sample, server_row, server_update, record_server, client_row, client_update, record_client,
}

pub ensured :
    (id : Text) (now : ℕ) (db : Database) → is_run id (ensure_run id now db).benchmark_runs ≡ true
unfolding ensure_run
ensured id now db = rw (
  find-upsert run_key (λ r. r) (λ r. refl) (bare_run id now) id db.benchmark_runs,
  text_eq_refl id,
)

-- The outcome of a report, of either side.
pub insert_sample_stored :
    (update : Measurement → Measurement) (new : Measurement) (db : Database)
    → fits_row new ≡ true
    → mode_allowed new.mode ≡ true
    → is_run new.run_id db.benchmark_runs ≡ true
    → insert_sample update new db
      ≡ ok (record db { measurements = upsert sample_key update new db.measurements })
unfolding insert_sample
insert_sample_stored update new db fits allowed known = rw (fits, allowed, known)

pub insert_sample_refused :
    (update : Measurement → Measurement) (new : Measurement) (db : Database)
    → fits_row new ≡ true
    → mode_allowed new.mode ≡ false
    → insert_sample update new db ≡ err check_failed
unfolding insert_sample
insert_sample_refused update new db fits other = rw (fits, other)

pub transaction_ok :
    (body : Database → Result Database) (db : Database) {db' : Database}
    → body db ≡ ok db'
    → transaction body db ≡ (ok tt, db')
transaction_ok body db h = rw (h, transaction)

pub transaction_err :
    (body : Database → Result Database) (db : Database) {e : Error}
    → body db ≡ err e
    → transaction body db ≡ (err e, db)
transaction_err body db h = rw (h, transaction)

-- What a report that is stored does: it makes sure of the run, and adds its row or updates the one
-- that has its sample.
abbrev pub stored :
    (Measurement → Measurement) → Measurement → ℕ → Database → Result (Unit {0}) × Database
stored update new started db =
    let db' = ensure_run new.run_id started db in
    (ok tt, record db' { measurements = upsert sample_key update new db'.measurements })

module _ (payload : ServerMeasurement) (started now : ℕ) (db : Database) where
  pub server_stored :
      mode_allowed (mode_text payload.mode) ≡ true
      → record_server payload started now db
        ≡ stored (server_update payload now) (server_row payload now) started db
  unfolding record_server server_body
  server_stored allowed = transaction_ok (server_body payload started now) db (
      insert_sample_stored (server_update payload now) (server_row payload now)
        (ensure_run payload.run_id started db) refl allowed (ensured payload.run_id started db))

  server_refused :
      mode_allowed (mode_text payload.mode) ≡ false
      → record_server payload started now db ≡ (err check_failed, db)
  unfolding record_server server_body
  server_refused other = transaction_err (server_body payload started now) db (
      insert_sample_refused (server_update payload now) (server_row payload now)
        (ensure_run payload.run_id started db) refl other)

module _ (payload : ClientMeasurement) (started now : ℕ) (db : Database)
    (fits : fits_row (client_row payload now) ≡ true) where
  pub client_stored :
      mode_allowed (mode_text payload.mode) ≡ true
      → record_client payload started now db
        ≡ stored (client_update payload now) (client_row payload now) started db
  unfolding record_client client_body
  client_stored allowed = transaction_ok (client_body payload started now) db (
      insert_sample_stored (client_update payload now) (client_row payload now)
        (ensure_run payload.run_id started db) fits allowed (ensured payload.run_id started db))

  client_refused :
      mode_allowed (mode_text payload.mode) ≡ false
      → record_client payload started now db ≡ (err check_failed, db)
  unfolding record_client client_body
  client_refused other = transaction_err (client_body payload started now) db (
      insert_sample_refused (client_update payload now) (client_row payload now)
        (ensure_run payload.run_id started db) fits other)

-- The outcome of a report is the first of two for the modes classical and hybrid, and the second
-- for hybrid_p256.
abbrev pub ByMode :
    Mode → (outcome stored_outcome refused_outcome : Result (Unit {0}) × Database) → Type 0
ByMode classical outcome s r = outcome ≡ s
ByMode hybrid outcome s r = outcome ≡ s
ByMode hybrid_p256 outcome s r = outcome ≡ r

by_mode :
    (mode : Mode) {outcome s r : Result (Unit {0}) × Database}
    → (mode_allowed (mode_text mode) ≡ true → outcome ≡ s)
    → (mode_allowed (mode_text mode) ≡ false → outcome ≡ r)
    → ByMode mode outcome s r
unfolding mode_allowed
by_mode classical yes_case no_case = yes_case refl
by_mode hybrid yes_case no_case = yes_case refl
by_mode hybrid_p256 yes_case no_case = no_case refl

-- A server report in the mode classical or hybrid always succeeds, adding its row or updating the
-- row of its sample; one in the mode hybrid_p256 always fails the CHECK of the table, and leaves
-- the database as it was, without the run that was ensured.
pub record_server_outcome :
    (payload : ServerMeasurement) (started now : ℕ) (db : Database)
    → ByMode payload.mode
        (record_server payload started now db)
        (stored (server_update payload now) (server_row payload now) started db)
        (err check_failed, db)
record_server_outcome payload started now db =
    by_mode payload.mode (server_stored payload started now db)
      (server_refused payload started now db)

-- A client report whose byte counts are below 2 ^ 63 always succeeds in the mode classical or
-- hybrid, adding its row or updating the row of its sample; in the mode hybrid_p256 it always fails
-- the CHECK of the table, and leaves the database as it was.
pub record_client_outcome :
    (payload : ClientMeasurement) (started now : ℕ) (db : Database)
    → fits_row (client_row payload now) ≡ true
    → ByMode payload.mode
        (record_client payload started now db)
        (stored (client_update payload now) (client_row payload now) started db)
        (err check_failed, db)
record_client_outcome payload started now db fits =
    by_mode payload.mode (client_stored payload started now db fits)
      (client_refused payload started now db fits)

-- ===== src/Db/Store.antt =====
-- What the repository promises of its writes: two maps, from run ids and from sample ids, each of
-- which a write changes at one key. Nothing is said of tables, of their order, of transactions or of
-- foreign keys.
use hybrid_tls_lab.Prelude.{ℕ, not, Option, none, some, List, [], ◌∷◌, if◌then◌else◌}
use hybrid_tls_lab.Prelude.Text.{Text, text_eq}
use hybrid_tls_lab.Schemas.{RunCreate}
use hybrid_tls_lab.Db.Table.{find}
use hybrid_tls_lab.Db.{
  Run, Measurement, Database, Result, ok, err, overflow, check_failed, run_key, sample_key,
  bare_run, new_run, describe_run, fits_row, mode_allowed, server_row, server_update, client_row,
  client_update,
}
use hybrid_tls_lab.Db.History.{Write, create, complete, server, client, apply}

pub record Store : Type 0 where
  pub runs : Text → Option Run
  pub samples : Text → Option Measurement

-- A map changed at one key.
abbrev pub alter : {A : Type 0} → Text → (Option A → A) → (Text → Option A) → Text → Option A
alter k g f j = if text_eq k j then some (g (f j)) else f j

abbrev pub created : RunCreate → ℕ → Option Run → Run
created payload now none = new_run payload now
created payload now (some r) = describe_run payload r

abbrev pub known : Text → ℕ → Option Run → Run
known id started none = bare_run id started
known id started (some r) = r

abbrev pub completed : Text → (started now : ℕ) → Option Run → Run
completed id started now o = record (known id started o) { completed_at = some now }

abbrev pub reported : (Measurement → Measurement) → Measurement → Option Measurement → Measurement
reported update new none = new
reported update new (some m) = update m

-- A report is stored or refused by what it says alone.
abbrev pub report :
    (Measurement → Measurement) → Measurement → ℕ → Store → Result (Unit {0}) × Store
report update new started st =
    if not (fits_row new)
    then (err overflow, st)
    else if not (mode_allowed new.mode)
    then (err check_failed, st)
    else (
      ok tt,
      record {
        runs = alter new.run_id (known new.run_id started) st.runs;
        samples = alter new.sample_id (reported update new) st.samples;
      },
    )

unfoldable pub promise : Write → Store → Result (Unit {0}) × Store
promise (create payload now) st =
    (ok tt, record st { runs = alter payload.run_id (created payload now) st.runs })
promise (complete run_id started now) st =
    (ok tt, record st { runs = alter run_id (completed run_id started now) st.runs })
promise (server payload started now) st =
    report (server_update payload now) (server_row payload now) started st
promise (client payload started now) st =
    report (client_update payload now) (client_row payload now) started st

unfoldable pub promises : List Write → Store → Store
promises [] st = st
promises (w ∷ ws) st = promises ws (promise w st).1

-- The maps that a database stands for.
abbrev pub view : Database → Store
view db = record {
  runs = λ k. find run_key k db.benchmark_runs;
  samples = λ k. find sample_key k db.measurements;
}

abbrev pub nothing : Store
nothing = record { runs = λ _. none; samples = λ _. none }

-- The results of a sequence of writes, first to last.
unfoldable pub outcomes : List Write → Database → List (Result (Unit {0}))
outcomes [] db = []
outcomes (w ∷ ws) db = (apply w db).0 ∷ outcomes ws (apply w db).1

unfoldable pub promised : List Write → Store → List (Result (Unit {0}))
promised [] st = []
promised (w ∷ ws) st = (promise w st).0 ∷ promised ws (promise w st).1

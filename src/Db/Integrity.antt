-- ===== src/Db/Integrity.antt =====
-- The constraints of the schema hold in every database that the writes produce.
use hybrid_tls_lab.Prelude.{
  ℕ, ◌≡◌, refl, ◌∙◌, ap, arith, is_some, Bool, true, false, Option, none, some, List, [], ◌∷◌, All,
  All-imp, inl, inr, Bool-cases, if◌then◌else◌,
}
use hybrid_tls_lab.Prelude.Text.{Text, text_eq, text_eq_refl}
use hybrid_tls_lab.Schemas.{RunCreate, ServerMeasurement, ClientMeasurement}
use hybrid_tls_lab.Db.Table.{find, upsert, Distinct, find-upsert, upsert-Distinct, upsert-All}
use hybrid_tls_lab.Db.{
  Run, Measurement, Database, Result, ok, err, transaction, run_key, sample_key, bare_run,
  ensure_run, mode_allowed, is_run, fits_row, insert_sample, set_completed, new_run, describe_run,
  create_run, complete_run, server_row, server_update, server_body, client_body, record_server,
  client_row, client_update, record_client,
}

-- The keys are unique, and every measurement has a run that exists and a mode of the CHECK.
pub record IsValid (db : Database) : Type 0 where
  pub runs_distinct : Distinct run_key db.benchmark_runs
  pub samples_distinct : Distinct sample_key db.measurements
  pub has_run : All (λ m. is_run m.run_id db.benchmark_runs ≡ true) db.measurements
  pub has_mode : All (λ m. mode_allowed m.mode ≡ true) db.measurements

is_some_merged :
    (b : Bool) (r : Run) (o : Option Run)
    → is_some o ≡ true
    → is_some (if b then some r else o) ≡ true
is_some_merged true r o h = refl
is_some_merged false r o h = h

module _ (update : Run → Run) (keeps : (r : Run) → (update r).id ≡ r.id) (new : Run) where
  is_run-upsert :
      (id : Text) (rs : List Run)
      → is_run id rs ≡ true
      → is_run id (upsert run_key update new rs) ≡ true
  is_run-upsert id rs h =
      rw (find-upsert run_key update keeps new id rs) (is_some_merged (text_eq new.id id) _ _ h)

  is_run-upsert_self : (rs : List Run) → is_run new.id (upsert run_key update new rs) ≡ true
  is_run-upsert_self rs = rw (find-upsert run_key update keeps new new.id rs, text_eq_refl new.id)

  upsert_run-IsValid :
      (db : Database)
      → IsValid db
      → IsValid (record db { benchmark_runs = upsert run_key update new db.benchmark_runs })
  upsert_run-IsValid db v = record {
    runs_distinct = upsert-Distinct run_key update keeps new db.benchmark_runs v.runs_distinct;
    samples_distinct = v.samples_distinct;
    has_run = All-imp db.measurements (λ m. is_run-upsert m.run_id db.benchmark_runs) v.has_run;
    has_mode = v.has_mode;
  }

pub ensure_run-IsValid :
    (id : Text) (now : ℕ) (db : Database) → IsValid db → IsValid (ensure_run id now db)
unfolding ensure_run
ensure_run-IsValid id now = upsert_run-IsValid (λ r. r) (λ r. refl) (bare_run id now)

find-set_completed :
    (j id : Text) (now : ℕ) (rs : List Run)
    → is_some (find run_key j (set_completed id now rs)) ≡ is_some (find run_key j rs)
unfolding find set_completed
find-set_completed j id now [] = refl
find-set_completed j id now (r ∷ rs) = ground (arith, find-set_completed j id now rs)

none_of_not_some : (o : Option Run) → is_some o ≡ false → o ≡ none
none_of_not_some none h = refl
none_of_not_some (some r) h = cc

pub id_if :
    (b : Bool) (r : Run) (now : ℕ)
    → run_key (if b then record r { completed_at = some now } else r) ≡ r.id
id_if true r now = refl
id_if false r now = refl

set_completed-Distinct :
    (id : Text) (now : ℕ) (rs : List Run)
    → Distinct run_key rs
    → Distinct run_key (set_completed id now rs)
unfolding set_completed
set_completed-Distinct id now [] h = tt
set_completed-Distinct id now (r ∷ rs) h = (
  rw (id_if (text_eq r.id id) r now)
      (none_of_not_some _ (find-set_completed r.id id now rs ∙ ap is_some h.0)),
  set_completed-Distinct id now rs h.1,
)

set_completed-IsValid :
    (id : Text) (now : ℕ) (db : Database)
    → IsValid db
    → IsValid (record db { benchmark_runs = set_completed id now db.benchmark_runs })
set_completed-IsValid id now db v = record {
  runs_distinct = set_completed-Distinct id now db.benchmark_runs v.runs_distinct;
  samples_distinct = v.samples_distinct;
  has_run =
      All-imp db.measurements (λ m h. find-set_completed m.run_id id now db.benchmark_runs ∙ h)
        v.has_run;
  has_mode = v.has_mode;
}

-- What a body that raises nothing leaves.
abbrev pub OnOk : (Database → Type 0) → Result Database → Type 0
OnOk P (ok db) = P db
OnOk P (err e) = Unit

-- What holds of the database after an insertion that is made.
pub insert_sample_keeps :
    (P : Database → Type 0) (update : Measurement → Measurement) (new : Measurement) (db : Database)
    → (is_run new.run_id db.benchmark_runs ≡ true
        → mode_allowed new.mode ≡ true
        → P (record db { measurements = upsert sample_key update new db.measurements }))
    → OnOk P (insert_sample update new db)
unfolding insert_sample
insert_sample_keeps P update new db h = elim (Bool-cases (fits_row new)) [
  | inr large ↦ rw large tt
  | inl fits ↦ elim (Bool-cases (mode_allowed new.mode)) [
    | inr other ↦ rw (fits, other) tt
    | inl allowed ↦ elim (Bool-cases (is_run new.run_id db.benchmark_runs)) [
      | inr dangling ↦ rw (fits, allowed, dangling) tt
      | inl known ↦ rw (fits, allowed, known) (h known allowed)
    ]
  ]
]

module _ (update : Measurement → Measurement)
    (keeps_key : (m : Measurement) → (update m).sample_id ≡ m.sample_id)
    (keeps_run : (m : Measurement) → (update m).run_id ≡ m.run_id)
    (keeps_mode : (m : Measurement) → (update m).mode ≡ m.mode) (new : Measurement) where
  stored-IsValid :
      (db : Database)
      → IsValid db
      → is_run new.run_id db.benchmark_runs ≡ true
      → mode_allowed new.mode ≡ true
      → IsValid (record db { measurements = upsert sample_key update new db.measurements })
  stored-IsValid db v has_run allowed = record {
    runs_distinct = v.runs_distinct;
    samples_distinct =
        upsert-Distinct sample_key update keeps_key new db.measurements v.samples_distinct;
    has_run =
        upsert-All sample_key update keeps_key new (λ m. is_run m.run_id db.benchmark_runs ≡ true)
          db.measurements (λ m h. rw (keeps_run m) h) has_run v.has_run;
    has_mode =
        upsert-All sample_key update keeps_key new (λ m. mode_allowed m.mode ≡ true) db.measurements
          (λ m h. rw (keeps_mode m) h) allowed v.has_mode;
  }

  insert_sample-IsValid : (db : Database) → IsValid db → OnOk IsValid (insert_sample update new db)
  insert_sample-IsValid db v = insert_sample_keeps IsValid update new db (stored-IsValid db v)

-- What holds of the database before a transaction and of what its body leaves holds after it.
pub transaction_keeps :
    (P : Database → Type 0) (body : Database → Result Database) (db : Database)
    → P db
    → OnOk P (body db)
    → P (transaction body db).1
transaction_keeps P body db v h = go (body db) h
  where
    go : (r : Result Database) → OnOk P r → P (transaction (λ _. r) db).1
    go (ok db') h' = h'
    go (err e) h' = v

pub create_run-IsValid :
    (payload : RunCreate) (now : ℕ) (db : Database)
    → IsValid db
    → IsValid (create_run payload now db).1
unfolding create_run
create_run-IsValid payload now =
    upsert_run-IsValid (describe_run payload) (λ r. refl) (new_run payload now)

pub complete_run-IsValid :
    (run_id : Text) (started now : ℕ) (db : Database)
    → IsValid db
    → IsValid (complete_run run_id started now db).1
unfolding complete_run
complete_run-IsValid run_id started now db v =
    set_completed-IsValid run_id now (ensure_run run_id started db)
      (ensure_run-IsValid run_id started db v)

pub record_server-IsValid :
    (payload : ServerMeasurement) (started now : ℕ) (db : Database)
    → IsValid db
    → IsValid (record_server payload started now db).1
unfolding record_server server_body
record_server-IsValid payload started now db v =
    let db' = ensure_run payload.run_id started db in
    transaction_keeps IsValid (server_body payload started now) db v (
      insert_sample-IsValid (server_update payload now) (λ m. refl) (λ m. refl) (λ m. refl)
        (server_row payload now) db' (ensure_run-IsValid payload.run_id started db v))

pub record_client-IsValid :
    (payload : ClientMeasurement) (started now : ℕ) (db : Database)
    → IsValid db
    → IsValid (record_client payload started now db).1
unfolding record_client client_body
record_client-IsValid payload started now db v =
    let db' = ensure_run payload.run_id started db in
    transaction_keeps IsValid (client_body payload started now) db v (
      insert_sample-IsValid (client_update payload now) (λ m. refl) (λ m. refl) (λ m. refl)
        (client_row payload now) db' (ensure_run-IsValid payload.run_id started db v))

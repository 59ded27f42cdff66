-- ===== src/Db/Tables.antt =====
-- dashboard/app/db.py: the tables of the schema, and the SQL that the writes are made of.
use hybrid_tls_lab.Prelude.{
  ℕ, ◌^◌, ltb, not, ◌&&◌, is_some, Bool, true, ◌||◌, Option, none, some, List, if◌then◌else◌,
}
use hybrid_tls_lab.Db.Table.{find, upsert}
use hybrid_tls_lab.Prelude.Text.{Text, codes, text_eq}

-- A row of `benchmark_runs`.
pub record Run : Type 0 where
  pub id : Text
  pub started_at : ℕ
  pub completed_at : Option ℕ
  pub client_name : Text
  pub openssl_version : Option Text
  pub iterations : Option ℕ
  pub warmup : Option ℕ
  pub notes : Option Text

-- A row of `measurements`.
pub record Measurement : Type 0 where
  pub sample_id : Text
  pub run_id : Text
  pub mode : Text
  pub expected_group : Text
  pub negotiated_group : Option Text
  pub tls_version : Option Text
  pub cipher : Option Text
  pub server_handshake_us : Option ℕ
  pub client_tcp_us : Option ℕ
  pub client_handshake_us : Option ℕ
  pub client_ttfb_us : Option ℕ
  pub client_total_us : Option ℕ
  pub bytes_sent : Option ℕ
  pub bytes_received : Option ℕ
  pub success : Bool
  pub error : Option Text
  pub server_recorded_at : Option ℕ
  pub client_recorded_at : Option ℕ
  pub created_at : ℕ

pub record Database : Type 0 where
  pub benchmark_runs : List Run
  pub measurements : List Measurement

-- The exceptions that a write can raise.
pub data Error : Type 0 where
  overflow check_failed foreign_key_failed : Error

pub data Result (A : Type 0) : Type 0 where
  ok : A → Result A
  err : Error → Result A

infixl 5 ◌>>=◌
abbrev pub ◌>>=◌ : {A B : Type 0} → Result A → (A → Result B) → Result B
ok a >>= f = f a
err e >>= f = err e

-- `transaction`: the body's statements are committed together, or all rolled back.
abbrev pub transaction : (Database → Result Database) → Database → Result (Unit {0}) × Database
transaction body db = elim (body db) [ ok db' ↦ (ok tt, db') | err e ↦ (err e, db) ]

abbrev pub run_key : Run → Text
run_key r = r.id

abbrev pub sample_key : Measurement → Text
sample_key m = m.sample_id

-- A run with the defaults of its columns.
abbrev pub bare_run : Text → ℕ → Run
bare_run id now = record {
  id = id;
  started_at = now;
  completed_at = none;
  client_name = codes "openssl-client";
  openssl_version = none;
  iterations = none;
  warmup = none;
  notes = none;
}

-- `_ensure_run`: INSERT OR IGNORE leaves a run that is there.
unfoldable pub ensure_run : Text → ℕ → Database → Database
ensure_run id now db = record db {
  benchmark_runs = upsert run_key (λ r. r) (bare_run id now) db.benchmark_runs;
}

-- CHECK(mode IN ('classical','hybrid'))
unfoldable pub mode_allowed : Text → Bool
mode_allowed mode = text_eq mode (codes "classical") || text_eq mode (codes "hybrid")

abbrev pub is_run : Text → List Run → Bool
is_run id runs = is_some (find run_key id runs)

-- SQLite stores an INTEGER in 64 bits; sqlite3 raises OverflowError for a larger one.
abbrev pub fits_integer : Option ℕ → Bool
fits_integer none = true
fits_integer (some n) = ltb n (2 ^ 63)

abbrev pub fits_row : Measurement → Bool
fits_row m = fits_integer m.bytes_sent && fits_integer m.bytes_received

-- The insertion of a measurement: the CHECK is evaluated on the new row before its key is looked
-- up, and the foreign key at the end of the statement.
unfoldable pub insert_sample :
    (Measurement → Measurement) → Measurement → Database → Result Database
insert_sample update new db =
    if not (fits_row new)
    then err overflow
    else if not (mode_allowed new.mode)
    then err check_failed
    else if not (is_run new.run_id db.benchmark_runs)
    then err foreign_key_failed
    else ok (record db { measurements = upsert sample_key update new db.measurements })

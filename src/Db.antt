-- ===== src/Db.antt =====
-- dashboard/app/db.py: the writes of `BenchmarkRepository`, on the tables of `Tables`. An instant of
-- `iso_now` is an input, as a number that orders as the text. A payload has passed its constraints.
pub mod Table
mod Tables
pub mod Merge
pub mod Integrity
pub mod Atomic
pub mod History
pub mod Queries
pub mod Dashboard
pub mod Between
pub mod Export
pub mod Store
pub mod Instant
pub mod Refinement
pub mod Concurrent
unfoldable pub use Tables.*
use hybrid_tls_lab.Db.Table.{upsert}
use hybrid_tls_lab.Prelude.{
  ℕ, Bool, true, false, ◌&&◌, ◌||◌, Option, none, some, List, [], ◌∷◌, ◌++◌, ◌==◌, if◌then◌else◌,
}
use hybrid_tls_lab.Prelude.Text.{Text, codes, text_eq}
use hybrid_tls_lab.Schemas.{RunCreate, ServerMeasurement, ClientMeasurement, mode_text}

-- `update` of the runs with an id.
unfoldable pub set_completed : Text → ℕ → List Run → List Run
set_completed id now [] = []
set_completed id now (r ∷ rs) =
    (if text_eq r.id id then record r { completed_at = some now } else r) ∷ set_completed id now rs

abbrev pub new_run : RunCreate → ℕ → Run
new_run payload now = record {
  id = payload.run_id;
  started_at = now;
  completed_at = none;
  client_name = payload.client_name;
  openssl_version = payload.openssl_version;
  iterations = payload.iterations;
  warmup = payload.warmup;
  notes = payload.notes;
}

abbrev pub describe_run : RunCreate → Run → Run
describe_run payload r = record r {
  client_name = payload.client_name;
  openssl_version = payload.openssl_version;
  iterations = payload.iterations;
  warmup = payload.warmup;
  notes = payload.notes;
}

-- The statement of `create_run`.
abbrev pub create_body : RunCreate → ℕ → Database → Result Database
create_body payload now db = ok (record db {
  benchmark_runs = upsert run_key (describe_run payload) (new_run payload now) db.benchmark_runs;
})

unfoldable pub create_run : RunCreate → ℕ → Database → Result (Unit {0}) × Database
create_run payload now = transaction (create_body payload now)

-- The statements of `complete_run`.
abbrev pub complete_body : Text → ℕ → ℕ → Database → Result Database
complete_body run_id started now db =
    let db' = ensure_run run_id started db in
    ok (record db' { benchmark_runs = set_completed run_id now db'.benchmark_runs })

unfoldable pub complete_run : Text → ℕ → ℕ → Database → Result (Unit {0}) × Database
complete_run run_id started now = transaction (complete_body run_id started now)

abbrev pub server_row : ServerMeasurement → ℕ → Measurement
server_row payload now = record {
  sample_id = payload.sample_id;
  run_id = payload.run_id;
  mode = mode_text payload.mode;
  expected_group = payload.expected_group;
  negotiated_group = payload.negotiated_group;
  tls_version = payload.tls_version;
  cipher = payload.cipher;
  server_handshake_us = some payload.server_handshake_us;
  client_tcp_us = none;
  client_handshake_us = none;
  client_ttfb_us = none;
  client_total_us = none;
  bytes_sent = none;
  bytes_received = none;
  success = true;
  error = none;
  server_recorded_at = some now;
  client_recorded_at = none;
  created_at = now;
}

abbrev pub server_update : ServerMeasurement → ℕ → Measurement → Measurement
server_update payload now m = record m {
  negotiated_group = payload.negotiated_group;
  tls_version = payload.tls_version;
  cipher = payload.cipher;
  server_handshake_us = some payload.server_handshake_us;
  server_recorded_at = some now;
}

-- The statements of `record_server`.
unfoldable pub server_body : ServerMeasurement → ℕ → ℕ → Database → Result Database
server_body payload started now db =
    insert_sample (server_update payload now) (server_row payload now)
      (ensure_run payload.run_id started db)

unfoldable pub record_server : ServerMeasurement → ℕ → ℕ → Database → Result (Unit {0}) × Database
record_server payload started now = transaction (server_body payload started now)

abbrev pub client_row : ClientMeasurement → ℕ → Measurement
client_row payload now = record {
  sample_id = payload.sample_id;
  run_id = payload.run_id;
  mode = mode_text payload.mode;
  expected_group = payload.expected_group;
  negotiated_group = payload.negotiated_group;
  tls_version = payload.tls_version;
  cipher = payload.cipher;
  server_handshake_us = none;
  client_tcp_us = payload.client_tcp_us;
  client_handshake_us = payload.client_handshake_us;
  client_ttfb_us = payload.client_ttfb_us;
  client_total_us = payload.client_total_us;
  bytes_sent = payload.bytes_sent;
  bytes_received = payload.bytes_received;
  success = payload.success;
  error = payload.error;
  server_recorded_at = none;
  client_recorded_at = some now;
  created_at = now;
}

-- COALESCE(a, b)
abbrev pub coalesce {ℓ} : {A : Type ℓ} → Option A → Option A → Option A
coalesce (some a) b = some a
coalesce none b = b

abbrev pub client_update : ClientMeasurement → ℕ → Measurement → Measurement
client_update payload now m = record m {
  negotiated_group = coalesce payload.negotiated_group m.negotiated_group;
  tls_version = coalesce payload.tls_version m.tls_version;
  cipher = coalesce payload.cipher m.cipher;
  client_tcp_us = payload.client_tcp_us;
  client_handshake_us = payload.client_handshake_us;
  client_ttfb_us = payload.client_ttfb_us;
  client_total_us = payload.client_total_us;
  bytes_sent = payload.bytes_sent;
  bytes_received = payload.bytes_received;
  success = payload.success;
  error = payload.error;
  client_recorded_at = some now;
}

-- The statements of `record_client`.
unfoldable pub client_body : ClientMeasurement → ℕ → ℕ → Database → Result Database
client_body payload started now db =
    insert_sample (client_update payload now) (client_row payload now)
      (ensure_run payload.run_id started db)

unfoldable pub record_client : ClientMeasurement → ℕ → ℕ → Database → Result (Unit {0}) × Database
record_client payload started now = transaction (client_body payload started now)

-- ===== src/Db/Merge.antt =====
-- The row of a sample after the reports of its two sides.
use hybrid_tls_lab.Prelude.{ℕ, ◌≡◌, refl, ◌∙◌, ap, true, Option, none, some}
use mathlib.Core.Option
use hybrid_tls_lab.Prelude.Text.{Text, text_eq_refl}
use hybrid_tls_lab.Schemas.{ServerMeasurement, ClientMeasurement, mode_text}
use hybrid_tls_lab.Db.Table.{find, merged, find-upsert}
use hybrid_tls_lab.Db.{
  Measurement, Database, sample_key, mode_allowed, fits_row, ensure_run, server_row, server_update,
  record_server, client_row, client_update, record_client, coalesce,
}
use hybrid_tls_lab.Db.Atomic.{stored, server_stored, client_stored}

abbrev pub sample_of : Text → Database → Option Measurement
sample_of id db = find sample_key id db.measurements

stored-sample_of :
    (update : Measurement → Measurement)
    (keeps : (m : Measurement) → (update m).sample_id ≡ m.sample_id) (new : Measurement)
    (started : ℕ) (db : Database)
    → sample_of new.sample_id (stored update new started db).1
      ≡ some (merged sample_key update new (sample_of new.sample_id db))
unfolding ensure_run
stored-sample_of update keeps new started db = rw (
  find-upsert sample_key update keeps new new.sample_id db.measurements,
  text_eq_refl new.sample_id,
)

-- A stored report finds the row `o` of its sample, and leaves it merged.
stored_at :
    (update : Measurement → Measurement)
    (keeps : (m : Measurement) → (update m).sample_id ≡ m.sample_id) (new : Measurement)
    (started : ℕ) (db : Database) (id : Text) (o : Option Measurement)
    → new.sample_id ≡ id
    → sample_of id db ≡ o
    → sample_of id (stored update new started db).1 ≡ some (merged sample_key update new o)
stored_at update keeps new started db id o e h = rw (← e) (
    stored-sample_of update keeps new started db
    ∙ ap (λ p. some (merged sample_key update new p)) (rw e h))

after_server :
    (s : ServerMeasurement) (started now : ℕ) (db : Database) (id : Text) (o : Option Measurement)
    → mode_allowed (mode_text s.mode) ≡ true
    → s.sample_id ≡ id
    → sample_of id db ≡ o
    → sample_of id (record_server s started now db).1
      ≡ some (merged sample_key (server_update s now) (server_row s now) o)
after_server s started now db id o allowed e h =
    rw (server_stored s started now db allowed)
      (stored_at (server_update s now) (λ m. refl) (server_row s now) started db id o e h)

pub after_client :
    (c : ClientMeasurement) (started now : ℕ) (db : Database) (id : Text) (o : Option Measurement)
    → fits_row (client_row c now) ≡ true
    → mode_allowed (mode_text c.mode) ≡ true
    → c.sample_id ≡ id
    → sample_of id db ≡ o
    → sample_of id (record_client c started now db).1
      ≡ some (merged sample_key (client_update c now) (client_row c now) o)
after_client c started now db id o fits allowed e h =
    rw (client_stored c started now db fits allowed)
      (stored_at (client_update c now) (λ m. refl) (client_row c now) started db id o e h)

-- The two sides report one sample, and saw the same handshake.
pub record SameHandshake (s : ServerMeasurement) (c : ClientMeasurement) : Type 0 where
  pub sample_id : s.sample_id ≡ c.sample_id
  pub run_id : s.run_id ≡ c.run_id
  pub mode : s.mode ≡ c.mode
  pub expected_group : s.expected_group ≡ c.expected_group
  pub negotiated_group : s.negotiated_group ≡ c.negotiated_group
  pub tls_version : s.tls_version ≡ c.tls_version
  pub cipher : s.cipher ≡ c.cipher

-- A row but for the instants at which it was written.
abbrev pub timeless : Measurement → Measurement
timeless m = record m { server_recorded_at = none; client_recorded_at = none; created_at = 0 }

-- The timing of the server and all that the client measured, its verdict included.
abbrev pub combined : ServerMeasurement → ClientMeasurement → Measurement
combined s c = record {
  sample_id = c.sample_id;
  run_id = c.run_id;
  mode = mode_text c.mode;
  expected_group = c.expected_group;
  negotiated_group = c.negotiated_group;
  tls_version = c.tls_version;
  cipher = c.cipher;
  server_handshake_us = some s.server_handshake_us;
  client_tcp_us = c.client_tcp_us;
  client_handshake_us = c.client_handshake_us;
  client_ttfb_us = c.client_ttfb_us;
  client_total_us = c.client_total_us;
  bytes_sent = c.bytes_sent;
  bytes_received = c.bytes_received;
  success = c.success;
  error = c.error;
  server_recorded_at = none;
  client_recorded_at = none;
  created_at = 0;
}

coalesce_self : {A : Type 0} (o : Option A) → coalesce o o ≡ o
coalesce_self none = refl
coalesce_self (some a) = refl

server_first :
    (s : ServerMeasurement) (c : ClientMeasurement) (t u : ℕ)
    → SameHandshake s c
    → timeless (client_update c u (server_row s t)) ≡ combined s c
server_first s c t u h = rw (
  h.sample_id,
  h.run_id,
  h.mode,
  h.expected_group,
  h.negotiated_group,
  h.tls_version,
  h.cipher,
  coalesce_self c.negotiated_group,
  coalesce_self c.tls_version,
  coalesce_self c.cipher,
)

client_first :
    (s : ServerMeasurement) (c : ClientMeasurement) (t u : ℕ)
    → SameHandshake s c
    → timeless (server_update s u (client_row c t)) ≡ combined s c
client_first s c t u h = rw (h.negotiated_group, h.tls_version, h.cipher)

module _ (s : ServerMeasurement) (c : ClientMeasurement) (db : Database)
    (allowed_s : mode_allowed (mode_text s.mode) ≡ true)
    (allowed_c : mode_allowed (mode_text c.mode) ≡ true) (same : s.sample_id ≡ c.sample_id)
    (fresh : sample_of c.sample_id db ≡ none) where
  -- The client's report after the server's, on a sample that is new.
  client_after_server :
      (t t' u u' : ℕ)
      → fits_row (client_row c u') ≡ true
      → sample_of c.sample_id (record_client c u u' (record_server s t t' db).1).1
        ≡ some (client_update c u' (server_row s t'))
  client_after_server t t' u u' fits =
      after_client c u u' (record_server s t t' db).1 c.sample_id (some (server_row s t')) fits
        allowed_c refl (after_server s t t' db c.sample_id none allowed_s same fresh)

  -- The server's report after the client's.
  server_after_client :
      (t t' u u' : ℕ)
      → fits_row (client_row c t') ≡ true
      → sample_of c.sample_id (record_server s u u' (record_client c t t' db).1).1
        ≡ some (server_update s u' (client_row c t'))
  server_after_client t t' u u' fits =
      after_server s u u' (record_client c t t' db).1 c.sample_id (some (client_row c t')) allowed_s
        same (after_client c t t' db c.sample_id none fits allowed_c refl fresh)

-- The reports of the two sides of one handshake: they agree on the sample, the run, the mode, the
-- groups, the version and the cipher. If the table allows the mode, the byte counts of the client are
-- below 2 ^ 63, so that SQLite can hold them, and the sample is new, then in either order of the two
-- reports the sample ends with the server's timing, the client's figures and the client's verdict:
-- only the instants of writing depend on the order.
pub reports_commute :
    (s : ServerMeasurement) (c : ClientMeasurement) (db : Database) (t t' u u' : ℕ)
    → SameHandshake s c
    → mode_allowed (mode_text c.mode) ≡ true
    → fits_row (client_row c t') ≡ true
    → sample_of c.sample_id db ≡ none
    → (Option.map timeless
          (sample_of c.sample_id (record_client c u u' (record_server s t t' db).1).1)
        ≡ some (combined s c))
      × (Option.map timeless
            (sample_of c.sample_id (record_server s u u' (record_client c t t' db).1).1)
          ≡ some (combined s c))
reports_commute s c db t t' u u' h allowed fits fresh =
    let allowed_s : mode_allowed (mode_text s.mode) ≡ true = rw h.mode allowed in
    (
      ap (Option.map timeless)
            (client_after_server s c db allowed_s allowed h.sample_id fresh t t' u u' fits)
          ∙ ap some (server_first s c t' u' h),
      ap (Option.map timeless)
            (server_after_client s c db allowed_s allowed h.sample_id fresh t t' u u' fits)
          ∙ ap some (client_first s c t' u' h),
    )

-- For two reports of one sample that is new, with modes that the table allows on both sides and byte
-- counts of the client below 2 ^ 63, the order matters where the two sides differ: after the
-- server's report a client's report that leaves the negotiated group out keeps the server's, but
-- after the client's report a server's report that leaves it out erases the client's.
pub missing_group_by_order :
    (s : ServerMeasurement) (c : ClientMeasurement) (db : Database) (t t' u u' : ℕ)
    → s.sample_id ≡ c.sample_id
    → mode_allowed (mode_text s.mode) ≡ true
    → mode_allowed (mode_text c.mode) ≡ true
    → fits_row (client_row c t') ≡ true
    → sample_of c.sample_id db ≡ none
    → let group = Option.map (λ (m : Measurement). m.negotiated_group) in
      (c.negotiated_group ≡ none
        → group (sample_of c.sample_id (record_client c u u' (record_server s t t' db).1).1)
          ≡ some s.negotiated_group)
      × (s.negotiated_group ≡ none
          → group (sample_of c.sample_id (record_server s u u' (record_client c t t' db).1).1)
            ≡ some none)
missing_group_by_order s c db t t' u u' same allowed_s allowed_c fits fresh = (
  (λ e.
      ap (Option.map (λ (m : Measurement). m.negotiated_group))
        (client_after_server s c db allowed_s allowed_c same fresh t t' u u' fits)
      ∙ ap (λ g. some (coalesce g s.negotiated_group)) e),
  (λ e.
      ap (Option.map (λ (m : Measurement). m.negotiated_group))
        (server_after_client s c db allowed_s allowed_c same fresh t t' u u' fits)
      ∙ ap some e),
)

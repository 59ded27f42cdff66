-- ===== src/Main/App/Limits.antt =====
-- What the validation of the requests means for the rows that are stored.
use hybrid_tls_lab.Prelude.{
  ℕ, ◌≡◌, refl, inl, inr, arith, Bool, true, not, ◌&&◌, List, [], ◌∷◌, All, Bool-cases, none, some,
  Option,
}
use hybrid_tls_lab.Prelude.Text.{Text, is_empty}
use hybrid_tls_lab.Schemas.{
  ServerMeasurement, ClientMeasurement, is_id, within, optional, is_duration, accepts_server,
  accepts_client,
}
use hybrid_tls_lab.Db.Table.{upsert-All}
use hybrid_tls_lab.Db.{
  Measurement, Database, sample_key, insert_sample, ensure_run, coalesce, server_row, server_update,
  server_body, client_row, client_update, client_body, create_run, complete_run, record_server,
  record_client,
}
use hybrid_tls_lab.Db.Integrity.{OnOk, transaction_keeps, insert_sample_keeps, insert_sample_keeps}
use hybrid_tls_lab.Db.History.{Write, create, complete, server, client, apply, initial, replay}
use hybrid_tls_lab.Main.App.{
  Installation, at_start, Request, health, page, score, hndl, compliance, roadmap, cbom, post,
  dashboard, results_csv,
}
use hybrid_tls_lab.Main.App.Routes.{accepts, serve_all}
use hybrid_tls_lab.Main.App.Writes.{written, serve_all-replay}

-- The limits of the two schemas on a row.
unfoldable pub within_limits : Measurement → Bool
within_limits m =
    is_id 160 m.sample_id
    && is_id 120 m.run_id
    && (not (is_empty m.expected_group) && within 80 m.expected_group)
    && optional (within 80) m.negotiated_group
    && optional (within 40) m.tls_version
    && optional (within 100) m.cipher
    && optional is_duration m.server_handshake_us
    && optional is_duration m.client_tcp_us
    && optional is_duration m.client_handshake_us
    && optional is_duration m.client_ttfb_us
    && optional is_duration m.client_total_us
    && optional (within 1000) m.error

abbrev AllWithin : Database → Type 0
AllWithin db = All (λ m. within_limits m ≡ true) db.measurements

optional-coalesce :
    (p : Text → Bool) (a b : Option Text)
    → optional p a ≡ true
    → optional p b ≡ true
    → optional p (coalesce a b) ≡ true
optional-coalesce p none b h h' = h'
optional-coalesce p (some a) b h h' = h

server_row-within_limits :
    (payload : ServerMeasurement) (now : ℕ)
    → accepts_server payload ≡ true
    → within_limits (server_row payload now) ≡ true
unfolding within_limits accepts_server
server_row-within_limits payload now h = ground arith

server_update-within_limits :
    (payload : ServerMeasurement) (now : ℕ) (m : Measurement)
    → accepts_server payload ≡ true
    → within_limits m ≡ true
    → within_limits (server_update payload now m) ≡ true
unfolding within_limits accepts_server
server_update-within_limits payload now m h h' = ground arith

client_row-within_limits :
    (payload : ClientMeasurement) (now : ℕ)
    → accepts_client payload ≡ true
    → within_limits (client_row payload now) ≡ true
unfolding within_limits accepts_client
client_row-within_limits payload now h = ground arith

client_update-within_limits :
    (payload : ClientMeasurement) (now : ℕ) (m : Measurement)
    → accepts_client payload ≡ true
    → within_limits m ≡ true
    → within_limits (client_update payload now m) ≡ true
unfolding within_limits accepts_client
client_update-within_limits payload now m h h' = ground (
  arith,
  optional-coalesce (within 80) payload.negotiated_group m.negotiated_group,
  optional-coalesce (within 40) payload.tls_version m.tls_version,
  optional-coalesce (within 100) payload.cipher m.cipher,
)

module _ (update : Measurement → Measurement)
    (keeps : (m : Measurement) → (update m).sample_id ≡ m.sample_id) (new : Measurement)
    (fresh : within_limits new ≡ true)
    (kept : (m : Measurement) → within_limits m ≡ true → within_limits (update m) ≡ true) where
  insert_sample-AllWithin :
      (db : Database) → AllWithin db → OnOk AllWithin (insert_sample update new db)
  insert_sample-AllWithin db all = insert_sample_keeps AllWithin update new db λ known allowed.
      upsert-All sample_key update keeps new (λ m. within_limits m ≡ true) db.measurements kept
        fresh all

apply-AllWithin :
    (w : Write) (db : Database) → accepts w ≡ true → AllWithin db → AllWithin (apply w db).1
unfolding apply accepts create_run complete_run record_server record_client server_body client_body
    ensure_run
apply-AllWithin (create payload now) db h all = all
apply-AllWithin (complete run_id started now) db h all = all
apply-AllWithin (server payload started now) db h all =
    transaction_keeps AllWithin (server_body payload started now) db all (
      insert_sample-AllWithin (server_update payload now) (λ m. refl) (server_row payload now)
        (server_row-within_limits payload now h) (λ m. server_update-within_limits payload now m h)
        (ensure_run payload.run_id started db) all)
apply-AllWithin (client payload started now) db h all =
    transaction_keeps AllWithin (client_body payload started now) db all (
      insert_sample-AllWithin (client_update payload now) (λ m. refl) (client_row payload now)
        (client_row-within_limits payload now h) (λ m. client_update-within_limits payload now m h)
        (ensure_run payload.run_id started db) all)

replay-written-AllWithin :
    (rs : List Request) (db : Database) → AllWithin db → AllWithin (replay (written rs) db)
unfolding written replay
replay-written-AllWithin [] db all = all
replay-written-AllWithin (post w ∷ rs) db all = elim (Bool-cases (accepts w)) [
  | inl e ↦ rw e (replay-written-AllWithin rs (apply w db).1 (apply-AllWithin w db e all))
  | inr e ↦ rw e (replay-written-AllWithin rs db all)
]
replay-written-AllWithin (health ∷ rs) db all = replay-written-AllWithin rs db all
replay-written-AllWithin (page p run_id ∷ rs) db all = replay-written-AllWithin rs db all
replay-written-AllWithin (score run_id view ∷ rs) db all = replay-written-AllWithin rs db all
replay-written-AllWithin (hndl run_id scenario ∷ rs) db all = replay-written-AllWithin rs db all
replay-written-AllWithin (compliance run_id ∷ rs) db all = replay-written-AllWithin rs db all
replay-written-AllWithin (roadmap run_id ∷ rs) db all = replay-written-AllWithin rs db all
replay-written-AllWithin (cbom name uuid now ∷ rs) db all = replay-written-AllWithin rs db all
replay-written-AllWithin (dashboard run_id ∷ rs) db all = replay-written-AllWithin rs db all
replay-written-AllWithin (results_csv run_id ∷ rs) db all = replay-written-AllWithin rs db all

-- After any sequence of requests to a new installation every stored measurement keeps the limits of
-- the schemas, also where it was merged from the reports of both sides: identifiers of the allowed
-- characters and length, texts of bounded length, and durations of at most 120 seconds.
pub serve_all-within_limits :
    (env : Installation) (rs : List Request)
    → All (λ m. within_limits m ≡ true) (serve_all env rs at_start).repository.measurements
serve_all-within_limits env rs =
    rw (serve_all-replay env rs at_start) (replay-written-AllWithin rs initial tt)

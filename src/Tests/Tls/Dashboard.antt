-- ===== src/Tests/Tls/Dashboard.antt =====
-- The reports of that probe and its run at the dashboard.
use hybrid_tls_lab.Prelude.{◌≤◌, ◌≡◌, refl, arith, true, some, [], ◌∷◌, length}
use hybrid_tls_lab.Prelude.Text.{codes, all_codes}
use hybrid_tls_lab.Prelude.Text.Decimal.{digits_of}
use hybrid_tls_lab.Prelude.Json.RoundTrip.{quoted, field_text, fields_text, object_text}
use hybrid_tls_lab.Db.{record_client, create_run}
use hybrid_tls_lab.Db.Table.{find}
use hybrid_tls_lab.Db.Merge.{combined}
use hybrid_tls_lab.Db.History.{initial, client, server, create}
use hybrid_tls_lab.Schemas.{ServerMeasurement}
use hybrid_tls_lab.Schemas.Body.{read_run, read_server, read_client}
use hybrid_tls_lab.Main.App.{json_ok}
use hybrid_tls_lab.Main.App.Routes.{handle_write}
use hybrid_tls_lab.Tls.Common.{sub64, escape_code, escape_from, json_escape}
use hybrid_tls_lab.Tls.Options.{ServerOptions, default_server}
use hybrid_tls_lab.Tls.Server.{Accepted, Report, handle_connection}
use hybrid_tls_lab.Tls.Server.Query.{is_not}
use hybrid_tls_lab.Tls.Benchmark.{request_text, probe}
use hybrid_tls_lab.Tls.Benchmark.Run.{endpoint_at, run_report}
use hybrid_tls_lab.Tls.Delivery.{sample_id, payload, probe-delivered}
use hybrid_tls_lab.Tls.Registration.{run_payload, run-delivered}
use hybrid_tls_lab.Tls.Handshake.{Serves, Leaves, handshake_recorded}
use hybrid_tls_lab.Tests.Tls.{
  options, options-IsClient, run_id-is_id, attempt, attempt-IsAttempt, attempt-IsBrief,
  attempt-success, attempt-IsOrdinary,
}

server_options : ServerOptions
server_options = default_server

-- The endpoint's side of the probe.
abbrev connection : Accepted
connection = record {
  has_ssl = true;
  accepted = true;
  started = 50_000;
  completed = 50_800;
  received =
      some
        (request_text (sample_id options 0 1 attempt) (codes "lab-1") true (codes "classical-tls"));
  group_name = some (codes "x25519");
  version = codes "TLSv1.3";
  cipher_name = codes "TLS_AES_256_GCM_SHA384";
}

connection-Serves : Serves options 0 1 attempt server_options connection
unfolding server_options default_server endpoint_at
connection-Serves = record {
  mode = refl;
  group = refl;
  has_ssl = refl;
  accepted = refl;
  received = refl;
  group_name = refl;
  version = refl;
  cipher_name = refl;
}

host_plain : all_codes (is_not b'=') (endpoint_at options 0).host ≡ true
unfolding endpoint_at
host_plain = refl

host_short : length (endpoint_at options 0).host ≤ 253
unfolding endpoint_at
host_short = omega arith

handshake_recorded_example :
    let p = payload options 0 1 attempt in
    (r q : Report) × (s : ServerMeasurement) × ((handle_connection server_options connection).report
      ≡ some r)
    × (read_server r.1 ≡ some s)
    × ((probe options (endpoint_at options 0) attempt 1 true).1 ≡ q ∷ [])
    × (read_client q.1 ≡ some p)
    × (s.server_handshake_us ≡ sub64 50_800 50_000)
    × Leaves (server s 5 6) (client p 7 8) initial p.sample_id (combined s p)
    × Leaves (client p 5 6) (server s 7 8) initial p.sample_id (combined s p)
unfolding find
handshake_recorded_example =
    handshake_recorded options 0 1 attempt server_options connection initial 5 6 7 8
      options-IsClient run_id-is_id (omega arith) attempt-IsAttempt attempt-IsBrief
      attempt-IsOrdinary (omega arith) connection-Serves host_plain host_short attempt-success refl
      refl

probe-delivered_example :
    let c = payload options 0 1 attempt in
    (r : Report) × ((probe options (endpoint_at options 0) attempt 1 true).1 ≡ r ∷ [])
    × (read_client r.1 ≡ some c)
    × (handle_write (client c 5 6) initial
        ≡ (record { status = 201; body = json_ok c.sample_id }, (record_client c 5 6 initial).1))
probe-delivered_example =
    probe-delivered options 0 1 attempt 5 6 initial options-IsClient run_id-is_id (omega arith)
      attempt-IsAttempt attempt-IsBrief attempt-IsOrdinary

run-delivered_example :
    let payload = run_payload options (codes "OpenSSL 3.5.0") in
    (read_run (run_report options (codes "OpenSSL 3.5.0")).1 ≡ some payload)
    × (handle_write (create payload 5) initial ≡ (
      record { status = 201; body = json_ok (codes "lab-1") },
      (create_run payload 5 initial).1,
    ))
run-delivered_example =
    run-delivered options (codes "OpenSSL 3.5.0") 5 initial options-IsClient (omega arith)

run_body :
    (run_report options (codes "OpenSSL 3.5.0")).1
    ≡ codes
        "{\"run_id\":\"lab-1\",\"client_name\":\"openssl-c-client\",\"openssl_version\":\"OpenSSL 3.5.0\",\"iterations\":3,\"warmup\":10,\"notes\":\"Rotating classical/hybrid/hybrid_p256 order; TLS 1.3; fresh full handshakes\"}"
unfolding run_report json_escape escape_from escape_code object_text fields_text field_text quoted
    digits_of
run_body = refl

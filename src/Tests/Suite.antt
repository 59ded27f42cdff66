-- ===== src/Tests/Suite.antt =====
-- dashboard/tests/test_dashboard.py: the assertions of the repository's own tests, on the model.
use hybrid_tls_lab.Prelude.{
  ℕ, Bool, false, get_elem?, ◌≡◌, refl, true, Option, none, some, List, [], ◌∷◌, map, ◌>>=◌,
}
use mathlib.Core.Option
use hybrid_tls_lab.Prelude.Round.{round_div}
use hybrid_tls_lab.Prelude.Double.{of_int, mul, round, nearest, scale_up, scale_down}
use hybrid_tls_lab.Prelude.Double.Order.{sorted, insert_asc}
use hybrid_tls_lab.Prelude.Text.{codes}
use hybrid_tls_lab.Schemas.{
  RunCreate, ServerMeasurement, ClientMeasurement, hybrid, is_id, accepts_run, accepts_server,
  accepts_client,
}
use hybrid_tls_lab.Analytics.{
  percentile, percentile_of, interpolate, summarize, summarize_mode, describe, describe_clean,
  describe_metrics, compare_metrics, compare_p50, fmean,
}
use hybrid_tls_lab.Db.Table.{find, upsert}
use hybrid_tls_lab.Db.{
  Measurement, create_run, record_server, record_client, server_body, client_body, insert_sample,
  ensure_run, mode_allowed, client_row,
}
use hybrid_tls_lab.Db.History.{create, server, client, apply}
use hybrid_tls_lab.Main.App.{at_start, Request, post}
use hybrid_tls_lab.Main.App.Routes.{accepts, handle_write, serve, serve_all}
use hybrid_tls_lab.Tests.App.{installation}

floats : Unit {0}
unfolding percentile percentile_of interpolate sorted insert_asc nearest scale_up scale_down
    round_div
floats = tt

-- Twice the 50th percentile of 1 to 4 is 5.
percentile_interpolates :
    Option.map
      (Option.map (λ q. round (mul q (of_int 2))))
      (percentile (of_int 1 ∷ of_int 2 ∷ of_int 3 ∷ of_int 4 ∷ []) 50)
    ≡ some (some 5)
unfolding floats
percentile_interpolates = refl

percentile_of_nothing : percentile [] 95 ≡ some none
unfolding floats
percentile_of_nothing = refl

abbrev run : RunCreate
run = record {
  run_id = codes "run-1";
  client_name = codes "openssl-client";
  openssl_version = some (codes "OpenSSL test");
  iterations = some 1;
  warmup = some 0;
  notes = none;
}

abbrev reported : ServerMeasurement
reported = record {
  sample_id = codes "run-1-hybrid-1";
  run_id = codes "run-1";
  mode = hybrid;
  expected_group = codes "X25519MLKEM768";
  negotiated_group = some (codes "X25519MLKEM768");
  tls_version = some (codes "TLSv1.3");
  cipher = some (codes "TLS_AES_256_GCM_SHA384");
  server_handshake_us = 240;
}

abbrev measured : ClientMeasurement
measured = record {
  sample_id = codes "run-1-hybrid-1";
  run_id = codes "run-1";
  mode = hybrid;
  expected_group = codes "X25519MLKEM768";
  negotiated_group = some (codes "X25519MLKEM768");
  tls_version = some (codes "TLSv1.3");
  cipher = some (codes "TLS_AES_256_GCM_SHA384");
  client_tcp_us = some 30;
  client_handshake_us = some 300;
  client_ttfb_us = some 350;
  client_total_us = some 390;
  bytes_sent = some 1500;
  bytes_received = some 2300;
  success = true;
  error = none;
}

storing : Unit {0}
unfolding serve serve_all handle_write accepts accepts_run accepts_server accepts_client is_id apply
    create_run record_server record_client server_body client_body insert_sample ensure_run
    mode_allowed find upsert
storing = tt

abbrev both : List Request
both = post (create run 0) ∷ post (server reported 1 2) ∷ post (client measured 3 4) ∷ []

abbrev handshakes : Measurement → Option ℕ × Option ℕ × Bool
handshakes m = (m.server_handshake_us, m.client_handshake_us, m.success)

-- The two reports of a sample are merged into one row.
reports_merge :
    map handshakes (serve_all installation both at_start).repository.measurements
    ≡ (some 240, some 300, true) ∷ []
unfolding storing
reports_merge = refl

client_answered : (serve installation (post (client measured 3 4)) at_start).0.status ≡ 201
unfolding storing
client_answered = refl

-- A row of the test of the comparison.
abbrev timed_row : Measurement → ℕ → ℕ → Measurement
timed_row m client_us server_us = record m {
  client_handshake_us = some client_us;
  server_handshake_us = some server_us;
}

abbrev hybrid_row : Measurement
hybrid_row =
    client_row
      (record measured {
        client_tcp_us = none;
        client_ttfb_us = none;
        client_total_us = none;
        bytes_sent = none;
        bytes_received = none;
      })
      4

abbrev classical_row : Measurement
classical_row = record hybrid_row { mode = codes "classical" }

abbrev timed : List Measurement
timed =
    timed_row classical_row 100 80
    ∷ timed_row classical_row 200 90
    ∷ timed_row hybrid_row 300 180
    ∷ timed_row hybrid_row 400 190
    ∷ []

-- The median of `client_handshake_us`, and how it differs between the modes.
abbrev baseline_p50 : Option ℕ
baseline_p50 = do
  s ← summarize timed
  entry ← get_elem? s.classical.metrics 1
  p ← entry.1.p50
  some (round p)

abbrev p50_delta : Option (Bool × ℕ)
p50_delta = do
  s ← summarize timed
  entry ← get_elem? s.comparison 1
  d ← entry.1.delta
  some (d.negative, round d.size)

summarizing : Unit {0}
unfolding floats summarize summarize_mode describe describe_clean describe_metrics fmean
    compare_metrics compare_p50
summarizing = tt

medians : baseline_p50 ≡ some 150
unfolding summarizing
medians = refl

medians_compared : p50_delta ≡ some (false, 200)
unfolding summarizing
medians_compared = refl

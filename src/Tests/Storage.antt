-- ===== src/Tests/Storage.antt =====
-- The two reports of one sample, and a history of writes.
use hybrid_tls_lab.Prelude.{
  ◌+◌, arith, length, ◌≡◌, ap, refl, true, false, none, some, List, [], ◌∷◌,
}
use hybrid_tls_lab.Prelude.Text.{codes}
use hybrid_tls_lab.Schemas.{
  RunCreate, ServerMeasurement, ClientMeasurement, classical, hybrid, hybrid_p256, accepts_server,
  is_id,
}
use mathlib.Core.Option
use hybrid_tls_lab.Prelude.Round.{round_div}
use hybrid_tls_lab.Prelude.Double.{Double, of_int, round, nearest, scale_up, scale_down}
use hybrid_tls_lab.Prelude.Double.Order.{sorted, insert_asc}
use hybrid_tls_lab.Analytics.{Summary, summarize, percentile, percentile_of, interpolate}
use hybrid_tls_lab.Analytics.Counts.{Counts, summarize_counts, summarize-IsValid}
use hybrid_tls_lab.Db.Table.{upsert, find}
use hybrid_tls_lab.Db.{
  server_row, create_run, complete_run, server_body, client_body, insert_sample, ensure_run,
  set_completed, Measurement, check_failed, err, mode_allowed, client_row, record_server,
  record_client,
}
use hybrid_tls_lab.Db.Atomic.{record_server_outcome}
use hybrid_tls_lab.Db.Merge.{sample_of, timeless, combined, reports_commute, missing_group_by_order}
use hybrid_tls_lab.Db.History.{
  Write, create, complete, server, client, initial, replay, apply, replay-IsValid,
}

abbrev pub server_report : ServerMeasurement
server_report = record {
  sample_id = codes "s-1";
  run_id = codes "run-1";
  mode = hybrid;
  expected_group = codes "X25519MLKEM768";
  negotiated_group = some (codes "X25519MLKEM768");
  tls_version = some (codes "TLSv1.3");
  cipher = none;
  server_handshake_us = 900;
}

abbrev pub client_report : ClientMeasurement
client_report = record {
  sample_id = codes "s-1";
  run_id = codes "run-1";
  mode = hybrid;
  expected_group = codes "X25519MLKEM768";
  negotiated_group = some (codes "X25519MLKEM768");
  tls_version = some (codes "TLSv1.3");
  cipher = none;
  client_tcp_us = some 100;
  client_handshake_us = some 1200;
  client_ttfb_us = none;
  client_total_us = some 1500;
  bytes_sent = some 1700;
  bytes_received = some 4200;
  success = false;
  error = some (codes "reset");
}

abbrev pub p256_report : ServerMeasurement
p256_report = record server_report { mode = hybrid_p256 }

-- The validation accepts the report that the table refuses.
accepts_p256 : accepts_server p256_report ≡ true
unfolding accepts_server is_id
accepts_p256 = refl

reports_commute_example :
    (Option.map timeless (
        sample_of
          (codes "s-1")
          (record_client client_report 3 4 (record_server server_report 1 2 initial).1).1)
      ≡ some (combined server_report client_report))
    × (Option.map timeless (
          sample_of
            (codes "s-1")
            (record_server server_report 3 4 (record_client client_report 1 2 initial).1).1)
        ≡ some (combined server_report client_report))
unfolding mode_allowed find
reports_commute_example =
    reports_commute server_report client_report initial 1 2 3 4
      (record {
        sample_id = refl;
        run_id = refl;
        mode = refl;
        expected_group = refl;
        negotiated_group = refl;
        tls_version = refl;
        cipher = refl;
      })
      refl refl refl

missing_group_by_order_example :
    let group = Option.map (λ (m : Measurement). m.negotiated_group) in
    let s = record server_report { negotiated_group = none } in
    (client_report.negotiated_group ≡ none
      → group (
          sample_of
            (codes "s-1")
            (record_client client_report 3 4 (record_server s 1 2 initial).1).1)
        ≡ some none)
    × (s.negotiated_group ≡ none
        → group (
            sample_of
              (codes "s-1")
              (record_server s 3 4 (record_client client_report 1 2 initial).1).1)
          ≡ some none)
unfolding mode_allowed find
missing_group_by_order_example =
    missing_group_by_order (record server_report { negotiated_group = none }) client_report initial
      1 2 3 4 refl refl refl refl refl

abbrev pub opened : RunCreate
opened = record {
  run_id = codes "run-1";
  client_name = codes "openssl-client";
  openssl_version = none;
  iterations = some 1;
  warmup = some 0;
  notes = none;
}

abbrev pub writes : List Write
writes =
    create opened 0
    ∷ server server_report 1 2
    ∷ client client_report 3 4
    ∷ server p256_report 5 6
    ∷ complete (codes "run-1") 7 8
    ∷ []

p256_raises : (apply (server p256_report 5 6) initial).0 ≡ err check_failed
unfolding apply
p256_raises = ap (λ o. o.0) (record_server_outcome p256_report 5 6 initial)

storing : Unit {0}
unfolding replay apply create_run complete_run record_server record_client server_body client_body
    insert_sample ensure_run mode_allowed find upsert set_completed
storing = tt

summarize-IsValid_example :
    let db = replay writes initial in
    (s : Summary) × (summarize db.measurements ≡ some s)
    × (s.hybrid_p256.samples ≡ 0)
    × (s.classical.samples + s.hybrid.samples ≡ length db.measurements)
unfolding storing
summarize-IsValid_example =
    summarize-IsValid (replay writes initial) (replay-IsValid writes) (omega arith)

abbrev two_rows : List Measurement
two_rows = server_row server_report 2 ∷ client_row client_report 4 ∷ []

summarize_counts_example :
    (s : Summary) × (summarize two_rows ≡ some s)
    × Counts two_rows classical s.classical
    × Counts two_rows hybrid s.hybrid
    × Counts two_rows hybrid_p256 s.hybrid_p256
summarize_counts_example = summarize_counts two_rows (omega arith)

abbrev sample : List Double
sample = of_int 900 ∷ of_int 1200 ∷ of_int 1000 ∷ []

-- Of two values the percentile lies between them, rounded: 95 % of the way from 900 to 1000.
interpolated :
    Option.map (Option.map round) (percentile (of_int 1000 ∷ of_int 900 ∷ []) 95) ≡ some (some 995)
unfolding percentile percentile_of interpolate sorted insert_asc nearest scale_up scale_down
    round_div
interpolated = refl

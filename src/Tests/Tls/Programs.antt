-- ===== src/Tests/Tls/Programs.antt =====
-- The parts of the two programs on their own.
use hybrid_tls_lab.Prelude.{
  ℕ, ◌+◌, ◌*◌, ◌/◌, ◌%◌, ◌<◌, ◌≤◌, ◌≡◌, ◌↔◌, refl, arith, true, false, not, ◌&&◌, ◌==◌, none, some,
  [], ◌∷◌, ◌++◌, map, ltb, if◌then◌else◌, length, take, get_elem?, count_if,
}
use hybrid_tls_lab.Prelude.Text.{Text, codes, text_eq}
use hybrid_tls_lab.Prelude.Json.RoundTrip.{Quotes}
use hybrid_tls_lab.Schemas.{hybrid, hybrid_p256, mode_text, is_id}
use hybrid_tls_lab.Tls.Common.{Connection, json_escape, header_text, accepted, post_json}
use hybrid_tls_lab.Tls.Common.Escape.{one_line, json_escape-Quotes}
use hybrid_tls_lab.Tls.Common.Sending.{post_json_outcome}
use hybrid_tls_lab.Tls.Server.{record_ids}
use hybrid_tls_lab.Tls.Server.Probed.{record_ids-request_text}
use hybrid_tls_lab.Tls.Benchmark.{sample_id_of, request_text}
use hybrid_tls_lab.Tls.Benchmark.Run.{
  benchmark_main, schedule_of, endpoint_at, run_report, complete_report,
}
use hybrid_tls_lab.Tls.Benchmark.Order.{
  has_contexts, finished_at, report_at, stands, schedule_of_fair, benchmark_main_outcome,
}
use hybrid_tls_lab.Tls.Benchmark.Samples.{text_eq-sample_id_of}
use hybrid_tls_lab.Tls.Benchmark.Probes.{Verified, probe_success-Verified}
use hybrid_tls_lab.Tls.Delivery.{finished, sample_id}
use hybrid_tls_lab.Tests.Tls.{argv, options, parsed, attempt, attempt-success, world}

benchmark_main_outcome_example :
    let posted =
      world.post options.dashboard_host options.dashboard_port
        (run_report options world.openssl_version) in
    (has_contexts world options ≡ false
      → benchmark_main world argv ≡ record { status = 1; reports = [] })
    × (has_contexts world options ≡ true
        → posted ≡ false
        → benchmark_main world argv
          ≡ record { status = 1; reports = run_report options world.openssl_version ∷ [] })
    × (has_contexts world options ≡ true
        → posted ≡ true
        → ((benchmark_main world argv).reports
            ≡ run_report options world.openssl_version
              ∷ (map (report_at world options) (schedule_of options)
                  ++ complete_report options ∷ []))
          × (((benchmark_main world argv).status ≡ 0) ↔ (
              count_if (λ at. not (finished_at world options at).success) (schedule_of options)
              ≡ 0)))
benchmark_main_outcome_example = benchmark_main_outcome world argv options parsed

schedule_of_fair_example :
    let c = count_if (stands 1 2) (schedule_of options) in
    ((k : ℕ)
      → get_elem? (schedule_of options) k
        ≡ (if ltb k 9 then some (1 + k / 3, (0 + k / 3 + k % 3) % 3) else none))
    × (3 ≤ c * 3 + 2)
    × (c * 3 ≤ 5)
schedule_of_fair_example = schedule_of_fair options 1 2 (omega arith)

text_eq-sample_id_of_example :
    text_eq
      (sample_id_of (codes "lab-1") (mode_text hybrid) 2)
      (sample_id_of (codes "lab-1") (mode_text hybrid_p256) 2)
    ≡ (text_eq (mode_text hybrid) (mode_text hybrid_p256) && 2 == 2)
text_eq-sample_id_of_example =
    text_eq-sample_id_of (codes "lab-1") hybrid hybrid_p256 2 2 (omega arith) (omega arith)
      (omega arith)

record_ids-request_text_example :
    record_ids (take 2047 (request_text (codes "s-1") (codes "lab-1") true (codes "classical-tls")))
    ≡ some (codes "s-1", codes "lab-1")
unfolding is_id
record_ids-request_text_example =
    record_ids-request_text (codes "s-1") (codes "lab-1") (codes "classical-tls") true refl refl
      refl (omega arith)

json_escape-Quotes_example :
    (output : Text) × (k : ℕ) × (json_escape (codes "no \"route\"\n") 8 ≡ some output)
    × (length output < 8)
    × Quotes output (one_line (take k (codes "no \"route\"\n")))
    × (k * 2 + 2 < 8 → take k (codes "no \"route\"\n") ≡ codes "no \"route\"\n")
json_escape-Quotes_example = json_escape-Quotes (codes "no \"route\"\n") 8 (omega arith)

probe_success-Verified_example :
    Verified (endpoint_at options 0) attempt (finished options 0 1 attempt)
probe_success-Verified_example =
    probe_success-Verified (endpoint_at options 0) attempt
      (request_text (sample_id options 0 1 attempt) (codes "lab-1") true
        (endpoint_at options 0).host)
      attempt-success

-- A socket that takes one character at a time, and a dashboard that takes everything.
abbrev slow : Connection
slow = record {
  connects = true;
  send = λ n text. some 1;
  recv = λ request. some (codes "HTTP/1.1 201 Created\r\n");
}

post_json_outcome_example :
    let header = header_text (codes "dashboard") (codes "/api/runs") (codes "{}") in
    (length header < 1024
      → post_json slow (codes "dashboard") (codes "/api/runs") (codes "{}")
        ≡ (accepted (slow.recv (header ++ codes "{}")), header ++ codes "{}"))
    × (1024 ≤ length header
        → post_json slow (codes "dashboard") (codes "/api/runs") (codes "{}") ≡ (false, []))
post_json_outcome_example =
    post_json_outcome slow (codes "dashboard") (codes "/api/runs") (codes "{}")
      (λ n c s. (0, refl, omega arith)) refl

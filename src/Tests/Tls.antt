-- ===== src/Tests/Tls.antt =====
-- A run of the benchmark client with three rounds, and a probe of its classical endpoint.
mod Rounds
mod Dashboard
mod Programs
use hybrid_tls_lab.Prelude.{◌≡◌, refl, arith, true, none, some, List, [], ◌∷◌}
use hybrid_tls_lab.Prelude.Text.{Text, codes, to_int}
use hybrid_tls_lab.Prelude.Text.Decimal.{digits_of}
use hybrid_tls_lab.Db.Instant.{pad}
use hybrid_tls_lab.Schemas.{is_id}
use hybrid_tls_lab.Tls.Common.{valid_identifier}
use hybrid_tls_lab.Tls.Options.{
  ℤ, pos, ClientOptions, default_client, client_option, parse_arguments, checked_client,
  parse_client,
}
use hybrid_tls_lab.Tls.Options.Parsed.{IsClient, parse_client-IsClient}
use hybrid_tls_lab.Tls.Benchmark.{
  Attempt, sample_id_of, request_text, read_response, after_response, after_write, after_connect,
  after_tcp, probe_to_finished, timings_of,
}
use hybrid_tls_lab.Tls.Benchmark.Run.{Surroundings, endpoint_at}
use hybrid_tls_lab.Tls.Benchmark.Probes.{IsAttempt, IsBrief}
use hybrid_tls_lab.Tls.Delivery.{IsOrdinary, finished}

client_program : Unit {0}
unfolding default_client client_option parse_arguments checked_client parse_client valid_identifier
client_program = tt

probe_program : Unit {0}
unfolding sample_id_of request_text read_response after_response after_write after_connect after_tcp
    probe_to_finished timings_of endpoint_at pad digits_of
probe_program = tt

abbrev argv : List Text
argv = codes "--run-id" ∷ codes "lab-1" ∷ codes "--iterations" ∷ codes "3" ∷ []

abbrev atoi : Text → ℤ
atoi s = pos (to_int s)

abbrev options : ClientOptions
options = record {
  classical = record {
    host = codes "classical-tls";
    port = codes "4433";
    group = codes "X25519";
    mode = codes "classical";
  };
  hybrid = record {
    host = codes "hybrid-tls";
    port = codes "4434";
    group = codes "X25519MLKEM768";
    mode = codes "hybrid";
  };
  hybrid_p256 = record {
    host = codes "hybrid-p256-tls";
    port = codes "4435";
    group = codes "SecP256r1MLKEM768";
    mode = codes "hybrid_p256";
  };
  dashboard_host = codes "dashboard";
  dashboard_port = codes "8000";
  ca_file = codes "/opt/tls/certs/server.crt";
  run_id = codes "lab-1";
  iterations = pos 3;
  warmup = pos 10;
}

parsed : parse_client atoi (codes "run-1") argv ≡ some options
unfolding client_program
parsed = refl

options-IsClient : IsClient options
options-IsClient = parse_client-IsClient atoi (codes "run-1") argv options parsed

run_id-is_id : is_id 120 (codes "lab-1") ≡ true
unfolding is_id
run_id-is_id = refl

-- A handshake of 900 microseconds, and a page.
abbrev attempt : Attempt
attempt = record {
  started = 1_000;
  connected = 1_200;
  handshake_done = 2_100;
  first_byte = 2_500;
  completed = 3_000;
  connect_error = none;
  has_ssl = true;
  handshake_error = none;
  group_name = some (codes "x25519");
  version = codes "TLSv1.3";
  cipher_name = codes "TLS_AES_256_GCM_SHA384";
  write_error = λ request. none;
  chunks = codes "HTTP/1.1 200 OK\r\n" ∷ codes "\r\n{}" ∷ [];
  bytes_read = some 2_400;
  bytes_written = some 700;
}

attempt-IsAttempt : IsAttempt attempt
attempt-IsAttempt = record {
  group_name = refl;
  version = refl;
  cipher_name = refl;
  started = omega arith;
  handshake_done = omega arith;
  bytes_read = omega arith;
  bytes_written = omega arith;
}

attempt-IsBrief : IsBrief attempt
attempt-IsBrief = record {
  group_name = omega arith;
  version = omega arith;
  cipher_name = omega arith;
}

attempt-success : (finished options 0 1 attempt).success ≡ true
unfolding probe_program
attempt-success = refl

attempt-IsOrdinary :
    IsOrdinary (finished options 0 1 attempt) (timings_of attempt (finished options 0 1 attempt))
unfolding probe_program
attempt-IsOrdinary = record {
  tcp_us = omega arith;
  handshake_us = omega arith;
  ttfb_us = omega arith;
  total_us = omega arith;
  bytes_sent = omega arith;
  bytes_received = omega arith;
}

-- A world in which every probe goes like that one, so that two in three fail.
abbrev world : Surroundings
world = record {
  atoi = atoi;
  generated_run_id = codes "run-1";
  create_context = λ endpoint ca_file. true;
  openssl_version = codes "OpenSSL 3.5.0";
  post = λ host port report. true;
  attempt = λ record_sample index slot. attempt;
}

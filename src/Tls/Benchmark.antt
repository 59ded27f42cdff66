-- ===== src/Tls/Benchmark.antt =====
-- tls/tls_benchmark.c: a probe, its report, and the run.
pub mod Run
pub mod Order
pub mod Samples
pub mod Payloads
pub mod Reports
pub mod Endings
pub mod Probes
use hybrid_tls_lab.Prelude.{
  ℕ, ◌-◌, Bool, true, false, not, ◌||◌, Option, none, some, List, [], ◌∷◌, ◌++◌, ltb, leb, ◌==◌,
  if◌then◌else◌, length, take,
}
use hybrid_tls_lab.Prelude.Text.{Text, codes, is_empty, text_eq, contains, lower, or_empty}
use hybrid_tls_lab.Prelude.Text.Decimal.{str_of}
use hybrid_tls_lab.Prelude.Json.RoundTrip.{Field, quoted, object_text}
use hybrid_tls_lab.Db.Instant.{pad}
use hybrid_tls_lab.Tls.Common.{snprintf, sub64, json_escape}
use hybrid_tls_lab.Tls.Options.{Endpoint, ClientOptions}
use hybrid_tls_lab.Tls.Server.{Report, group_text}

-- What the calls of one probe return.
pub record Attempt : Type 0 where
  -- the clock at the start, after the connection, after the handshake, at the first byte of the
  -- response and at the end
  pub started : ℕ
  pub connected : ℕ
  pub handshake_done : ℕ
  pub first_byte : ℕ
  pub completed : ℕ
  -- the error of `tcp_connect_host`, none with a socket
  pub connect_error : Option Text
  -- `SSL_new`
  pub has_ssl : Bool
  -- the error of `SSL_connect`
  pub handshake_error : Option Text
  -- `SSL_group_to_name`, `SSL_get_version` and `SSL_get_cipher_name`
  pub group_name : Option Text
  pub version : Text
  pub cipher_name : Text
  -- the error of `SSL_write`, given the request
  pub write_error : Text → Option Text
  -- what `SSL_read` yields, until it is not positive
  pub chunks : List Text
  -- the counters of the two BIOs, none without one
  pub bytes_read : Option ℕ
  pub bytes_written : Option ℕ

-- The locals of a probe at `finished`.
pub record Finished : Type 0 where
  pub group_copy : Text
  pub version_copy : Text
  pub cipher_copy : Text
  pub handshake_done : ℕ
  pub first_byte : ℕ
  pub bytes_sent : ℕ
  pub bytes_received : ℕ
  pub success : Bool
  pub connection_error : Text

-- "%06d"
abbrev pub sequence_text : ℕ → Text
sequence_text n = if ltb n 1_000_000 then pad 6 n else str_of n

unfoldable pub sample_id_of : (run_id mode : Text) → (sequence : ℕ) → Text
sample_id_of run_id mode sequence =
    snprintf 180 (run_id ++ b'-' ∷ (mode ++ b'-' ∷ sequence_text sequence))

unfoldable pub request_text :
    (sample_id run_id : Text) → (record_sample : Bool) → (host : Text) → Text
request_text sample_id run_id record_sample host = snprintf 640 (
    codes "GET /probe?sample_id="
    ++ (sample_id
        ++ (codes "&run_id="
            ++ (run_id
                ++ (codes "&record="
                    ++ ((if record_sample then codes "1" else codes "0")
                        ++ (codes " HTTP/1.1\r\nHost: "
                            ++ (host ++ codes "\r\nConnection: close\r\n\r\n"))))))))

-- The loop of `SSL_read`: the buffer, from what it holds on.
unfoldable pub read_response : (response : Text) → List Text → Text
read_response response [] = response
read_response response (chunk ∷ chunks) =
    let longer = response ++ take (4095 - length response) chunk in
    let more = read_response longer chunks in
    if is_empty chunk then response else if leb 4095 (length longer) then longer else more

-- The loop has seen a byte.
abbrev pub has_byte : List Text → Bool
has_byte [] = false
has_byte (chunk ∷ chunks) = not (is_empty chunk)

-- 0 without a BIO, as the local is initialised
abbrev pub or_zero : Option ℕ → ℕ
or_zero none = 0
or_zero (some n) = n

-- The locals where the connection or `SSL_new` has failed.
abbrev pub before_handshake : Attempt → (error : Text) → Finished
before_handshake a error = record {
  group_copy = [];
  version_copy = [];
  cipher_copy = [];
  handshake_done = a.started;
  first_byte = 0;
  bytes_sent = 0;
  bytes_received = 0;
  success = false;
  connection_error = snprintf 512 error;
}

-- The locals where the handshake has been tried; what it negotiated is known after its success.
abbrev pub after_handshake :
    Attempt → (negotiated : Bool) → (first_byte : ℕ) → (error : Option Text) → Finished
after_handshake a negotiated first_byte error = record {
  group_copy = if negotiated then snprintf 100 (group_text a.group_name) else [];
  version_copy = if negotiated then snprintf 50 a.version else [];
  cipher_copy = if negotiated then snprintf 120 a.cipher_name else [];
  handshake_done = a.handshake_done;
  first_byte = first_byte;
  bytes_sent = or_zero a.bytes_written;
  bytes_received = or_zero a.bytes_read;
  success = elim error [ none ↦ true | some _ ↦ false ];
  connection_error = snprintf 512 (or_empty error);
}

-- The test of the response, once the loop has ended.
unfoldable pub after_response : Attempt → (first_byte : ℕ) → Finished
after_response a first_byte =
    if first_byte == 0 || not (contains (codes "HTTP/1.1 200 OK") (read_response [] a.chunks))
    then after_handshake a true first_byte
        (some (codes "TLS endpoint returned no valid HTTP response"))
    else after_handshake a true first_byte none

-- The probe from the result of `SSL_write` on.
unfoldable pub after_write : Attempt → Option Text → Finished
after_write a (some error) = after_handshake a true 0 (some error)
after_write a none = after_response a (if has_byte a.chunks then a.first_byte else 0)

-- The probe from the result of `SSL_connect` on.
unfoldable pub after_connect : Endpoint → Attempt → (request : Text) → Option Text → Finished
after_connect endpoint a request (some error) = after_handshake a false 0 (some error)
after_connect endpoint a request none =
    let group_copy = snprintf 100 (group_text a.group_name) in
    if not (text_eq (lower group_copy) (lower endpoint.group))
    then after_handshake a true 0
        (some (codes "negotiated " ++ (group_copy ++ (codes " instead of " ++ endpoint.group))))
    else after_write a (a.write_error request)

-- The probe from the result of `tcp_connect_host` on.
unfoldable pub after_tcp : Endpoint → Attempt → (request : Text) → Option Text → Finished
after_tcp endpoint a request (some error) = before_handshake a error
after_tcp endpoint a request none =
    if not a.has_ssl
    then before_handshake a (codes "SSL_new failed")
    else after_connect endpoint a request a.handshake_error

-- A probe up to `finished`.
unfoldable pub probe_to_finished : Endpoint → Attempt → (request : Text) → Finished
probe_to_finished endpoint a request = after_tcp endpoint a request a.connect_error

-- What the report has of its numbers.
pub record Timings : Type 0 where
  pub tcp_us : ℕ
  pub handshake_us : ℕ
  pub ttfb_us : ℕ
  pub total_us : ℕ

unfoldable pub timings_of : Attempt → Finished → Timings
timings_of a f = record {
  tcp_us = sub64 a.connected a.started;
  handshake_us = if leb a.connected f.handshake_done then f.handshake_done - a.connected else 0;
  ttfb_us = if f.first_byte == 0 then 0 else sub64 f.first_byte a.started;
  total_us = sub64 a.completed a.started;
}

unfoldable pub error_field : (success : Bool) → (error : Text) → Text
error_field success error =
    snprintf 1100 (if success then codes "null" else quoted (or_empty (json_escape error 1024)))

-- The members of the report, in the order of the format.
unfoldable pub client_fields :
    (run_id : Text) → Endpoint → (sample_id : Text) → Finished → Timings → List Field
client_fields run_id endpoint sample_id f t =
    (codes "sample_id", quoted sample_id)
    ∷ (codes "run_id", quoted run_id)
    ∷ (codes "mode", quoted endpoint.mode)
    ∷ (codes "expected_group", quoted endpoint.group)
    ∷ (codes "negotiated_group", quoted f.group_copy)
    ∷ (codes "tls_version", quoted f.version_copy)
    ∷ (codes "cipher", quoted f.cipher_copy)
    ∷ (codes "client_tcp_us", str_of t.tcp_us)
    ∷ (codes "client_handshake_us", str_of t.handshake_us)
    ∷ (codes "client_ttfb_us", str_of t.ttfb_us)
    ∷ (codes "client_total_us", str_of t.total_us)
    ∷ (codes "bytes_sent", str_of f.bytes_sent)
    ∷ (codes "bytes_received", str_of f.bytes_received)
    ∷ (codes "success", (if f.success then codes "true" else codes "false"))
    ∷ (codes "error", error_field f.success f.connection_error)
    ∷ []

-- `record_client`
unfoldable pub client_report :
    (run_id : Text) → Endpoint → (sample_id : Text) → Finished → Timings → Report
client_report run_id endpoint sample_id f t = (
  codes "/api/measurements/client",
  snprintf 2600 (object_text (client_fields run_id endpoint sample_id f t)),
)

-- Whether a probe returns 0, and the report that it sends where it is recorded.
unfoldable pub probe :
    ClientOptions
    → Endpoint
    → Attempt
    → (sequence : ℕ) → (record_sample : Bool) → Bool × List Report
probe options endpoint a sequence record_sample =
    let sample_id = sample_id_of options.run_id endpoint.mode sequence in
    let request = request_text sample_id options.run_id record_sample endpoint.host in
    let f = probe_to_finished endpoint a request in
    (
      f.success,
      if record_sample
          then client_report options.run_id endpoint sample_id f (timings_of a f) ∷ []
          else [],
    )

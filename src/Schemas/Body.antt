-- ===== src/Schemas/Body.antt =====
-- dashboard/app/schemas.py: the payloads that the members of a JSON body give, before their
-- constraints are checked. A field with a default may be missing or null; one without is refused
-- if it is. A value of another type is refused: pydantic's conversions, such as that of "7" to a
-- number, are left out.
use hybrid_tls_lab.Prelude.{ℕ, Bool, Option, none, some, ◌>>=◌, if◌then◌else◌}
use hybrid_tls_lab.Prelude.Text.{Text, codes, text_eq}
use hybrid_tls_lab.Prelude.Dict.{Dict, lookup}
use hybrid_tls_lab.Prelude.Json.{Json, string, number, boolean, null, read_object}
use hybrid_tls_lab.Schemas.{
  Mode, classical, hybrid, hybrid_p256, mode_text, RunCreate, ServerMeasurement, ClientMeasurement,
}

-- str
abbrev pub text_value : Option Json → Option Text
text_value (some (string s)) = some s
text_value (some (number n)) = none
text_value (some (boolean b)) = none
text_value (some null) = none
text_value none = none

-- int
abbrev pub number_value : Option Json → Option ℕ
number_value (some (string s)) = none
number_value (some (number n)) = some n
number_value (some (boolean b)) = none
number_value (some null) = none
number_value none = none

-- bool
abbrev pub boolean_value : Option Json → Option Bool
boolean_value (some (string s)) = none
boolean_value (some (number n)) = none
boolean_value (some (boolean b)) = some b
boolean_value (some null) = none
boolean_value none = none

-- str | None
abbrev pub optional_text : Option Json → Option (Option Text)
optional_text (some (string s)) = some (some s)
optional_text (some (number n)) = none
optional_text (some (boolean b)) = none
optional_text (some null) = some none
optional_text none = some none

-- int | None
abbrev pub optional_number : Option Json → Option (Option ℕ)
optional_number (some (string s)) = none
optional_number (some (number n)) = some (some n)
optional_number (some (boolean b)) = none
optional_number (some null) = some none
optional_number none = some none

-- client_name: a text with a default, which may be missing but not null
abbrev pub client_name_value : Option Json → Option Text
client_name_value none = some (codes "openssl-client")
client_name_value (some j) = text_value (some j)

-- Mode
unfoldable pub mode_of : Text → Option Mode
mode_of s =
    if text_eq s (mode_text classical)
    then some classical
    else if text_eq s (mode_text hybrid)
    then some hybrid
    else if text_eq s (mode_text hybrid_p256)
    then some hybrid_p256
    else none

unfoldable pub run_of : Dict Json → Option RunCreate
run_of d = do
  run_id ← text_value (lookup (codes "run_id") d)
  client_name ← client_name_value (lookup (codes "client_name") d)
  openssl_version ← optional_text (lookup (codes "openssl_version") d)
  iterations ← optional_number (lookup (codes "iterations") d)
  warmup ← optional_number (lookup (codes "warmup") d)
  notes ← optional_text (lookup (codes "notes") d)
  some (record {
    run_id = run_id;
    client_name = client_name;
    openssl_version = openssl_version;
    iterations = iterations;
    warmup = warmup;
    notes = notes;
  })

unfoldable pub server_of : Dict Json → Option ServerMeasurement
server_of d = do
  sample_id ← text_value (lookup (codes "sample_id") d)
  run_id ← text_value (lookup (codes "run_id") d)
  mode_name ← text_value (lookup (codes "mode") d)
  mode ← mode_of mode_name
  expected_group ← text_value (lookup (codes "expected_group") d)
  negotiated_group ← optional_text (lookup (codes "negotiated_group") d)
  tls_version ← optional_text (lookup (codes "tls_version") d)
  cipher ← optional_text (lookup (codes "cipher") d)
  server_handshake_us ← number_value (lookup (codes "server_handshake_us") d)
  some (record {
    sample_id = sample_id;
    run_id = run_id;
    mode = mode;
    expected_group = expected_group;
    negotiated_group = negotiated_group;
    tls_version = tls_version;
    cipher = cipher;
    server_handshake_us = server_handshake_us;
  })

unfoldable pub client_of : Dict Json → Option ClientMeasurement
client_of d = do
  sample_id ← text_value (lookup (codes "sample_id") d)
  run_id ← text_value (lookup (codes "run_id") d)
  mode_name ← text_value (lookup (codes "mode") d)
  mode ← mode_of mode_name
  expected_group ← text_value (lookup (codes "expected_group") d)
  negotiated_group ← optional_text (lookup (codes "negotiated_group") d)
  tls_version ← optional_text (lookup (codes "tls_version") d)
  cipher ← optional_text (lookup (codes "cipher") d)
  client_tcp_us ← optional_number (lookup (codes "client_tcp_us") d)
  client_handshake_us ← optional_number (lookup (codes "client_handshake_us") d)
  client_ttfb_us ← optional_number (lookup (codes "client_ttfb_us") d)
  client_total_us ← optional_number (lookup (codes "client_total_us") d)
  bytes_sent ← optional_number (lookup (codes "bytes_sent") d)
  bytes_received ← optional_number (lookup (codes "bytes_received") d)
  success ← boolean_value (lookup (codes "success") d)
  error ← optional_text (lookup (codes "error") d)
  some (record {
    sample_id = sample_id;
    run_id = run_id;
    mode = mode;
    expected_group = expected_group;
    negotiated_group = negotiated_group;
    tls_version = tls_version;
    cipher = cipher;
    client_tcp_us = client_tcp_us;
    client_handshake_us = client_handshake_us;
    client_ttfb_us = client_ttfb_us;
    client_total_us = client_total_us;
    bytes_sent = bytes_sent;
    bytes_received = bytes_received;
    success = success;
    error = error;
  })

-- The payloads of a body, as text.
unfoldable pub read_run : Text → Option RunCreate
read_run body = read_object body >>= run_of

unfoldable pub read_server : Text → Option ServerMeasurement
read_server body = read_object body >>= server_of

unfoldable pub read_client : Text → Option ClientMeasurement
read_client body = read_object body >>= client_of

-- ===== src/Tls/Benchmark/Payloads.antt =====
-- The payload that a probe reports, and the bounds of what it is made of.
use hybrid_tls_lab.Prelude.{
  ℕ, ◌^◌, ◌<◌, ◌≤◌, ◌≡◌, refl, arith, true, none, some, if◌then◌else◌, length,
}
use hybrid_tls_lab.Prelude.Text.{Text}
use hybrid_tls_lab.Prelude.Text.Decimal.{str_of, length-str_of}
use hybrid_tls_lab.Prelude.Json.RoundTrip.{is_plain}
use hybrid_tls_lab.Schemas.{Mode, classical, hybrid, hybrid_p256, mode_text, ClientMeasurement}
use hybrid_tls_lab.Schemas.Body.{mode_of}
use hybrid_tls_lab.Tls.Common.Escape.{one_line}
use hybrid_tls_lab.Tls.Benchmark.{Finished, Timings}

-- A text for a format: it has a given length at most, and nothing that JSON would escape.
pub record IsName (n : ℕ) (s : Text) : Type 0 where
  pub short : length s ≤ n
  pub plain : is_plain s ≡ true

-- What the locals of a probe hold.
pub record IsFinished (f : Finished) : Type 0 where
  pub group_copy : IsName 99 f.group_copy
  pub version_copy : IsName 49 f.version_copy
  pub cipher_copy : IsName 119 f.cipher_copy
  pub connection_error : length f.connection_error ≤ 511

-- A uint64_t
abbrev pub IsWord : ℕ → Type 0
IsWord n = n < 2 ^ 64

pub record HasWords (f : Finished) (t : Timings) : Type 0 where
  pub tcp_us : IsWord t.tcp_us
  pub handshake_us : IsWord t.handshake_us
  pub ttfb_us : IsWord t.ttfb_us
  pub total_us : IsWord t.total_us
  pub bytes_sent : IsWord f.bytes_sent
  pub bytes_received : IsWord f.bytes_received

-- The payload that the report stands for: a failure has its error, on one line.
abbrev pub client_payload :
    Text → Mode → (group sample_id : Text) → Finished → Timings → ClientMeasurement
client_payload run_id mode group sample_id f t = record {
  sample_id = sample_id;
  run_id = run_id;
  mode = mode;
  expected_group = group;
  negotiated_group = some f.group_copy;
  tls_version = some f.version_copy;
  cipher = some f.cipher_copy;
  client_tcp_us = some t.tcp_us;
  client_handshake_us = some t.handshake_us;
  client_ttfb_us = some t.ttfb_us;
  client_total_us = some t.total_us;
  bytes_sent = some f.bytes_sent;
  bytes_received = some f.bytes_received;
  success = f.success;
  error = if f.success then none else some (one_line f.connection_error);
}

pub word_digits : (n : ℕ) → IsWord n → length (str_of n) ≤ 20
word_digits n h = length-str_of 19 n (omega arith)

pub mode_plain : (mode : Mode) → is_plain (mode_text mode) ≡ true
mode_plain classical = refl
mode_plain hybrid = refl
mode_plain hybrid_p256 = refl

pub mode_of-mode_text : (mode : Mode) → mode_of (mode_text mode) ≡ some mode
unfolding mode_of
mode_of-mode_text classical = refl
mode_of-mode_text hybrid = refl
mode_of-mode_text hybrid_p256 = refl

-- ===== src/Schemas.antt =====
-- dashboard/app/schemas.py: the payloads of the three writes, and the constraints that they are
-- validated by.
pub mod Body
use hybrid_tls_lab.Prelude.{ℕ, Bool, true, not, ◌&&◌, ◌||◌, Option, none, some, ◌==◌, leb, length}
use hybrid_tls_lab.Prelude.Text.{Text, codes, is_empty, is_digit, all_codes}

pub data Mode : Type 0 where
  classical hybrid hybrid_p256 : Mode

abbrev pub mode_text : Mode → Text
mode_text classical = codes "classical"
mode_text hybrid = codes "hybrid"
mode_text hybrid_p256 = codes "hybrid_p256"

pub record RunCreate : Type 0 where
  pub run_id : Text
  pub client_name : Text
  pub openssl_version : Option Text
  pub iterations : Option ℕ
  pub warmup : Option ℕ
  pub notes : Option Text

pub record ServerMeasurement : Type 0 where
  pub sample_id : Text
  pub run_id : Text
  pub mode : Mode
  pub expected_group : Text
  pub negotiated_group : Option Text
  pub tls_version : Option Text
  pub cipher : Option Text
  pub server_handshake_us : ℕ

pub record ClientMeasurement : Type 0 where
  pub sample_id : Text
  pub run_id : Text
  pub mode : Mode
  pub expected_group : Text
  pub negotiated_group : Option Text
  pub tls_version : Option Text
  pub cipher : Option Text
  pub client_tcp_us : Option ℕ
  pub client_handshake_us : Option ℕ
  pub client_ttfb_us : Option ℕ
  pub client_total_us : Option ℕ
  pub bytes_sent : Option ℕ
  pub bytes_received : Option ℕ
  pub success : Bool
  pub error : Option Text

-- A character of `[A-Za-z0-9_.-]`
abbrev pub is_id_code : ℕ → Bool
is_id_code c =
    (leb b'A' c && leb c b'Z')
    || (leb b'a' c && leb c b'z')
    || is_digit c
    || c == b'_'
    || c == b'.'
    || c == b'-'

-- min_length=1, max_length=n, pattern=r"^[A-Za-z0-9_.-]+$"
unfoldable pub is_id : ℕ → Text → Bool
is_id n s = not (is_empty s) && leb (length s) n && all_codes is_id_code s

abbrev pub within : ℕ → Text → Bool
within n s = leb (length s) n

-- A constraint on a value that may be null.
abbrev pub optional {ℓ} : {A : Type ℓ} → (A → Bool) → Option A → Bool
optional p none = true
optional p (some a) = p a

abbrev pub is_duration : ℕ → Bool
is_duration us = leb us 120_000_000

unfoldable pub accepts_run : RunCreate → Bool
accepts_run r =
    is_id 120 r.run_id
    && within 120 r.client_name
    && optional (within 240) r.openssl_version
    && optional (λ n. leb 1 n && leb n 1_000_000) r.iterations
    && optional (λ n. leb n 100_000) r.warmup
    && optional (within 500) r.notes

unfoldable pub accepts_server : ServerMeasurement → Bool
accepts_server m =
    is_id 160 m.sample_id
    && is_id 120 m.run_id
    && (not (is_empty m.expected_group) && within 80 m.expected_group)
    && optional (within 80) m.negotiated_group
    && optional (within 40) m.tls_version
    && optional (within 100) m.cipher
    && is_duration m.server_handshake_us

unfoldable pub accepts_client : ClientMeasurement → Bool
accepts_client m =
    is_id 160 m.sample_id
    && is_id 120 m.run_id
    && (not (is_empty m.expected_group) && within 80 m.expected_group)
    && optional (within 80) m.negotiated_group
    && optional (within 40) m.tls_version
    && optional (within 100) m.cipher
    && optional is_duration m.client_tcp_us
    && optional is_duration m.client_handshake_us
    && optional is_duration m.client_ttfb_us
    && optional is_duration m.client_total_us
    && optional (within 1000) m.error

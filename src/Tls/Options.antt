-- ===== src/Tls/Options.antt =====
-- tls/tls_benchmark.c and tls/tls_server.c: the options of the two programs and `parse_options`.
pub mod Parsed
use hybrid_tls_lab.Prelude.{
  ℕ, Bool, false, ◌&&◌, ◌||◌, Option, none, some, List, [], ◌∷◌, leb, if◌then◌else◌,
}
use hybrid_tls_lab.Prelude.Text.{Text, codes, text_eq}
use hybrid_tls_lab.Tls.Common.{valid_identifier}

-- An int; `negsuc n` is -(n + 1).
pub data ℤ : Type 0 where
  pos : ℕ → ℤ
  negsuc : ℕ → ℤ

-- low <= n && n <= high, for low that is not negative
abbrev pub in_range : ℕ → ℕ → ℤ → Bool
in_range low high (pos n) = leb low n && leb n high
in_range low high (negsuc n) = false

pub record Endpoint : Type 0 where
  pub host : Text
  pub port : Text
  pub group : Text
  pub mode : Text

pub record ClientOptions : Type 0 where
  pub classical : Endpoint
  pub hybrid : Endpoint
  pub hybrid_p256 : Endpoint
  pub dashboard_host : Text
  pub dashboard_port : Text
  pub ca_file : Text
  pub run_id : Text
  pub iterations : ℤ
  pub warmup : ℤ

unfoldable pub default_client : (generated_run_id : Text) → ClientOptions
default_client generated_run_id = record {
  classical = record {
    host = codes "classical-tls";
    port = codes "4433";
    group = codes "X25519";
    mode = codes "classical";
  };
  hybrid = record {
    host = codes "hybrid-tls";
    port = codes "4434";
    group = codes "X25519MLKEM768";
    mode = codes "hybrid";
  };
  hybrid_p256 = record {
    host = codes "hybrid-p256-tls";
    port = codes "4435";
    group = codes "SecP256r1MLKEM768";
    mode = codes "hybrid_p256";
  };
  dashboard_host = codes "dashboard";
  dashboard_port = codes "8000";
  ca_file = codes "/opt/tls/certs/server.crt";
  run_id = generated_run_id;
  iterations = pos 100;
  warmup = pos 10;
}

pub record ServerOptions : Type 0 where
  pub port : ℤ
  pub group : Text
  pub mode : Text
  pub certificate : Text
  pub private_key : Text
  pub dashboard_host : Text
  pub dashboard_port : Text

unfoldable pub default_server : ServerOptions
default_server = record {
  port = pos 4433;
  group = codes "X25519";
  mode = codes "classical";
  certificate = codes "/opt/tls/certs/server.crt";
  private_key = codes "/opt/tls/certs/server.key";
  dashboard_host = codes "dashboard";
  dashboard_port = codes "8000";
}

unfoldable pub valid_mode : Text → Bool
valid_mode mode =
    text_eq mode (codes "classical")
    || text_eq mode (codes "hybrid")
    || text_eq mode (codes "hybrid_p256")

module _ (atoi : Text → ℤ) where
  -- An option of the client with its value, none if it is unknown.
  unfoldable pub client_option : (name value : Text) → ClientOptions → Option ClientOptions
  client_option name value o =
      if text_eq name (codes "--classical-host")
      then some (record o { classical = record (o.classical) { host = value } })
      else if text_eq name (codes "--classical-port")
      then some (record o { classical = record (o.classical) { port = value } })
      else if text_eq name (codes "--hybrid-host")
      then some (record o { hybrid = record (o.hybrid) { host = value } })
      else if text_eq name (codes "--hybrid-port")
      then some (record o { hybrid = record (o.hybrid) { port = value } })
      else if text_eq name (codes "--p256-host")
      then some (record o { hybrid_p256 = record (o.hybrid_p256) { host = value } })
      else if text_eq name (codes "--p256-port")
      then some (record o { hybrid_p256 = record (o.hybrid_p256) { port = value } })
      else if text_eq name (codes "--dashboard-host")
      then some (record o { dashboard_host = value })
      else if text_eq name (codes "--dashboard-port")
      then some (record o { dashboard_port = value })
      else if text_eq name (codes "--cafile")
      then some (record o { ca_file = value })
      else if text_eq name (codes "--iterations")
      then some (record o { iterations = atoi value })
      else if text_eq name (codes "--warmup")
      then some (record o { warmup = atoi value })
      else if text_eq name (codes "--run-id")
      then some (record o { run_id = value })
      else none

  unfoldable pub server_option : (name value : Text) → ServerOptions → Option ServerOptions
  server_option name value o =
      if text_eq name (codes "--port")
      then some (record o { port = atoi value })
      else if text_eq name (codes "--group")
      then some (record o { group = value })
      else if text_eq name (codes "--mode")
      then some (record o { mode = value })
      else if text_eq name (codes "--cert")
      then some (record o { certificate = value })
      else if text_eq name (codes "--key")
      then some (record o { private_key = value })
      else if text_eq name (codes "--dashboard-host")
      then some (record o { dashboard_host = value })
      else if text_eq name (codes "--dashboard-port")
      then some (record o { dashboard_port = value })
      else none

-- The loop over `argv[1:]`, for the options of either program: every name takes the next argument.
unfoldable pub parse_arguments {ℓ} :
    {O : Type ℓ} → (Text → Text → O → Option O) → List Text → O → Option O
parse_arguments option [] o = some o
parse_arguments option (name ∷ []) o = none
parse_arguments option (name ∷ value ∷ argv) o = elim (option name value o) [
  | none ↦ none
  | some o' ↦ parse_arguments option argv o'
]

unfoldable pub checked_client : ClientOptions → Option ClientOptions
checked_client o =
    if in_range 1 1_000_000 o.iterations && in_range 0 100_000 o.warmup && valid_identifier o.run_id
    then some o
    else none

unfoldable pub checked_server : ServerOptions → Option ServerOptions
checked_server o = if in_range 1 65_535 o.port && valid_mode o.mode then some o else none

-- tls_benchmark.c: `parse_options`, none for -1
unfoldable pub parse_client :
    (atoi : Text → ℤ) → (generated_run_id : Text) → List Text → Option ClientOptions
parse_client atoi generated_run_id argv =
    elim (parse_arguments (client_option atoi) argv (default_client generated_run_id)) [
      | none ↦ none
      | some o ↦ checked_client o
    ]

-- tls_server.c: `parse_options`
unfoldable pub parse_server : (atoi : Text → ℤ) → List Text → Option ServerOptions
parse_server atoi argv = elim (parse_arguments (server_option atoi) argv default_server) [
  | none ↦ none
  | some o ↦ checked_server o
]

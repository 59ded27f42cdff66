-- ===== src/Tls/Benchmark/Run.antt =====
-- tls/tls_benchmark.c: `main`, the order of its probes and what it sends to the dashboard.
use hybrid_tls_lab.Prelude.{
  ℕ, zero, suc, ◌+◌, ◌-◌, ◌%◌, Bool, true, false, not, ◌&&◌, none, some, List, [], ◌∷◌, ◌++◌, map,
  ◌==◌, if◌then◌else◌, count_if,
}
use mathlib.Core.List.{flat_map}
use hybrid_tls_lab.Prelude.Text.{Text, codes, or_empty}
use hybrid_tls_lab.Prelude.Text.Decimal.{str_of}
use hybrid_tls_lab.Prelude.Json.RoundTrip.{Field, quoted, object_text}
use hybrid_tls_lab.Tls.Common.{snprintf, json_escape}
use hybrid_tls_lab.Tls.Options.{ℤ, pos, negsuc, Endpoint, ClientOptions, parse_client}
use hybrid_tls_lab.Tls.Server.{Report}
use hybrid_tls_lab.Tls.Benchmark.{Attempt, probe}

-- What the calls of a run return.
pub record Surroundings : Type 0 where
  pub atoi : Text → ℤ
  pub generated_run_id : Text
  -- a context for an endpoint could be made
  pub create_context : Endpoint → (ca_file : Text) → Bool
  pub openssl_version : Text
  -- `post_json` returns 0
  pub post : (host port : Text) → Report → Bool
  pub attempt : (record_sample : Bool) → (index slot : ℕ) → Attempt

abbrev pub count_of : ℤ → ℕ
count_of (pos n) = n
count_of (negsuc n) = 0

-- "%d"
abbrev pub int_text : ℤ → Text
int_text (pos n) = str_of n
int_text (negsuc n) = b'-' ∷ str_of (suc n)

abbrev pub notes : Text
notes = codes "Rotating classical/hybrid/hybrid_p256 order; TLS 1.3; fresh full handshakes"

abbrev pub run_fields : ClientOptions → (version_escaped : Text) → List Field
run_fields o version_escaped =
    (codes "run_id", quoted o.run_id)
    ∷ (codes "client_name", quoted (codes "openssl-c-client"))
    ∷ (codes "openssl_version", quoted version_escaped)
    ∷ (codes "iterations", int_text o.iterations)
    ∷ (codes "warmup", int_text o.warmup)
    ∷ (codes "notes", quoted notes)
    ∷ []

unfoldable pub run_report : ClientOptions → (version : Text) → Report
run_report o version = (
  codes "/api/runs",
  snprintf 1400 (object_text (run_fields o (or_empty (json_escape version 500)))),
)

unfoldable pub complete_report : ClientOptions → Report
complete_report o =
    (snprintf 300 (codes "/api/runs/" ++ (o.run_id ++ codes "/complete")), codes "{}")

-- The endpoint in a slot of the array.
unfoldable pub endpoint_at : ClientOptions → (slot : ℕ) → Endpoint
endpoint_at o slot =
    if slot == 0 then o.classical else if slot == 1 then o.hybrid else o.hybrid_p256

-- The slots of a measured round, in their order.
unfoldable pub rotation : (index : ℕ) → List ℕ
rotation index =
    let start = (index - 1) % 3 in (start + 0) % 3 ∷ (start + 1) % 3 ∷ (start + 2) % 3 ∷ []

-- The rounds from an index on, each as the slots that it probes.
unfoldable pub rounds : (ℕ → List ℕ) → (index count : ℕ) → List (ℕ × ℕ)
rounds slots index zero = []
rounds slots index (suc count) =
    map (λ (slot : ℕ). (index, slot)) (slots index) ++ rounds slots (suc index) count

-- `for (g = 0; g < group_count; g++)`
abbrev pub in_order : ℕ → List ℕ
in_order index = 0 ∷ 1 ∷ 2 ∷ []

unfoldable pub probe_all :
    Surroundings → ClientOptions → (record_sample : Bool) → List (ℕ × ℕ) → List (Bool × List Report)
probe_all w o record_sample schedule =
    map
      (λ (at : ℕ × ℕ).
        probe o (endpoint_at o at.1) (w.attempt record_sample at.0 at.1) at.0 record_sample)
      schedule

-- The exit status of a run, and what it has sent.
pub record RunOutcome : Type 0 where
  pub status : ℕ
  pub reports : List Report

abbrev pub schedule_of : ClientOptions → List (ℕ × ℕ)
schedule_of o = rounds rotation 1 (count_of o.iterations)

unfoldable pub run_probes : Surroundings → ClientOptions → RunOutcome
run_probes w o =
    let warmups = probe_all w o false (rounds in_order 1 (count_of o.warmup)) in
    let probes = probe_all w o true (schedule_of o) in
    let failures = count_if (λ (p : Bool × List Report). not p.0) probes in
    record {
      status = if failures == 0 then 0 else 1;
      reports =
          run_report o w.openssl_version
          ∷ (flat_map (λ (p : Bool × List Report). p.1) warmups
              ++ (flat_map (λ (p : Bool × List Report). p.1) probes ++ complete_report o ∷ []));
    }

unfoldable pub benchmark_main : Surroundings → (argv : List Text) → RunOutcome
benchmark_main w argv = elim (parse_client w.atoi w.generated_run_id argv) [
  | none ↦ record { status = 2; reports = [] }
  | some o ↦
      if not (
        w.create_context o.classical o.ca_file
        && w.create_context o.hybrid o.ca_file
        && w.create_context o.hybrid_p256 o.ca_file)
      then record { status = 1; reports = [] }
      else if not (w.post o.dashboard_host o.dashboard_port (run_report o w.openssl_version))
      then record { status = 1; reports = run_report o w.openssl_version ∷ [] }
      else run_probes w o
]

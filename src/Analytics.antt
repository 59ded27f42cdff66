-- ===== src/Analytics.antt =====
-- dashboard/app/analytics.py: the summary of the measurements, on the descriptions of `Describe`.
-- None is the IndexError of a subscript.
mod Describe
pub mod Percentiles
pub mod Counts
unfoldable pub use Describe.*
use hybrid_tls_lab.Prelude.{
  ℕ, ◌+◌, ◌-◌, ◌*◌, ◌^◌, Bool, true, false, not, Option, none, some, List, [], ◌∷◌, map, ◌==◌,
  if◌then◌else◌, ◌>>=◌, length, keep, get_elem?,
}
use hybrid_tls_lab.Prelude.Double.{
  Double, nearest, of_int, div_int, add, sub, mul, div, floor, ceil,
}
use hybrid_tls_lab.Prelude.Double.Order.{double_leb, sorted}
use hybrid_tls_lab.Prelude.Text.{Text, text_eq}
use hybrid_tls_lab.Schemas.{Mode, classical, hybrid, hybrid_p256, mode_text}
use hybrid_tls_lab.Db.{Measurement}
use mathlib.Core.Option

pub data Metric : Type 0 where
  client_tcp_us client_handshake_us server_handshake_us : Metric
  client_ttfb_us client_total_us bytes_sent bytes_received : Metric

abbrev pub metrics : List Metric
metrics =
    client_tcp_us ∷ client_handshake_us ∷ server_handshake_us ∷ client_ttfb_us ∷ client_total_us
    ∷ bytes_sent ∷ bytes_received ∷ []

-- `row.get(metric)`
abbrev pub metric_of : Metric → Measurement → Option ℕ
metric_of client_tcp_us m = m.client_tcp_us
metric_of client_handshake_us m = m.client_handshake_us
metric_of server_handshake_us m = m.server_handshake_us
metric_of client_ttfb_us m = m.client_ttfb_us
metric_of client_total_us m = m.client_total_us
metric_of bytes_sent m = m.bytes_sent
metric_of bytes_received m = m.bytes_received

-- One value per metric, in the order of `METRICS`.
abbrev pub PerMetric : Type 0 → Type 0
PerMetric A = List (Metric × A)

unfoldable pub describe_metrics : List Metric → List Measurement → Option (PerMetric Description)
describe_metrics [] rows = some []
describe_metrics (metric ∷ rest) rows =
    let later = describe_metrics rest rows in
    do d ← describe (map (metric_of metric) rows); ds ← later; some ((metric, d) ∷ ds)

pub record ModeSummary : Type 0 where
  pub samples : ℕ
  pub successes : ℕ
  pub failures : ℕ
  pub metrics : PerMetric Description

abbrev pub has_mode : Mode → Measurement → Bool
has_mode mode m = text_eq m.mode (mode_text mode)

-- The rows of a mode that succeeded.
abbrev pub successful : List Measurement → Mode → List Measurement
successful rows mode = keep (λ m. m.success) (keep (has_mode mode) rows)

abbrev pub mode_summary_of : List Measurement → Mode → PerMetric Description → ModeSummary
mode_summary_of rows mode ds =
    let samples = length (keep (has_mode mode) rows) in
    record {
      samples = samples;
      successes = length (successful rows mode);
      failures = samples - length (successful rows mode);
      metrics = ds;
    }

unfoldable pub summarize_mode : List Measurement → Mode → Option ModeSummary
summarize_mode rows mode = do
  ds ← describe_metrics metrics (successful rows mode)
  some (mode_summary_of rows mode ds)

-- A float of either sign.
pub record Signed : Type 0 where
  pub negative : Bool
  pub size : Double

pub record Comparison : Type 0 where
  pub delta : Option Signed
  pub percent : Option Signed

abbrev pub signed_sub : Double → Double → Signed
signed_sub x y =
    if double_leb y x
    then record { negative = false; size = sub x y }
    else record { negative = true; size = sub y x }

-- `delta / baseline * 100 if baseline else None`
abbrev pub percent_of : Signed → Double → Option Signed
percent_of delta baseline =
    if baseline.num == 0
    then none
    else some (record delta { size = mul (div delta.size baseline) (of_int 100) })

unfoldable pub compare_p50 : Option Double → Option Double → Comparison
compare_p50 (some baseline_p50) (some mode_p50) =
    let delta = signed_sub mode_p50 baseline_p50 in
    record { delta = some delta; percent = percent_of delta baseline_p50 }
compare_p50 _ _ = record { delta = none; percent = none }

-- Both lists hold the metrics in the same order.
unfoldable pub compare_metrics :
    PerMetric Description → PerMetric Description → PerMetric Comparison
compare_metrics ((metric, b) ∷ bs) ((metric', d) ∷ ds) =
    (metric, compare_p50 b.p50 d.p50) ∷ compare_metrics bs ds
compare_metrics _ _ = []

-- `comparison` also holds, by metric, what it holds for hybrid.
pub record Summary : Type 0 where
  pub classical : ModeSummary
  pub hybrid : ModeSummary
  pub hybrid_p256 : ModeSummary
  pub hybrid_comparison : PerMetric Comparison
  pub hybrid_p256_comparison : PerMetric Comparison
  pub comparison : PerMetric Comparison

abbrev pub summary_of : (baseline with_hybrid with_p256 : ModeSummary) → Summary
summary_of baseline with_hybrid with_p256 = record {
  classical = baseline;
  hybrid = with_hybrid;
  hybrid_p256 = with_p256;
  hybrid_comparison = compare_metrics baseline.metrics with_hybrid.metrics;
  hybrid_p256_comparison = compare_metrics baseline.metrics with_p256.metrics;
  comparison = compare_metrics baseline.metrics with_hybrid.metrics;
}

unfoldable pub summarize : List Measurement → Option Summary
summarize rows = do
  baseline ← summarize_mode rows Mode.classical
  with_hybrid ← summarize_mode rows Mode.hybrid
  with_p256 ← summarize_mode rows Mode.hybrid_p256
  some (summary_of baseline with_hybrid with_p256)

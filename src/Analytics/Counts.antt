-- ===== src/Analytics/Counts.antt =====
-- The summary of the measurements exists, and counts every one of them once.
use hybrid_tls_lab.Prelude.{
  ℕ, ◌+◌, ◌^◌, ◌≤◌, ◌≡◌, refl, arith, inl, inr, Bool, true, false, ◌&&◌, is_some, Option, none,
  some, List, [], ◌∷◌, map, length, keep, count_if, All, length-keep, count_if-le-length,
  length-map, if◌then◌else◌, Bool-cases,
}
use hybrid_tls_lab.Prelude.Double.{Double}
use hybrid_tls_lab.Prelude.Text.{Text, codes, text_eq, text_eq_iff}
use hybrid_tls_lab.Schemas.{Mode, classical, hybrid, hybrid_p256, mode_text}
use hybrid_tls_lab.Db.{Measurement, Database, mode_allowed}
use hybrid_tls_lab.Db.Integrity.{IsValid}
use hybrid_tls_lab.Analytics.{
  Description, no_values, description_of, successful, mode_summary_of, summary_of, clean_values,
  describe_clean, describe, Metric, metrics, metric_of, PerMetric, describe_metrics, ModeSummary,
  has_mode, summarize_mode, Summary, summarize,
}
use hybrid_tls_lab.Analytics.Percentiles.{percentile_total}

length-clean_values :
    (values : List (Option ℕ)) → length (clean_values values) ≡ count_if is_some values
length-clean_values [] = refl
length-clean_values (none ∷ values) = omega (arith, length-clean_values values)
length-clean_values (some n ∷ values) = omega (arith, length-clean_values values)

describe_clean_total :
    (clean : List Double)
    → length clean ≤ 2 ^ 46
    → (d : Description) × (describe_clean clean ≡ some d) × (d.count ≡ length clean)
unfolding describe_clean
describe_clean_total [] short = (no_values, refl, refl)
describe_clean_total (x ∷ xs) short =
    let (p50, e50) = percentile_total x xs 50 short (omega arith) in
    let (p95, e95) = percentile_total x xs 95 short (omega arith) in
    let (p99, e99) = percentile_total x xs 99 short (omega arith) in
    (description_of x xs (some p50) (some p95) (some p99), rw (e50, e95, e99), refl)

-- The description of up to 2 ^ 46 values exists, and counts those that are present.
pub describe_total :
    (values : List (Option ℕ))
    → length values ≤ 2 ^ 46
    → (d : Description) × (describe values ≡ some d) × (d.count ≡ count_if is_some values)
unfolding describe
describe_total values short =
    let present = length-clean_values values in
    let (d, described, count) =
      describe_clean_total (clean_values values)
        (omega (arith, count_if-le-length is_some values)) in
    (d, described, omega arith)

describe_metrics_total :
    (ms : List Metric) (rows : List Measurement)
    → length rows ≤ 2 ^ 46
    → (ds : PerMetric Description) × (describe_metrics ms rows ≡ some ds)
unfolding describe_metrics
describe_metrics_total [] rows short = ([], refl)
describe_metrics_total (metric ∷ ms) rows short =
    let (d, described, _) =
      describe_total (map (metric_of metric) rows)
        (omega (arith, length-map (metric_of metric) rows)) in
    let (ds, later) = describe_metrics_total ms rows short in
    ((metric, d) ∷ ds, rw (described, later))

count_if-keep :
    (p q : Measurement → Bool) (rows : List Measurement)
    → count_if q (keep p rows) ≡ count_if (λ m. p m && q m) rows
count_if-keep p q [] = refl
count_if-keep p q (m ∷ rows) = ground (arith, count_if-keep p q rows)

-- What the summary of a mode says of the rows.
abbrev pub Counts : List Measurement → Mode → ModeSummary → Type 0
Counts rows mode s =
    (s.samples ≡ count_if (has_mode mode) rows)
    × (s.successes ≡ count_if (λ m. has_mode mode m && m.success) rows)
    × (s.successes + s.failures ≡ s.samples)

summarize_mode_total :
    (rows : List Measurement) (mode : Mode)
    → length rows ≤ 2 ^ 46
    → (s : ModeSummary) × (summarize_mode rows mode ≡ some s) × Counts rows mode s
unfolding summarize_mode
summarize_mode_total rows mode short =
    let mode_rows = keep (has_mode mode) rows in
    let samples = length-keep (has_mode mode) rows in
    let successes = length-keep (λ m. m.success) mode_rows in
    let counted = count_if-keep (has_mode mode) (λ m. m.success) rows in
    let small = count_if-le-length (has_mode mode) rows in
    let fewer = count_if-le-length (λ (m : Measurement). m.success) mode_rows in
    let (ds, described) = describe_metrics_total metrics (successful rows mode) (omega arith) in
    (mode_summary_of rows mode ds, rw described, (omega arith, omega arith, omega arith))

-- Of up to 2 ^ 46 measurements the summary exists: for each mode the samples are the rows of the
-- mode, the successes are those of them that succeeded, and the failures are the rest.
pub summarize_counts :
    (rows : List Measurement)
    → length rows ≤ 2 ^ 46
    → (s : Summary) × (summarize rows ≡ some s)
      × Counts rows classical s.classical
      × Counts rows hybrid s.hybrid
      × Counts rows hybrid_p256 s.hybrid_p256
unfolding summarize
summarize_counts rows short =
    let (c, ec, nc) = summarize_mode_total rows classical short in
    let (h, eh, nh) = summarize_mode_total rows hybrid short in
    let (p, ep, np) = summarize_mode_total rows hybrid_p256 short in
    (summary_of c h p, rw (ec, eh, ep), nc, nh, np)

allowed_modes :
    (t : Text)
    → mode_allowed t ≡ true
    → (text_eq t (mode_text hybrid_p256) ≡ false)
      × ((if text_eq t (mode_text classical) then 1 else 0)
            + (if text_eq t (mode_text hybrid) then 1 else 0)
          ≡ 1)
unfolding mode_allowed
allowed_modes t h = elim (Bool-cases (text_eq t (codes "classical"))) [
  | inl e ↦ rw ((text_eq_iff t (codes "classical")).0 e) (refl, refl)
  | inr e ↦
      let e' : text_eq t (codes "hybrid") ≡ true = rw e at h in
      rw ((text_eq_iff t (codes "hybrid")).0 e') (refl, refl)
]

pub no_p256 :
    (rows : List Measurement)
    → All (λ m. mode_allowed m.mode ≡ true) rows
    → (count_if (has_mode hybrid_p256) rows ≡ 0)
      × (count_if (has_mode classical) rows + count_if (has_mode hybrid) rows ≡ length rows)
no_p256 [] allowed = (refl, refl)
no_p256 (m ∷ rows) allowed =
    let (other, one) = allowed_modes m.mode allowed.0 in
    let (later, all) = no_p256 rows allowed.1 in (rw other (omega arith), omega arith)

-- Of a database that meets the constraints of its schema, with up to 2 ^ 46 measurements, the
-- summary shows no sample in the mode hybrid_p256, and the samples of the other two modes add up to
-- all measurements.
pub summarize-IsValid :
    (db : Database)
    → IsValid db
    → length db.measurements ≤ 2 ^ 46
    → (s : Summary) × (summarize db.measurements ≡ some s)
      × (s.hybrid_p256.samples ≡ 0)
      × (s.classical.samples + s.hybrid.samples ≡ length db.measurements)
summarize-IsValid db v short =
    let (s, found, nc, nh, np) = summarize_counts db.measurements short in
    let (none_p256, all) = no_p256 db.measurements v.has_mode in
    (s, found, omega arith, omega arith)

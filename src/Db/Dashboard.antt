-- ===== src/Db/Dashboard.antt =====
-- What the dashboard shows when no run is asked for, whatever the order of equal instants.
use mathlib.Core.List.{Perm, head-eq_of_cons-eq}
use hybrid_tls_lab.Prelude.{
  ℕ, zero, suc, ◌+◌, ◌^◌, ◌≤◌, ◌≡◌, refl, sym, ◌∙◌, inl, inr, arith, Bool, true, false, none, some,
  List, [], ◌∷◌, map, length, keep, count_if, take, All, ◌==◌, Bool-cases, length-keep,
  count_if-le-length,
}
use hybrid_tls_lab.Prelude.Perm.{count_if-Perm, length-Perm}
use hybrid_tls_lab.Prelude.Text.{is_empty}
use hybrid_tls_lab.Schemas.{classical, hybrid, hybrid_p256}
use hybrid_tls_lab.Db.{Run, Measurement, Database}
use hybrid_tls_lab.Db.Integrity.{IsValid}
use hybrid_tls_lab.Db.Queries.{
  RunRow, of_run, run_row, DashboardData, runs, measurements, dashboard_rows, dashboard_between,
  dashboard_data,
}
use hybrid_tls_lab.Analytics.{has_mode}
use hybrid_tls_lab.Analytics.Counts.{no_p256, summarize_counts}

-- The aggregate of a row is the number of measurements of its run.
abbrev counts_run : Database → RunRow → Bool
counts_run db r = r.samples == count_if (of_run r.id) db.measurements

all_count :
    (db : Database) (rs : List Run)
    → count_if (counts_run db) (map (run_row db) rs) ≡ length (map (run_row db) rs)
unfolding run_row
all_count db [] = refl
all_count db (r ∷ rs) = ground (arith, all_count db rs)

head_counts :
    (p : RunRow → Bool) (xs : List RunRow) {r : RunRow} {rs : List RunRow}
    → count_if p xs ≡ length xs
    → take 20 xs ≡ r ∷ rs
    → p r ≡ true
head_counts p [] h e = cc
head_counts p (x ∷ xs) {r} {rs} h e =
    let same : x ≡ r = head-eq_of_cons-eq e in
    let holds : p x ≡ true = ground (arith, count_if-le-length p xs) in rw same at holds

All-keep :
    (p : Measurement → Bool) (P : Measurement → Type 0) (ms : List Measurement)
    → All P ms
    → All P (keep p ms)
All-keep p P [] h = tt
All-keep p P (m ∷ ms) h = elim (Bool-cases (p m)) [
  | inl e ↦ rw e (h.0, All-keep p P ms h.1)
  | inr e ↦ rw e (All-keep p P ms h.1)
]

length-take : {A : Type 0} (n : ℕ) (xs : List A) → length (take n xs) ≤ n
length-take zero xs = omega arith
length-take (suc n) [] = omega arith
length-take (suc n) (x ∷ xs) = omega (arith, length-take n xs)

module _ (by_started : List RunRow → List RunRow) (by_created : List Measurement → List Measurement)
    (started_perm : (rs : List RunRow) → Perm (by_started rs) rs)
    (created_perm : (ms : List Measurement) → Perm (by_created ms) ms) where
  -- The dashboard with no run chosen, whatever is written between its two reads.
  pub dashboard_between-first_run :
      (first second : Database) {r : RunRow} {rs : List RunRow}
      → IsValid second
      → length second.measurements ≤ 2 ^ 46
      → runs by_started 20 first ≡ r ∷ rs
      → is_empty r.id ≡ false
      → (d : DashboardData) × (dashboard_between by_started by_created none first second ≡ some d)
        × (d.selected_run ≡ some r.id)
        × (d.summary.classical.samples + d.summary.hybrid.samples
            ≡ count_if (of_run r.id) second.measurements)
        × (d.summary.hybrid_p256.samples ≡ 0)
        × (length d.recent ≤ 40)
        × (r.samples ≡ count_if (of_run r.id) first.measurements)
  unfolding dashboard_between dashboard_rows measurements runs
  dashboard_between-first_run first second {r} {rs} v short listed named =
      let ms = keep (of_run r.id) second.measurements in
      let rows = by_created ms in
      let kept = length-keep (of_run r.id) second.measurements in
      let few = count_if-le-length (of_run r.id) second.measurements in
      let same = length-Perm (created_perm ms) in
      let (s, found, nc, nh, np) = summarize_counts rows (omega arith) in
      let (no_p, all) = no_p256 ms (All-keep (of_run r.id) _ second.measurements v.has_mode) in
      let c = count_if-Perm (has_mode classical) (created_perm ms) in
      let h = count_if-Perm (has_mode hybrid) (created_perm ms) in
      let p = count_if-Perm (has_mode hybrid_p256) (created_perm ms) in
      let listing = map (run_row first) first.benchmark_runs in
      let counted : counts_run first r ≡ true =
        head_counts (counts_run first) (by_started listing)
          (omega (
            arith,
            count_if-Perm (counts_run first) (started_perm listing),
            length-Perm (started_perm listing),
            all_count first first.benchmark_runs,
          ))
          listed in
      let samples : r.samples ≡ count_if (of_run r.id) first.measurements = ground arith in
      (
        record { selected_run = some r.id; runs = r ∷ rs; summary = s; recent = take 40 rows },
        rw (listed, named, found),
        refl,
        omega arith,
        omega arith,
        length-take 40 rows,
        samples,
      )

  -- For any two orders of rows that rearrange them: in a valid database of up to 2 ^ 46
  -- measurements that lists at least one run, whose id is not empty, the dashboard with no run
  -- chosen selects the first run of the list; the summary's samples in the modes classical and
  -- hybrid add up to the number of samples listed for that run, there are none in the mode
  -- hybrid_p256, and at most 40 measurements are shown.
  pub dashboard_data-first_run :
      (db : Database) {r : RunRow} {rs : List RunRow}
      → IsValid db
      → length db.measurements ≤ 2 ^ 46
      → runs by_started 20 db ≡ r ∷ rs
      → is_empty r.id ≡ false
      → (d : DashboardData) × (dashboard_data by_started by_created none db ≡ some d)
        × (d.selected_run ≡ some r.id)
        × (d.summary.classical.samples + d.summary.hybrid.samples ≡ r.samples)
        × (d.summary.hybrid_p256.samples ≡ 0)
        × (length d.recent ≤ 40)
  unfolding dashboard_data
  dashboard_data-first_run db v short listed named =
      let (d, shown, selected, counted, none_p256, few, samples) =
        dashboard_between-first_run db db v short listed named in
      (d, shown, selected, counted ∙ sym samples, none_p256, few)

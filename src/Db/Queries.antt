-- ===== src/Db/Queries.antt =====
-- dashboard/app/db.py: the queries. SQL leaves the order of rows with equal keys open, so the two
-- ORDER BY clauses are parameters.
use hybrid_tls_lab.Prelude.{
  if◌then◌else◌, ℕ, Bool, true, ◌&&◌, not, Option, none, some, List, [], ◌∷◌, map, keep, count_if,
  take, ◌>>=◌,
}
use hybrid_tls_lab.Prelude.Text.{Text, text_eq, is_empty}
use hybrid_tls_lab.Db.{Run, Measurement, Database}
use hybrid_tls_lab.Analytics.{Summary, summarize}

-- A run with the two aggregates of the join.
pub record RunRow : Type 0 where
  pub run : Run
  pub open run use *
  pub samples : ℕ
  pub successes : ℕ

abbrev pub of_run : Text → Measurement → Bool
of_run id m = text_eq m.run_id id

-- LEFT JOIN and GROUP BY: a run without measurements counts none, and its sum is 0.
unfoldable pub run_row : Database → Run → RunRow
run_row db r = record {
  run = r;
  samples = count_if (of_run r.id) db.measurements;
  successes = count_if (λ m. of_run r.id m && m.success) db.measurements;
}

-- `if run_id` of an optional text
abbrev pub is_given : Option Text → Bool
is_given none = not true
is_given (some id) = not (is_empty id)

abbrev pub limit_to {ℓ} : {A : Type ℓ} → Option ℕ → List A → List A
limit_to none rows = rows
limit_to (some n) rows = take n rows

abbrev pub where_run : Option Text → List Measurement → List Measurement
where_run none rows = rows
where_run (some id) rows = if is_empty id then rows else keep (of_run id) rows

pub record DashboardData : Type 0 where
  pub selected_run : Option Text
  pub runs : List RunRow
  pub summary : Summary
  pub recent : List Measurement

-- `available_runs[0]["id"]` where no run is asked for
abbrev pub select_run : Option Text → List RunRow → Option Text
select_run (some id) available = some id
select_run none [] = none
select_run none (r ∷ rs) = some r.id

module _ (by_started : List RunRow → List RunRow) where
  unfoldable pub runs : ℕ → Database → List RunRow
  runs limit db = take limit (by_started (map (run_row db) db.benchmark_runs))

module _ (by_created : List Measurement → List Measurement) where
  unfoldable pub measurements : Option Text → Option ℕ → Database → List Measurement
  measurements run_id limit db = limit_to limit (by_created (where_run run_id db.measurements))

  unfoldable pub dashboard_rows : Option Text → Database → List Measurement
  dashboard_rows selected db = if is_given selected then measurements selected none db else []

module _ (by_started : List RunRow → List RunRow)
    (by_created : List Measurement → List Measurement) where
  -- `dashboard_data` reads twice, each time on a connection of its own: the runs from `first`, and
  -- the measurements from `second`. The outer none is that of `summarize`.
  unfoldable pub dashboard_between : Option Text → (first second : Database) → Option DashboardData
  dashboard_between run_id first second =
      let available = runs by_started 20 first in
      let selected = select_run run_id available in
      let rows = dashboard_rows by_created selected second in
      do
        s ← summarize rows
        some (record {
          selected_run = selected;
          runs = available;
          summary = s;
          recent = take 40 rows;
        })

  -- Where nothing is written between the two.
  unfoldable pub dashboard_data : Option Text → Database → Option DashboardData
  dashboard_data run_id db = dashboard_between run_id db db

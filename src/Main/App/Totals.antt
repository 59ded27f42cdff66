-- ===== src/Main/App/Totals.antt =====
-- What the pages are made of can be had: the certificates, the targets, and the dashboard of a run.
use mathlib.Core.List.{Perm}
use hybrid_tls_lab.Prelude.{
  ◌≤◌, ◌^◌, ◌≡◌, refl, inl, inr, arith, true, Option, none, some, List, [], ◌∷◌, All, length, map,
  Bool-cases, length-keep, count_if-le-length, is_some,
}
use hybrid_tls_lab.Prelude.Perm.{length-Perm}
use hybrid_tls_lab.Prelude.Text.{Text, is_empty}
use hybrid_tls_lab.Tprm.{CsvRow}
use hybrid_tls_lab.Tprm.Tiers.{IsComplete, load_vendors_total}
use hybrid_tls_lab.Tprm.File.{read_vendors}
use hybrid_tls_lab.Qvi.{Target, target_of, load_targets}
use hybrid_tls_lab.Score.Certs.{
  ScanItem, object, refused, Results, absent, not_iterable, items, ScanFile, missing, unreadable,
  mapping, not_mapping, Cache, add_scan, add_scans, add_results, no_scans, fill, certs,
}
use hybrid_tls_lab.Db.{Measurement}
use hybrid_tls_lab.Db.Queries.{
  of_run, where_run, is_given, measurements, dashboard_rows, dashboard_data, dashboard_between,
  runs, select_run,
}
use hybrid_tls_lab.Analytics.Counts.{summarize_counts}
use hybrid_tls_lab.Main.App.{Installation, State}
use hybrid_tls_lab.Main.App.Routes.{page_context}

-- No item is refused.
abbrev IsObject : ScanItem → Type 0
IsObject (object rec) = Unit
IsObject refused = ⊥

abbrev HasObjects : Results → Type 0
HasObjects absent = Unit
HasObjects not_iterable = ⊥
HasObjects (items recs) = All IsObject recs

-- A scan file is absent or not JSON, or its document is an object whose results, if it has any, are
-- a list of objects.
abbrev pub IsScan : ScanFile → Type 0
IsScan missing = Unit
IsScan unreadable = Unit
IsScan (mapping results) = HasObjects results
IsScan not_mapping = ⊥

add_scans_total :
    (cache : Cache) (recs : List ScanItem) → All IsObject recs → (add_scans cache recs).0 ≡ true
unfolding add_scans
add_scans_total cache [] h = refl
add_scans_total cache (refused ∷ recs) h = absurd h.0
add_scans_total cache (object rec ∷ recs) h = add_scans_total (add_scan cache rec) recs h.1

add_results_total :
    (cache : Cache) (results : Results) → HasObjects results → (add_results cache results).0 ≡ true
unfolding add_results
add_results_total cache absent h = refl
add_results_total cache not_iterable h = absurd h
add_results_total cache (items recs) h = add_scans_total cache recs h

fill_total :
    (cache : Cache) (files : List ScanFile)
    → All IsScan files
    → (found : Cache) × ((fill cache files).0 ≡ some found)
unfolding fill
fill_total cache [] h = (cache, refl)
fill_total cache (missing ∷ files) h = fill_total cache files h.1
fill_total cache (unreadable ∷ files) h = fill_total cache files h.1
fill_total cache (not_mapping ∷ files) h = absurd h.0
fill_total cache (mapping results ∷ files) h =
    let filled = (add_results cache results).1 in
    elim (Bool-cases (no_scans filled)) [
      | inl e ↦ rw (add_results_total cache results h.0, e) (fill_total filled files h.1)
      | inr e ↦ rw (add_results_total cache results h.0, e) (filled, refl)
    ]

pub certs_total :
    (files : List ScanFile) (cache : Option Cache)
    → All IsScan files
    → (found : Cache) × ((certs files cache).0 ≡ some found)
unfolding certs
certs_total files (some cache) h = (cache, refl)
certs_total files none h = fill_total [] files h

length-where_run :
    (run_id : Option Text) (ms : List Measurement) → length (where_run run_id ms) ≤ length ms
length-where_run none ms = omega arith
length-where_run (some id) ms = elim (Bool-cases (is_empty id)) [
  | inl e ↦ rw e (omega arith)
  | inr e ↦ rw e (omega (arith, length-keep (of_run id) ms, count_if-le-length (of_run id) ms))
]

pub of_is_some : {A : Type 0} {o : Option A} → is_some o ≡ true → (a : A) × (o ≡ some a)
of_is_some {o = none} h = cc
of_is_some {o = some a} h = (a, refl)

pub targets_total :
    (csv : List CsvRow) → All IsComplete csv → (ts : List Target) × (load_targets csv ≡ some ts)
unfolding load_targets
targets_total csv complete =
    let (vs, loaded, _, _) = load_vendors_total csv complete in (map target_of vs, rw loaded)

module _ (env : Installation) (st : State)
    (created_perm : (ms : List Measurement) → Perm (env.by_created ms) ms)
    (few : length st.repository.measurements ≤ 2 ^ 46) where
  few_measurements :
      (run_id : Option Text)
      → length (measurements env.by_created run_id none st.repository) ≤ 2 ^ 46
  unfolding measurements
  few_measurements run_id =
      let chosen = where_run run_id st.repository.measurements in
      omega (
        arith,
        length-Perm (created_perm chosen),
        length-where_run run_id st.repository.measurements,
        few,
      )

  few_rows :
      (selected : Option Text)
      → length (dashboard_rows env.by_created selected st.repository) ≤ 2 ^ 46
  unfolding dashboard_rows
  few_rows selected = elim (Bool-cases (is_given selected)) [
    | inl e ↦ rw e (few_measurements selected)
    | inr e ↦ rw e (omega arith)
  ]

  pub dashboard_data_total :
      (run_id : Option Text)
      → is_some (dashboard_data env.by_started env.by_created run_id st.repository) ≡ true
  unfolding dashboard_data dashboard_between
  dashboard_data_total run_id =
      let selected = select_run run_id (runs env.by_started 20 st.repository) in
      let (s, summarised, _, _, _) = summarize_counts _ (few_rows selected) in rw summarised refl

  module _ (csv : List CsvRow) (readable : read_vendors env.vendors_csv ≡ some csv)
      (complete : All IsComplete csv) where
    pub page_context_total :
        (run_id : Option Text) (nav : Text)
        → is_some (page_context env st.repository run_id nav) ≡ true
    unfolding page_context
    page_context_total run_id nav =
        let (ts, loaded) = targets_total csv complete in
        let (d, shown) = of_is_some (dashboard_data_total run_id) in
        rw (readable, loaded, shown) refl

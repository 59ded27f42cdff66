-- ===== src/Main/Pages.antt =====
-- What the pages show of the rows that were loaded.
use mathlib.Core.List.{Perm, Memᴰ}
use hybrid_tls_lab.Prelude.{
  ℕ, ◌+◌, ◌≡◌, refl, ap, inl, inr, arith, Bool, true, false, Option, none, some, List, [], ◌∷◌,
  length, keep, count_if, All, first_where, Bool-cases, length-keep,
}
use hybrid_tls_lab.Prelude.Sort.{
  IsDescending, sort_desc, sort_desc-perm, sort_desc-IsDescending, length-sort_desc,
  count_if-sort_desc,
}
use hybrid_tls_lab.Prelude.Text.{Text, text_eq, text_eq_iff, text_eq_refl}
use hybrid_tls_lab.Tprm.{CsvRow}
use hybrid_tls_lab.Qvi.{Target, load_targets}
use hybrid_tls_lab.Hndl.{
  HndlRow, ExposureRecord, status_unclassified, load_hndl_inputs, build_exposure,
}
use hybrid_tls_lab.Hndl.Records.{build_exposure_no_file, length-build_exposure}
use hybrid_tls_lab.Roadmap.{Roadmap, rank, build_roadmap}
use hybrid_tls_lab.Roadmap.Order.{unranked, build_roadmap_partition}
use hybrid_tls_lab.Cbom.{Document, build_cbom}
use hybrid_tls_lab.Score.{Scored, load_scored}
use hybrid_tls_lab.Score.Certs.{ScanFile, Cache}
use hybrid_tls_lab.Score.Summary.{score_summary, has_action}
use hybrid_tls_lab.Main.{
  ScorePage, by_ratio, view_rows, score_page, roadmap_page, respond, cbom_json,
}

-- The page of a view, for the rows that were loaded.
abbrev page_of : Bool → List Scored → ScorePage
page_of queue rows = record {
  targets = view_rows queue rows;
  s = score_summary (view_rows queue rows);
}

-- Where the rows load, both views of the score page show them, the queue by falling ratio, and the
-- two summaries agree on the number of rows, on each band, and on the counts of rows that are ready
-- for PQC, accept static RSA, or can be remediated.
pub score_page_views :
    (csv : List CsvRow) (hndl_rows : Option (List HndlRow)) (files : List ScanFile)
    (cache : Option Cache) {rows : List Scored}
    → (load_scored csv hndl_rows files cache).0 ≡ some rows
    → (p : ScorePage) × (q : ScorePage) × ((score_page false csv hndl_rows files cache).0 ≡ some p)
      × ((score_page true csv hndl_rows files cache).0 ≡ some q)
      × (p.targets ≡ rows)
      × Perm q.targets rows
      × IsDescending by_ratio q.targets
      × (q.s.n ≡ p.s.n)
      × (q.s.critical ≡ p.s.critical)
      × (q.s.high ≡ p.s.high)
      × (q.s.moderate ≡ p.s.moderate)
      × (q.s.pq_ready ≡ p.s.pq_ready)
      × (q.s.static_rsa ≡ p.s.static_rsa)
      × (q.s.remediable ≡ p.s.remediable)
unfolding score_page score_summary
score_page_views csv hndl_rows files cache {rows} loaded = (
  page_of false rows,
  page_of true rows,
  rw loaded,
  rw loaded,
  refl,
  sort_desc-perm by_ratio rows,
  sort_desc-IsDescending by_ratio rows,
  length-sort_desc by_ratio rows,
  count_if-sort_desc by_ratio _ rows,
  count_if-sort_desc by_ratio _ rows,
  count_if-sort_desc by_ratio _ rows,
  count_if-sort_desc by_ratio _ rows,
  count_if-sort_desc by_ratio _ rows,
  omega (
    arith,
    length-keep has_action (sort_desc by_ratio rows),
    length-keep has_action rows,
    count_if-sort_desc by_ratio has_action rows,
  ),
)

first_where_found :
    (p : Target → Bool) (xs : List Target) {x : Target}
    → Memᴰ x xs
    → p x ≡ true
    → (y : Target) × (first_where p xs ≡ some y) × (p y ≡ true)
first_where_found p [] m h = elim m [ ]
first_where_found p (x ∷ xs) (Memᴰ.head e) h = (x, rw (← e, h), rw (← e) h)
first_where_found p (x ∷ xs) (Memᴰ.tail m) h = elim (Bool-cases (p x)) [
  | inl e ↦ (x, rw e, e)
  | inr e ↦ let (y, found, holds) = first_where_found p xs m h in (y, rw (e, found), holds)
]

-- Every target that the CSV file gives can be asked for by its name, and the document that comes
-- back bears that name.
pub cbom_json-target :
    (uuid now : Text) (csv : List CsvRow) {ts : List Target} {t : Target}
    → load_targets csv ≡ some ts
    → Memᴰ t ts
    → (d : Document) × (cbom_json uuid now csv t.target ≡ some (some d)) × (d.name ≡ t.target)
unfolding cbom_json build_cbom
cbom_json-target uuid now csv {ts} {t} loaded listed =
    let (y, found, same) =
      first_where_found (λ x. text_eq x.target t.target) ts listed (text_eq_refl t.target) in
    (
      build_cbom uuid now y,
      rw loaded (ap (λ o. some (respond uuid now o)) found),
      (text_eq_iff y.target t.target).0 same,
    )

unclassified_waits :
    (rs : List ExposureRecord)
    → All (λ r. r.exposure_status ≡ status_unclassified) rs
    → count_if unranked rs ≡ length rs
unfolding rank
unclassified_waits [] h = refl
unclassified_waits (r ∷ rs) h = rw (h.0) (omega (arith, unclassified_waits rs h.1))

-- Where the targets load, the roadmap has each of them once, ranked or waiting for input; and with
-- no file of inputs it ranks none.
pub roadmap_page_total :
    (year : ℕ) (csv : List CsvRow) (hndl_rows : Option (List HndlRow)) {ts : List Target}
    → load_targets csv ≡ some ts
    → (m : Roadmap) × (roadmap_page year csv hndl_rows ≡ some m)
      × (length m.prioritized + length m.needs_input ≡ length ts)
      × (hndl_rows ≡ none → length m.prioritized ≡ 0)
unfolding roadmap_page
roadmap_page_total year csv hndl_rows {ts} loaded =
    let rs = build_exposure year ts (load_hndl_inputs hndl_rows) in
    let (_, _, _, waiting, all) = build_roadmap_partition rs in
    let same = length-build_exposure year (load_hndl_inputs hndl_rows) ts in
    (
      build_roadmap rs,
      rw loaded,
      omega arith,
      (λ e.
          let unclassified : All (λ r. r.exposure_status ≡ status_unclassified) rs =
            rw e (build_exposure_no_file year ts) in
          let waits = unclassified_waits rs unclassified in
          let kept = length-keep unranked rs in
          let needs : length (build_roadmap rs).needs_input ≡ length (keep unranked rs) =
            ap length waiting in
          omega arith),
    )

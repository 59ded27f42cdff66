-- ===== src/Main/App/ReadBack.antt =====
-- What a client reports, read back from the export.
use mathlib.Core.List.{Perm}
use hybrid_tls_lab.Prelude.{
  ℕ, ◌≡◌, refl, ap, ◌∙◌, arith, Bool, true, false, ◌&&◌, ◌==◌, Option, none, some, List, [], ◌∷◌,
  map, count_if,
}
use hybrid_tls_lab.Prelude.Dict.{Dict}
use hybrid_tls_lab.Prelude.Perm.{count_if-Perm}
use hybrid_tls_lab.Prelude.Text.{Text, text_eq, text_eq_refl, or_empty}
use hybrid_tls_lab.Prelude.Csv.{read_dicts}
use hybrid_tls_lab.Schemas.{ClientMeasurement, accepts_client}
use hybrid_tls_lab.Db.Table.{merged, find-key, count_if-find}
use hybrid_tls_lab.Db.{Measurement, Database, sample_key, client_row, client_update, record_client}
use hybrid_tls_lab.Db.Integrity.{IsValid, record_client-IsValid}
use hybrid_tls_lab.Db.Merge.{sample_of, after_client}
use hybrid_tls_lab.Db.History.{client, apply}
use hybrid_tls_lab.Db.Queries.{measurements}
use hybrid_tls_lab.Db.Export.{csv_export}
use hybrid_tls_lab.Db.Export.RoundTrip.{Exported, exported, parse, csv_export-parse}
use hybrid_tls_lab.Main.App.{Installation, at_start, Request, post, results_csv, csv_text}
use hybrid_tls_lab.Main.App.Routes.{accepts, serve, serve_all}
use hybrid_tls_lab.Main.App.Writes.{
  storable, mode_allowed-mode_text, handle_write_outcome, serve_all-promises,
}

abbrev same_number : Option ℕ → Option ℕ → Bool
same_number none none = true
same_number (some m) (some n) = m == n
same_number _ _ = false

abbrev same_bool : Bool → Bool → Bool
same_bool true b = b
same_bool false true = false
same_bool false false = true

abbrev pub has_id : Text → Exported → Bool
has_id id e = text_eq e.sample_id id

-- The row has the id of the report, all its figures, its verdict and its error.
abbrev pub shows : ClientMeasurement → Exported → Bool
shows c e =
    has_id c.sample_id e
    && same_number e.client_tcp_us c.client_tcp_us
    && same_number e.client_handshake_us c.client_handshake_us
    && same_number e.client_ttfb_us c.client_ttfb_us
    && same_number e.client_total_us c.client_total_us
    && same_number e.bytes_sent c.bytes_sent
    && same_number e.bytes_received c.bytes_received
    && same_bool e.success c.success
    && text_eq e.error (or_empty c.error)

shows-has_id :
    (c : ClientMeasurement) (e : Exported) → shows c e ≡ true → has_id c.sample_id e ≡ true
shows-has_id c e h = ground arith

same_number_refl : (o : Option ℕ) → same_number o o ≡ true
same_number_refl none = refl
same_number_refl (some n) = ground arith

same_bool_refl : (b : Bool) → same_bool b b ≡ true
same_bool_refl true = refl
same_bool_refl false = refl

-- A row with what the report says put in.
abbrev reported_in : ClientMeasurement → Exported → Exported
reported_in c e = record e {
  sample_id = c.sample_id;
  client_tcp_us = c.client_tcp_us;
  client_handshake_us = c.client_handshake_us;
  client_ttfb_us = c.client_ttfb_us;
  client_total_us = c.client_total_us;
  bytes_sent = c.bytes_sent;
  bytes_received = c.bytes_received;
  success = c.success;
  error = or_empty c.error;
}

shows-reported_in : (c : ClientMeasurement) (e : Exported) → shows c (reported_in c e) ≡ true
shows-reported_in c e = rw (
  text_eq_refl c.sample_id,
  same_number_refl c.client_tcp_us,
  same_number_refl c.client_handshake_us,
  same_number_refl c.client_ttfb_us,
  same_number_refl c.client_total_us,
  same_number_refl c.bytes_sent,
  same_number_refl c.bytes_received,
  same_bool_refl c.success,
  text_eq_refl (or_empty c.error),
)

shows-merged :
    (instant_text : ℕ → Text) (c : ClientMeasurement) (u : ℕ) (o : Option Measurement)
    → (merged sample_key (client_update c u) (client_row c u) o).sample_id ≡ c.sample_id
    → shows c (exported instant_text (merged sample_key (client_update c u) (client_row c u) o))
      ≡ true
shows-merged instant_text c u none h = shows-reported_in c (exported instant_text (client_row c u))
shows-merged instant_text c u (some m) h =
    rw h (shows-reported_in c (exported instant_text (client_update c u m)))

count_if-map :
    {A B : Type 0} (q : B → Bool) (f : A → B) (xs : List A)
    → count_if q (map f xs) ≡ count_if (λ x. q (f x)) xs
count_if-map q f [] = refl
count_if-map q f (x ∷ xs) = omega (arith, count_if-map q f xs)

module _ (env : Installation) (created_perm : (ms : List Measurement) → Perm (env.by_created ms) ms)
    (db : Database) (v : IsValid db) (c : ClientMeasurement) (t u : ℕ)
    (stored : storable (client c t u) ≡ true) where
  abbrev merged_row : Measurement
  merged_row = merged sample_key (client_update c u) (client_row c u) (sample_of c.sample_id db)

  abbrev left : Database
  left = (record_client c t u db).1

  found : sample_of c.sample_id left ≡ some merged_row
  found =
      after_client c t u db c.sample_id (sample_of c.sample_id db) (ground arith)
        (mode_allowed-mode_text c.mode ∙ ground arith) refl refl

  merged_row-sample_id : merged_row.sample_id ≡ c.sample_id
  merged_row-sample_id = find-key sample_key c.sample_id left.measurements found

  -- A test of the exported rows that only rows with the id pass, and that of the report.
  count_exported :
      (q : Exported → Bool)
      → ((e : Exported) → q e ≡ true → has_id c.sample_id e ≡ true)
      → q (exported env.instant_text merged_row) ≡ true
      → count_if q (map (exported env.instant_text) (measurements env.by_created none none left))
        ≡ 1
  unfolding measurements
  count_exported q only holds =
      let rows = left.measurements in
      count_if-map q (exported env.instant_text) (env.by_created rows)
      ∙ count_if-Perm (λ m. q (exported env.instant_text m)) (created_perm rows)
      ∙ count_if-find sample_key (λ m. q (exported env.instant_text m)) c.sample_id
          (λ m. only (exported env.instant_text m)) rows
          (record_client-IsValid c t u db v).samples_distinct found holds

-- A client report that passes its constraints and can be stored, sent after any requests to a new
-- installation, is answered by 201; and the results that are downloaded then are CSV that has
-- exactly one row with the id of the sample, which shows the report's figures, verdict and error,
-- whatever order the rows are in.
pub client_report-results_csv :
    (env : Installation)
    → ((ms : List Measurement) → Perm (env.by_created ms) ms)
    → (rs : List Request) (c : ClientMeasurement) (t u : ℕ) → accepts_client c ≡ true
    → storable (client c t u) ≡ true
    → let (response, st) = serve env (post (client c t u)) (serve_all env rs at_start) in
      (text : Text) × (ds : List (Dict (Option Text))) × (response.status ≡ 201)
      × ((serve env (results_csv none) st).0 ≡ record { status = 200; body = csv_text text })
      × (read_dicts text ≡ some ds)
      × (count_if (has_id c.sample_id) (map parse ds) ≡ 1)
      × (count_if (shows c) (map parse ds) ≡ 1)
unfolding serve accepts apply
client_report-results_csv env created_perm rs c t u accepted stored =
    let db = (serve_all env rs at_start).repository in
    let v = (serve_all-promises env rs).0 in
    let done = (handle_write_outcome (client c t u) db).2 accepted stored in
    let db' = (record_client c t u db).1 in
    let (ds, read, parsed) = csv_export-parse env.instant_text env.by_created none db' in
    let named = merged_row-sample_id env created_perm db v c t u stored in
    let count = count_exported env created_perm db v c t u stored in
    (
      csv_export env.instant_text env.by_created none db',
      ds,
      rw done refl,
      rw done refl,
      read,
      rw parsed (
          count (has_id c.sample_id) (λ e h. h)
            (ap (λ id. text_eq id c.sample_id) named ∙ text_eq_refl c.sample_id)),
      rw parsed (
          count (shows c) (shows-has_id c)
            (shows-merged env.instant_text c u (sample_of c.sample_id db) named)),
    )

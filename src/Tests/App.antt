-- ===== src/Tests/App.antt =====
-- A session with the application: the requests of a small benchmark, one of them refused, and pages
-- in between.
use hybrid_tls_lab.Prelude.{
  ◌≡◌, refl, true, false, All, none, some, List, [], ◌∷◌, count_if, Option, map,
}
use hybrid_tls_lab.Prelude.Sort.{sort_desc, sort_desc-perm}
use hybrid_tls_lab.Prelude.Text.{Text, codes}
use hybrid_tls_lab.Prelude.Text.Decimal.{str_of}
use hybrid_tls_lab.Schemas.{is_id, accepts_client, accepts_server}
use hybrid_tls_lab.Tprm.File.Written.{file_of}
use hybrid_tls_lab.Db.Integrity.{IsValid}
use hybrid_tls_lab.Db.History.{create, complete, server, client, initial, apply}
use hybrid_tls_lab.Db.Store.{view, promises, nothing}
use hybrid_tls_lab.Main.App.{
  Installation, at_start, overview, Request, page, score, post, results_csv, server_error, json_ok,
  no_body, csv_text,
}
use hybrid_tls_lab.Main.App.Routes.{accepts, handle_write, serve, serve_all}
use hybrid_tls_lab.Main.App.Writes.{written, storable, handle_write_outcome, serve_all-promises}
use hybrid_tls_lab.Main.App.Limits.{within_limits, serve_all-within_limits}
use hybrid_tls_lab.Main.App.ReadBack.{has_id, shows, client_report-results_csv}
use hybrid_tls_lab.Prelude.Dict.{Dict}
use hybrid_tls_lab.Prelude.Csv.{read_dicts}
use hybrid_tls_lab.Hndl.{HndlRow}
use hybrid_tls_lab.Db.Export.RoundTrip.{parse}
use hybrid_tls_lab.Score.Certs.{mapping, missing, absent}
use hybrid_tls_lab.Tests.Files.{written_vendors}
use hybrid_tls_lab.Tests.Storage.{server_report, client_report, p256_report, opened}

abbrev pub installation : Installation
installation = record {
  vendors_csv = file_of written_vendors;
  hndl_inputs_csv = none;
  hndl_inputs_10y_csv = some (codes "target,data_sensitivity\r\nShop,pii\r\n");
  scan_files = missing ∷ mapping absent ∷ [];
  year = 2026;
  by_started = sort_desc (λ r. r.started_at);
  by_created = sort_desc (λ m. m.created_at);
  instant_text = str_of;
}

abbrev session : List Request
session =
    post (create opened 0)
    ∷ page overview none
    ∷ post (server server_report 1 2)
    ∷ score none (some (codes "queue"))
    ∷ post (client client_report 3 4)
    ∷ post (server p256_report 5 6)
    ∷ post (complete (codes "run-1") 7 8)
    ∷ results_csv (some (codes "run-1"))
    ∷ []

serve_all-promises_example :
    IsValid (serve_all installation session at_start).repository
    × (view (serve_all installation session at_start).repository
        ≡ promises (written session) nothing)
serve_all-promises_example = serve_all-promises installation session

serve_all-within_limits_example :
    All
      (λ m. within_limits m ≡ true)
      (serve_all installation session at_start).repository.measurements
serve_all-within_limits_example = serve_all-within_limits installation session

-- A report in the mode hybrid_p256 passes the constraints, and is answered by 500.
refused : handle_write (server p256_report 5 6) initial ≡ (server_error, initial)
unfolding accepts accepts_server is_id
refused = (handle_write_outcome (server p256_report 5 6) initial).1 refl refl

handle_write_outcome_example :
    (accepts (create opened 0) ≡ false
      → handle_write (create opened 0) initial ≡ (record { status = 422; body = no_body }, initial))
    × (accepts (create opened 0) ≡ true
        → storable (create opened 0) ≡ false
        → handle_write (create opened 0) initial ≡ (server_error, initial))
    × (accepts (create opened 0) ≡ true
        → storable (create opened 0) ≡ true
        → handle_write (create opened 0) initial ≡ (
          record { status = 201; body = json_ok (codes "run-1") },
          (apply (create opened 0) initial).1,
        ))
handle_write_outcome_example = handle_write_outcome (create opened 0) initial

-- The rows of the second inputs file.
abbrev ten_year_rows : List HndlRow
ten_year_rows =
    record {
      target = some (codes "Shop");
      data_sensitivity = some (codes "pii");
      retention_years = none;
      remediation_cost = none;
    }
    ∷ []

client_report-results_csv_example :
    let (response, st) =
      serve installation
        (post (client client_report 9 10))
        (serve_all installation session at_start) in
    (text : Text) × (ds : List (Dict (Option Text))) × (response.status ≡ 201)
    × ((serve installation (results_csv none) st).0 ≡ record { status = 200; body = csv_text text })
    × (read_dicts text ≡ some ds)
    × (count_if (has_id (codes "s-1")) (map parse ds) ≡ 1)
    × (count_if (shows client_report) (map parse ds) ≡ 1)
client_report-results_csv_example =
    client_report-results_csv installation (sort_desc-perm (λ m. m.created_at)) session
      client_report 9 10 (unfold accepts_client is_id in refl) refl

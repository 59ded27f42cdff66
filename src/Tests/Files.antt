-- ===== src/Tests/Files.antt =====
-- The files that are read and written: a vendors' file with fields that have to be quoted, and the
-- export of a short history.
use hybrid_tls_lab.Prelude.{
  arith, ltb, ◌≡◌, refl, Option, none, some, List, [], ◌∷◌, map, if◌then◌else◌,
}
use hybrid_tls_lab.Prelude.Dict.{Dict}
use hybrid_tls_lab.Prelude.Sort.{sort_desc}
use hybrid_tls_lab.Prelude.Text.{Text, codes, text_eq}
use hybrid_tls_lab.Prelude.Text.Decimal.{str_of}
use hybrid_tls_lab.Prelude.Csv.{
  symbols, run, step, step_char, step_start, step_eol, finish, read_rows, read_dicts,
}
use hybrid_tls_lab.Tprm.{Vendor}
use hybrid_tls_lab.Tprm.File.{load_vendors_file}
use hybrid_tls_lab.Tprm.File.Outcome.{all_loadable, IsOutcome, load_vendors_file-IsOutcome}
use hybrid_tls_lab.Tprm.File.Written.{Written, file_of, read_vendors-file_of}
use hybrid_tls_lab.GenTprmRows.Program.{finished, usage, main}
use hybrid_tls_lab.GenTprmRows.Program.Shown.{table, main-load_vendors_file}
use hybrid_tls_lab.Db.{Measurement}
use hybrid_tls_lab.Db.History.{initial, replay}
use hybrid_tls_lab.Db.Queries.{measurements}
use hybrid_tls_lab.Db.Export.{csv_export}
use hybrid_tls_lab.Db.Export.RoundTrip.{exported, parse, csv_export-parse}
use hybrid_tls_lab.Db.Instant.{Moment, pad, iso_text, text_ltb, instant, text_ltb-iso_text}
use hybrid_tls_lab.Db.Store.{nothing, view, promises, promised, outcomes}
use hybrid_tls_lab.Db.Refinement.{replay-promises}
use hybrid_tls_lab.Tests.Storage.{writes}

-- A quoted comma, a doubled quote, and a last line without a line break.
reads_quoted :
    read_rows (codes "a,\"b, \"\"c\"\"\"\r\n\nd")
    ≡ some ((codes "a" ∷ codes "b, \"c\"" ∷ []) ∷ [] ∷ (codes "d" ∷ []) ∷ [])
unfolding symbols run step step_char step_start step_eol finish read_rows
reads_quoted = refl

abbrev written_bank : Written
written_bank = record {
  vendor = codes "Bank, \"first\"";
  tls13 = codes "Yes";
  pqc = codes "Yes";
  pqc_provider = codes "Amazon";
  static_rsa = codes "No";
  weak_cipher = codes "No";
  curves = codes "x25519, secp256r1";
}

abbrev written_shop : Written
written_shop = record {
  vendor = codes "Shop";
  tls13 = codes "No";
  pqc = codes "No";
  pqc_provider = [];
  static_rsa = codes "Yes";
  weak_cipher = codes "";
  curves = codes "secp256r1";
}

abbrev pub written_vendors : List Written
written_vendors = written_bank ∷ written_shop ∷ []

abbrev open_file : Text → Option Text
open_file path = if text_eq path (codes "vendors.csv") then some (file_of written_vendors) else none

-- Without its argument the program prints nothing but its usage.
no_argument :
    main open_file (codes "gen_tprm_rows.py" ∷ []) ≡ record { stdout = []; ending = usage }
unfolding main
no_argument = refl

-- A file without the column of the provider, and with two of the columns exchanged.
abbrev exchanged : Text
exchanged = codes "vendor,pqc,tls13,static_rsa,weak_cipher,curves\r\nBank,No,Yes,No,No,x25519\r\n"

load_vendors_file-IsOutcome_example :
    (ds : List (Dict (Option Text))) × (read_dicts exchanged ≡ some ds)
    × IsOutcome ds (all_loadable ds) (load_vendors_file exchanged)
load_vendors_file-IsOutcome_example = load_vendors_file-IsOutcome exchanged

main-load_vendors_file_example :
    (vs : List Vendor) × (load_vendors_file (file_of written_vendors) ≡ some vs)
    × (main open_file (codes "gen_tprm_rows.py" ∷ codes "vendors.csv" ∷ [])
        ≡ record { stdout = table vs; ending = finished })
main-load_vendors_file_example =
    main-load_vendors_file open_file (codes "gen_tprm_rows.py") (codes "vendors.csv")
      {text = file_of written_vendors} written_vendors refl (read_vendors-file_of written_vendors)

abbrev by_created : List Measurement → List Measurement
by_created = sort_desc (λ m. m.created_at)

csv_export-parse_example :
    (ds : List (Dict (Option Text))) × (read_dicts
        (csv_export str_of by_created (some (codes "run-1")) (replay writes initial))
      ≡ some ds)
    × (map parse ds
        ≡ map
            (exported str_of)
            (measurements by_created (some (codes "run-1")) none (replay writes initial)))
csv_export-parse_example =
    csv_export-parse str_of by_created (some (codes "run-1")) (replay writes initial)

replay-promises_example :
    (outcomes writes initial ≡ promised writes nothing)
    × (view (replay writes initial) ≡ promises writes nothing)
replay-promises_example = replay-promises writes

abbrev new_year : Moment
new_year = record {
  year = 2026;
  month = 1;
  day = 1;
  hour = 0;
  minute = 0;
  second = 0;
  millisecond = 0;
}

abbrev just_before : Moment
just_before = record {
  year = 2025;
  month = 12;
  day = 31;
  hour = 23;
  minute = 59;
  second = 59;
  millisecond = 999;
}

iso_text_of_new_year : iso_text new_year ≡ codes "2026-01-01T00:00:00.000+00:00"
unfolding iso_text pad
iso_text_of_new_year = refl

text_ltb-iso_text_example :
    text_ltb (iso_text just_before) (iso_text new_year)
    ≡ ltb (instant just_before) (instant new_year)
text_ltb-iso_text_example =
    text_ltb-iso_text just_before new_year
      (record {
        year = omega arith;
        month = omega arith;
        day = omega arith;
        hour = omega arith;
        minute = omega arith;
        second = omega arith;
        millisecond = omega arith;
      })
      (record {
        year = omega arith;
        month = omega arith;
        day = omega arith;
        hour = omega arith;
        minute = omega arith;
        second = omega arith;
        millisecond = omega arith;
      })

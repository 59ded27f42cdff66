-- ===== src/Tprm/File.antt =====
-- dashboard/app/tprm.py: `load_vendors` on the text of the CSV file. None is an exception: a KeyError
-- of a column that the header lacks, or what `load_vendors` raises on the rows.
pub mod Written
pub mod Outcome
use hybrid_tls_lab.Prelude.{Option, none, some, List, [], ◌∷◌, ◌>>=◌}
use hybrid_tls_lab.Prelude.Dict.{Dict, lookup}
use hybrid_tls_lab.Prelude.Text.{Text, codes}
use hybrid_tls_lab.Prelude.Csv.{read_dicts}
use hybrid_tls_lab.Tprm.{CsvRow, Vendor, load_vendors}

-- `row.get("pqc_provider", "")`
abbrev pub provider_or_empty : Option (Option Text) → Option Text
provider_or_empty none = some []
provider_or_empty (some value) = value

-- What the program reads of the dict of a row.
unfoldable pub csv_row_of : Dict (Option Text) → Option CsvRow
csv_row_of row = do
  tls13 ← lookup (codes "tls13") row
  pqc ← lookup (codes "pqc") row
  static_rsa ← lookup (codes "static_rsa") row
  weak_cipher ← lookup (codes "weak_cipher") row
  vendor ← lookup (codes "vendor") row
  curves ← lookup (codes "curves") row
  some (record {
    vendor = vendor;
    tls13 = tls13;
    pqc = pqc;
    pqc_provider = provider_or_empty (lookup (codes "pqc_provider") row);
    static_rsa = static_rsa;
    weak_cipher = weak_cipher;
    curves = curves;
  })

unfoldable pub csv_rows_of : List (Dict (Option Text)) → Option (List CsvRow)
csv_rows_of [] = some []
csv_rows_of (d ∷ ds) =
    let rest = csv_rows_of ds in do row ← csv_row_of d; rows ← rest; some (row ∷ rows)

-- The rows of the file.
unfoldable pub read_vendors : Text → Option (List CsvRow)
read_vendors text = do ds ← read_dicts text; csv_rows_of ds

unfoldable pub load_vendors_file : Text → Option (List Vendor)
load_vendors_file text = do rows ← read_vendors text; load_vendors rows

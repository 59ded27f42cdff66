-- ===== src/Hndl/File.antt =====
-- dashboard/app/hndl.py: `load_hndl_inputs` on the text of the CSV file; none is a file that does not
-- exist.
use hybrid_tls_lab.Prelude.{
  ◌≡◌, refl, Bool, false, ◌||◌, if◌then◌else◌, Option, none, some, List, [], ◌∷◌, map, ◌>>=◌,
}
use hybrid_tls_lab.Prelude.Dict.{Dict, lookup, insert}
use hybrid_tls_lab.Prelude.Text.{Text, codes}
use hybrid_tls_lab.Prelude.Csv.{read_dicts, fill_row, dict_rows, write_rows}
use hybrid_tls_lab.Prelude.Csv.RoundTrip.{read_rows-write_rows}
use hybrid_tls_lab.Prelude.Csv.Total.{read_dicts_total}
use hybrid_tls_lab.Hndl.{HndlRow, HndlInput, raises, load_hndl_inputs}

-- `row.get(name)`: a column that the header lacks is None too.
abbrev pub get : Text → Dict (Option Text) → Option Text
get name row = do value ← lookup name row; value

unfoldable pub hndl_row_of : Dict (Option Text) → HndlRow
hndl_row_of row = record {
  target = get (codes "target") row;
  data_sensitivity = get (codes "data_sensitivity") row;
  retention_years = get (codes "retention_years") row;
  remediation_cost = get (codes "remediation_cost") row;
}

abbrev pub any_raises : List HndlRow → Bool
any_raises [] = false
any_raises (row ∷ rows) = raises row || any_raises rows

abbrev pub rows_or_raise : List HndlRow → Option (Option (List HndlRow))
rows_or_raise rows = if any_raises rows then none else some (some rows)

-- The rows of the file, or none where it does not exist; the outer none is an exception, of the
-- reader or of `int` on one of the rows.
unfoldable pub read_hndl_rows : Option Text → Option (Option (List HndlRow))
read_hndl_rows none = some none
read_hndl_rows (some text) = do ds ← read_dicts text; rows_or_raise (map hndl_row_of ds)

unfoldable pub load_hndl_inputs_file : Option Text → Option (Dict HndlInput)
load_hndl_inputs_file file = do rows ← read_hndl_rows file; some (load_hndl_inputs rows)

-- Whatever the file holds, its rows can be read, and there is an exception exactly if one raises.
pub read_hndl_rows_outcome :
    (text : Text) → (rows : List HndlRow) × (read_hndl_rows (some text) ≡ rows_or_raise rows)
unfolding read_hndl_rows
read_hndl_rows_outcome text =
    let (ds, read) = read_dicts_total text in (map hndl_row_of ds, rw read)

-- The fields of a target, as they stand in the file.
pub record Written : Type 0 where
  pub target : Text
  pub data_sensitivity : Text
  pub retention_years : Text
  pub remediation_cost : Text

abbrev pub header : List Text
header =
    codes "target"
    ∷ codes "data_sensitivity"
    ∷ codes "retention_years"
    ∷ codes "remediation_cost"
    ∷ []

abbrev pub fields : Written → List Text
fields w = w.target ∷ w.data_sensitivity ∷ w.retention_years ∷ w.remediation_cost ∷ []

abbrev pub row_of : Written → HndlRow
row_of w = record {
  target = some w.target;
  data_sensitivity = some w.data_sensitivity;
  retention_years = some w.retention_years;
  remediation_cost = some w.remediation_cost;
}

hndl_row_of-fields : (w : Written) → hndl_row_of (fill_row [] header (fields w)) ≡ row_of w
unfolding hndl_row_of fill_row insert lookup
hndl_row_of-fields w = refl

hndl_rows-fields :
    (ws : List Written) → map hndl_row_of (dict_rows header (map fields ws)) ≡ map row_of ws
unfolding dict_rows
hndl_rows-fields [] = refl
hndl_rows-fields (w ∷ ws) = rw (hndl_row_of-fields w, hndl_rows-fields ws)

-- A file with the four columns whose retentions do not raise loads as the rows of its fields.
pub load_hndl_inputs_file-written :
    (ws : List Written)
    → any_raises (map row_of ws) ≡ false
    → load_hndl_inputs_file (some (write_rows (header ∷ map fields ws)))
      ≡ some (load_hndl_inputs (some (map row_of ws)))
unfolding load_hndl_inputs_file read_hndl_rows read_dicts
load_hndl_inputs_file-written ws quiet =
    rw (read_rows-write_rows (header ∷ map fields ws), hndl_rows-fields ws, quiet)

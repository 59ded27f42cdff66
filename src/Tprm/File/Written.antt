-- ===== src/Tprm/File/Written.antt =====
-- A vendors' file that a CSV writer made, loaded again.
use hybrid_tls_lab.Prelude.{◌≡◌, refl, some, List, [], ◌∷◌, map}
use hybrid_tls_lab.Prelude.Dict.{lookup, insert}
use hybrid_tls_lab.Prelude.Text.{Text, codes}
use hybrid_tls_lab.Prelude.Csv.{read_dicts, fill_row, dict_rows, write_rows}
use hybrid_tls_lab.Prelude.Csv.RoundTrip.{read_rows-write_rows}
use hybrid_tls_lab.Tprm.{CsvRow, Vendor, vendor_of, load_row, load_vendors}
use hybrid_tls_lab.Tprm.File.{csv_row_of, csv_rows_of, read_vendors, load_vendors_file}

-- The fields of a vendor, as they stand in the file.
pub record Written : Type 0 where
  pub vendor : Text
  pub tls13 : Text
  pub pqc : Text
  pub pqc_provider : Text
  pub static_rsa : Text
  pub weak_cipher : Text
  pub curves : Text

abbrev pub header : List Text
header =
    codes "vendor"
    ∷ codes "tls13"
    ∷ codes "pqc"
    ∷ codes "pqc_provider"
    ∷ codes "static_rsa"
    ∷ codes "weak_cipher"
    ∷ codes "curves"
    ∷ []

abbrev pub fields : Written → List Text
fields w =
    w.vendor ∷ w.tls13 ∷ w.pqc ∷ w.pqc_provider ∷ w.static_rsa ∷ w.weak_cipher ∷ w.curves ∷ []

abbrev pub row_of : Written → CsvRow
row_of w = record {
  vendor = some w.vendor;
  tls13 = some w.tls13;
  pqc = some w.pqc;
  pqc_provider = some w.pqc_provider;
  static_rsa = some w.static_rsa;
  weak_cipher = some w.weak_cipher;
  curves = some w.curves;
}

abbrev pub vendor_from : Written → Vendor
vendor_from w = vendor_of (row_of w) w.vendor w.curves

-- The text of the file.
abbrev pub file_of : List Written → Text
file_of ws = write_rows (header ∷ map fields ws)

csv_row_of-fields : (w : Written) → csv_row_of (fill_row [] header (fields w)) ≡ some (row_of w)
unfolding csv_row_of fill_row insert lookup
csv_row_of-fields w = refl

csv_rows_of-fields :
    (ws : List Written) → csv_rows_of (dict_rows header (map fields ws)) ≡ some (map row_of ws)
unfolding csv_rows_of dict_rows
csv_rows_of-fields [] = refl
csv_rows_of-fields (w ∷ ws) = rw (csv_row_of-fields w, csv_rows_of-fields ws)

pub read_vendors-file_of : (ws : List Written) → read_vendors (file_of ws) ≡ some (map row_of ws)
unfolding read_vendors read_dicts
read_vendors-file_of ws = rw (read_rows-write_rows (header ∷ map fields ws)) (csv_rows_of-fields ws)

pub load_vendors-row_of :
    (ws : List Written) → load_vendors (map row_of ws) ≡ some (map vendor_from ws)
unfolding load_vendors load_row
load_vendors-row_of [] = refl
load_vendors-row_of (w ∷ ws) = rw (load_vendors-row_of ws)

-- A file with the documented header and rows of seven fields, whatever characters the fields hold,
-- loads without an error: it gives one vendor per row, in the order of the file, with the columns
-- and the tier that the rules derive from the row's own fields.
pub load_vendors_file-file_of :
    (ws : List Written) → load_vendors_file (file_of ws) ≡ some (map vendor_from ws)
unfolding load_vendors_file
load_vendors_file-file_of ws = rw (read_vendors-file_of ws) (load_vendors-row_of ws)

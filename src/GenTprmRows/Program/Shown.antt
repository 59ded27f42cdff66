-- ===== src/GenTprmRows/Program/Shown.antt =====
-- The page that the program prints against the vendors that the dashboard loads.
use mathlib.Core.List.{head-eq_of_cons-eq, tail-eq_of_cons-eq}
use mathlib.Core.Option.{some-injective}
use hybrid_tls_lab.Prelude.{
  ◌≡◌, ◌≢◌, refl, ap, ◌∙◌, Option, some, List, [], ◌∷◌, ◌++◌, map, >>=-eq-some,
}
use hybrid_tls_lab.Prelude.Dict.{Dict}
use hybrid_tls_lab.Prelude.Text.{Text, codes}
use hybrid_tls_lab.Prelude.Csv.{read_dicts}
use hybrid_tls_lab.Tprm.{Vendor, load_row}
use hybrid_tls_lab.Tprm.File.{csv_row_of, csv_rows_of, read_vendors, load_vendors_file}
use hybrid_tls_lab.Tprm.File.Written.{Written, row_of, vendor_from, load_vendors-row_of}
use hybrid_tls_lab.GenTprmRows.{render_row}
use hybrid_tls_lab.GenTprmRows.Rows.{html_of, render_row-eq-html_of}
use hybrid_tls_lab.GenTprmRows.Program.{finished, row_text, print_rows, main}

-- The lines of the table.
abbrev pub table : List Vendor → Text
table [] = []
table (v ∷ vs) = html_of v ++ codes "\n" ++ table vs

render_row-row_of : (w : Written) → render_row (row_of w) ≡ some (html_of (vendor_from w))
unfolding load_row
render_row-row_of w =
    render_row-eq-html_of w.vendor w.tls13 w.pqc w.pqc_provider w.static_rsa w.weak_cipher w.curves

csv_rows_of_cons :
    (d : Dict (Option Text)) (ds : List (Dict (Option Text))) (w : Written) (ws : List Written)
    → csv_rows_of (d ∷ ds) ≡ some (map row_of (w ∷ ws))
    → (csv_row_of d ≡ some (row_of w)) × (csv_rows_of ds ≡ some (map row_of ws))
unfolding csv_rows_of
csv_rows_of_cons d ds w ws h =
    let (row, first, h') = >>=-eq-some (csv_row_of d) _ h in
    let (rows, rest, h'') = >>=-eq-some (csv_rows_of ds) _ h' in
    let same : row ∷ rows ≡ row_of w ∷ map row_of ws = some-injective _ _ h'' in
    (first ∙ ap some (head-eq_of_cons-eq same), rest ∙ ap some (tail-eq_of_cons-eq same))

csv_rows_of-cons-ne-nil :
    (d : Dict (Option Text)) (ds : List (Dict (Option Text))) → csv_rows_of (d ∷ ds) ≢ some []
unfolding csv_rows_of
csv_rows_of-cons-ne-nil d ds h =
    let (row, first, h') = >>=-eq-some (csv_row_of d) _ h in
    let (rows, rest, h'') = >>=-eq-some (csv_rows_of ds) _ h' in cc h''

print_rows_lem :
    (ds : List (Dict (Option Text))) (ws : List Written)
    → csv_rows_of ds ≡ some (map row_of ws)
    → print_rows ds ≡ record { stdout = table (map vendor_from ws); ending = finished }
unfolding print_rows row_text
print_rows_lem [] [] h = refl
print_rows_lem [] (w ∷ ws) h = unfold csv_rows_of in cc h
print_rows_lem (d ∷ ds) [] h = absurd (csv_rows_of-cons-ne-nil d ds h)
print_rows_lem (d ∷ ds) (w ∷ ws) h =
    let (first, rest) = csv_rows_of_cons d ds w ws h in
    rw (first, render_row-row_of w, print_rows_lem ds ws rest)

-- Run on one argument that names a file whose rows all have the seven fields, the generator ends
-- without an error, and it prints exactly the table of the vendors that the dashboard loads from
-- that file, a line for each in their order.
pub main-load_vendors_file :
    (open_file : Text → Option Text) (program path : Text) {text : Text} (ws : List Written)
    → open_file path ≡ some text
    → read_vendors text ≡ some (map row_of ws)
    → (vs : List Vendor) × (load_vendors_file text ≡ some vs)
      × (main open_file (program ∷ path ∷ []) ≡ record { stdout = table vs; ending = finished })
unfolding main load_vendors_file read_vendors
main-load_vendors_file open_file program path {text} ws found full =
    let (ds, read, rows) = >>=-eq-some (read_dicts text) csv_rows_of full in
    (
      map vendor_from ws,
      rw full (load_vendors-row_of ws),
      rw (found, read) (print_rows_lem ds ws rows),
    )

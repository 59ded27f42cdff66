-- ===== src/Prelude/Csv/RoundTrip.antt =====
-- What the writer writes is read back, whatever characters the fields hold.
use mathlib.Core.Path.{◌≡◌, refl, ◌∙◌}
use mathlib.Core.Bool.{Bool, true, false, ◌&&◌}
use mathlib.Core.Option.{some}
use mathlib.Core.List.{List, [], ◌∷◌, ◌++◌, append-nil, append_assoc}
use native.Mathlib.Omega.{arith}
use hybrid_tls_lab.Prelude.Text.{Text, is_empty}
use hybrid_tls_lab.Prelude.Csv.{
  symbols, start_record, step_char, step_eol, step, run, finish, read_rows, is_special,
  double_quotes, write_field, write_more, write_row, write_rows,
}
use hybrid_tls_lab.Prelude.Csv.Fields.{
  go, reader, mode_by, go-quoted, go-write_field, go_comma, go_crlf,
}

write_more-is_empty : (fs : List Text) (rest : Text) → is_empty (write_more fs ++ rest) ≡ false
unfolding write_more
write_more-is_empty [] rest = refl
write_more-is_empty (f ∷ fs) rest = refl

abbrev is_nil : List Text → Bool
is_nil [] = true
is_nil (f ∷ fs) = false

-- The fields behind a field, and the line break.
go-write_more :
    (fs : List Text) (out : List (List Text)) (first special empty : Bool) (f : Text)
    (more : List Text) (rest : Text)
    → (first && empty && is_nil more) ≡ false
    → go (reader (mode_by first special empty) f fs out) true (write_more more ++ rest)
      ≡ go (reader start_record [] [] (out ++ (fs ++ f ∷ more) ∷ [])) false rest
unfolding write_more
go-write_more fs out first special empty f [] rest h =
    go_crlf fs out first special empty f rest (ground arith)
go-write_more fs out first special empty f (g ∷ more) rest h =
    let behind = write_more more ++ rest in
    go_comma fs out first special empty f ((write_field g ++ write_more more) ++ rest)
    ∙ rw (append_assoc (write_field g) (write_more more) rest) (
        go-write_field (fs ++ f ∷ []) out false g behind true (write_more-is_empty more rest)
        ∙ go-write_more (fs ++ f ∷ []) out false (is_special g) (is_empty g) g more rest refl
        ∙ rw (append_assoc fs (f ∷ []) (g ∷ more)))

go-write_fields :
    (f : Text) (more : List Text) (out : List (List Text)) (rest : Text)
    → (is_empty f && is_nil more) ≡ false
    → go (reader start_record [] [] out) false ((write_field f ++ write_more more) ++ rest)
      ≡ go (reader start_record [] [] (out ++ (f ∷ more) ∷ [])) false rest
go-write_fields f more out rest h = rw (append_assoc (write_field f) (write_more more) rest) (
    go-write_field [] out true f (write_more more ++ rest) false (write_more-is_empty more rest)
    ∙ go-write_more [] out true (is_special f) (is_empty f) f more rest h)

go-write_row :
    (row : List Text) (out : List (List Text)) (rest : Text)
    → go (reader start_record [] [] out) false (write_row row ++ rest)
      ≡ go (reader start_record [] [] (out ++ row ∷ [])) false rest
unfolding write_row double_quotes
go-write_row [] out rest = unfold symbols run step step_char step_eol in refl
go-write_row ([] ∷ []) out rest =
    go-quoted [] out true [] (b'\r' ∷ b'\n' ∷ rest) false
    ∙ go_crlf [] out true true false [] rest refl
go-write_row ([] ∷ g ∷ more) out rest = go-write_fields [] (g ∷ more) out rest refl
go-write_row ((c ∷ f) ∷ more) out rest = go-write_fields (c ∷ f) more out rest refl

go-write_rows :
    (rows out : List (List Text))
    → go (reader start_record [] [] out) false (write_rows rows) ≡ some (out ++ rows)
unfolding write_rows
go-write_rows [] out = rw append-nil (unfold symbols run finish in refl)
go-write_rows (row ∷ rows) out =
    go-write_row row out (write_rows rows) ∙ go-write_rows rows (out ++ row ∷ []) ∙ rw append_assoc

-- Rows that were written are read back as they were, empty rows and fields included.
pub read_rows-write_rows : (rows : List (List Text)) → read_rows (write_rows rows) ≡ some rows
unfolding read_rows
read_rows-write_rows rows = go-write_rows rows []

-- ===== src/GenTprmRows/Program.antt =====
-- dashboard/gen_tprm_rows.py: `main`, on its arguments and the files that it can open.
use hybrid_tls_lab.Prelude.{
  Option, none, some, List, [], ◌∷◌, ◌++◌, ◌>>=◌, ◌==◌, if◌then◌else◌, length, not,
}
use hybrid_tls_lab.Prelude.Dict.{Dict}
use hybrid_tls_lab.Prelude.Text.{Text, codes}
use hybrid_tls_lab.Prelude.Csv.{read_dicts}
use hybrid_tls_lab.Tprm.File.{csv_row_of}
use hybrid_tls_lab.GenTprmRows.{render_row}
pub mod Shown

-- How the program ends: at its last line, by the message on its usage with status 1, or by an
-- exception.
pub data Ending : Type 0 where
  finished usage raised : Ending

pub record Output : Type 0 where
  pub stdout : Text
  pub ending : Ending

-- `print` of a text, before what is printed later.
abbrev pub print : Text → Output → Output
print s later = record later { stdout = s ++ codes "\n" ++ later.stdout }

abbrev pub print_or_raise : Option Text → Output → Output
print_or_raise none later = record { stdout = []; ending = raised }
print_or_raise (some s) later = print s later

unfoldable pub row_text : Dict (Option Text) → Option Text
row_text d = do row ← csv_row_of d; render_row row

-- The loop over the reader.
unfoldable pub print_rows : List (Dict (Option Text)) → Output
print_rows [] = record { stdout = []; ending = finished }
print_rows (d ∷ ds) = let later = print_rows ds in print_or_raise (row_text d) later

abbrev pub print_file : Option (List (Dict (Option Text))) → Output
print_file none = record { stdout = []; ending = raised }
print_file (some ds) = print_rows ds

-- `sys.argv[1]`, which is there where it is read.
abbrev pub second : List Text → Text
second (_ ∷ s ∷ _) = s
second _ = []

unfoldable pub main : (Text → Option Text) → List Text → Output
main open_file argv =
    if not (length argv == 2)
    then record { stdout = []; ending = usage }
    else print_file (do text ← open_file (second argv); read_dicts text)

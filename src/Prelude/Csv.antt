-- ===== src/Prelude/Csv.antt =====
-- Python's `csv` with its default dialect, on the text of a file opened with newline="". The limit
-- on the length of a field is left out.
mod Fields
pub mod RoundTrip
pub mod Total
use Prim.Native.Nat.{ℕ}
use mathlib.Core.Bool.{Bool, true, false, not, ◌&&◌, ◌||◌}
use mathlib.Core.Option.{Option, none, some}
use mathlib.Core.List.{List, [], ◌∷◌, ◌++◌}
use hybrid_tls_lab.Prelude.Tests.{◌==◌, if◌then◌else◌, ◌>>=◌}
use hybrid_tls_lab.Prelude.Text.{Text, codes, starts_with}
use hybrid_tls_lab.Prelude.Dict.{Dict, insert}

abbrev pub is_newline : ℕ → Bool
is_newline c = c == b'\n' || c == b'\r'

-- What the reader is fed: the characters of each line, and a mark at its end.
pub data Symbol : Type 0 where
  char : ℕ → Symbol
  eol : Symbol

-- The line ends behind `c`.
abbrev pub ends_line : ℕ → Text → Bool
ends_line c s = c == b'\n' || (c == b'\r' && not (starts_with s (codes "\n")))

abbrev pub mark_if : Bool → List Symbol → List Symbol
mark_if true l = eol ∷ l
mark_if false l = l

-- The flag says that a line has begun.
unfoldable pub symbols : Bool → Text → List Symbol
symbols begun [] = mark_if begun []
symbols begun (c ∷ s) = let last = ends_line c s in char c ∷ mark_if last (symbols (not last) s)

pub data Mode : Type 0 where
  start_record start_field in_field in_quoted quote_in_quoted eat_crnl : Mode

pub record Reader : Type 0 where
  pub mode : Mode
  pub field : Text
  pub fields : List Text
  pub out : List (List Text)

abbrev pub save : Reader → Mode → Reader
save r mode = record r { mode = mode; field = []; fields = r.fields ++ r.field ∷ [] }

abbrev pub push : Reader → ℕ → Mode → Reader
push r c mode = record r { mode = mode; field = r.field ++ c ∷ [] }

-- The record is complete.
abbrev pub emit : Reader → Reader
emit r = record r { mode = start_record; field = []; fields = []; out = r.out ++ r.fields ∷ [] }

abbrev pub in_mode : Reader → Mode → Reader
in_mode r mode = record r { mode = mode }

-- A character at the start of a field.
unfoldable pub step_start : Reader → ℕ → Reader
step_start r c =
    if is_newline c
    then save r eat_crnl
    else if c == b'"'
    then in_mode r in_quoted
    else if c == b','
    then save r start_field
    else push r c in_field

-- None is the error of a character behind an unquoted line break.
unfoldable pub step_char : Mode → Reader → ℕ → Option Reader
step_char start_record r c = some (if is_newline c then in_mode r eat_crnl else step_start r c)
step_char start_field r c = some (step_start r c)
step_char in_field r c = some (
    if is_newline c
    then save r eat_crnl
    else if c == b','
    then save r start_field
    else push r c in_field)
step_char in_quoted r c = some (if c == b'"' then in_mode r quote_in_quoted else push r c in_quoted)
step_char quote_in_quoted r c = some (
    if c == b'"'
    then push r c in_quoted
    else if c == b','
    then save r start_field
    else if is_newline c
    then save r eat_crnl
    else push r c in_field)
step_char eat_crnl r c = if is_newline c then some r else none

unfoldable pub step_eol : Mode → Reader → Reader
step_eol start_record r = emit r
step_eol start_field r = emit (save r start_record)
step_eol in_field r = emit (save r start_record)
step_eol in_quoted r = r
step_eol quote_in_quoted r = emit (save r start_record)
step_eol eat_crnl r = emit r

unfoldable pub step : Reader → Symbol → Option Reader
step r (char c) = step_char r.mode r c
step r eol = some (step_eol r.mode r)

-- The end of the file: a quoted field that is open is taken as it is.
unfoldable pub finish : Mode → Reader → List (List Text)
finish in_quoted r = (emit (save r start_record)).out
finish _ r = r.out

unfoldable pub run : Reader → List Symbol → Option (List (List Text))
run r [] = some (finish r.mode r)
run r (x ∷ l) = do r' ← step r x; run r' l

abbrev pub fresh : Reader
fresh = record { mode = start_record; field = []; fields = []; out = [] }

-- `list(csv.reader(file))`
unfoldable pub read_rows : Text → Option (List (List Text))
read_rows s = run fresh (symbols false s)

-- `dict(zip(fieldnames, row))`, with None for the names that the row is too short for. What a row
-- has beyond the names is kept under the key None, which no one reads.
unfoldable pub fill_row : Dict (Option Text) → List Text → List Text → Dict (Option Text)
fill_row d [] row = d
fill_row d (name ∷ names) [] = fill_row (insert name none d) names []
fill_row d (name ∷ names) (field ∷ row) = fill_row (insert name (some field) d) names row

-- Rows without a field are skipped.
unfoldable pub dict_rows : List Text → List (List Text) → List (Dict (Option Text))
dict_rows names [] = []
dict_rows names ([] ∷ rows) = dict_rows names rows
dict_rows names ((field ∷ row) ∷ rows) = fill_row [] names (field ∷ row) ∷ dict_rows names rows

abbrev pub with_names : List (List Text) → List (Dict (Option Text))
with_names [] = []
with_names (names ∷ rows) = dict_rows names rows

-- `list(csv.DictReader(file))`
unfoldable pub read_dicts : Text → Option (List (Dict (Option Text)))
read_dicts s = do rows ← read_rows s; some (with_names rows)

-- The field has to be quoted.
unfoldable pub is_special : Text → Bool
is_special [] = false
is_special (c ∷ s) = c == b',' || c == b'"' || is_newline c || is_special s

unfoldable pub double_quotes : Text → Text
double_quotes [] = []
double_quotes (c ∷ s) = (if c == b'"' then c ∷ c ∷ [] else c ∷ []) ++ double_quotes s

abbrev pub quoted : Text → Text
quoted f = b'"' ∷ (double_quotes f ++ b'"' ∷ [])

unfoldable pub write_field : Text → Text
write_field f = if is_special f then quoted f else f

-- The fields behind the first one.
unfoldable pub write_more : List Text → Text
write_more [] = codes "\r\n"
write_more (f ∷ fs) = b',' ∷ (write_field f ++ write_more fs)

-- `writerow`: a single field is quoted if it is empty.
unfoldable pub write_row : List Text → Text
write_row [] = codes "\r\n"
write_row ([] ∷ []) = quoted [] ++ codes "\r\n"
write_row (f ∷ fs) = write_field f ++ write_more fs

-- `writerows`
unfoldable pub write_rows : List (List Text) → Text
write_rows [] = []
write_rows (row ∷ rows) = write_row row ++ write_rows rows

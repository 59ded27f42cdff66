-- ===== src/Prelude/Csv/Total.antt =====
-- The reader raises no error on a text: a line break that is not quoted ends its line, so that no
-- character is left behind it.
use Prim.Native.Nat.{ℕ}
use mathlib.Core.Path.{◌≡◌, refl}
use mathlib.Core.Logic.{inl, inr}
use mathlib.Core.Bool.{Bool, true, false}
use mathlib.Core.Option.{Option, some}
use mathlib.Core.List.{List, [], ◌∷◌}
use native.Mathlib.Omega.{arith}
use hybrid_tls_lab.Prelude.Tests.{Bool-cases}
use hybrid_tls_lab.Prelude.Dict.{Dict}
use hybrid_tls_lab.Prelude.Text.{Text, codes, starts_with}
use hybrid_tls_lab.Prelude.Csv.{
  is_newline, ends_line, symbols, Mode, start_record, start_field, in_field, in_quoted,
  quote_in_quoted, eat_crnl, Reader, step_start, step_char, step_eol, step, run, fresh, read_rows,
  read_dicts, with_names,
}
use hybrid_tls_lab.Prelude.Csv.Fields.{go}

abbrev is_eating : Mode → Bool
is_eating eat_crnl = true
is_eating start_record = false
is_eating start_field = false
is_eating in_field = false
is_eating in_quoted = false
is_eating quote_in_quoted = false

-- A character can be read: behind a line break only another one can.
abbrev Reads : Mode → ℕ → Type 0
Reads mode c = is_eating mode ≡ true → is_newline c ≡ true

step_start-mode : (r : Reader) (c : ℕ) → Reads (step_start r c).mode c
unfolding step_start
step_start-mode r c = ground arith

step_char_total :
    (mode : Mode) (r : Reader) (c : ℕ)
    → Reads mode c
    → (r.mode ≡ mode)
    → (r' : Reader) × (step_char mode r c ≡ some r') × Reads r'.mode c
unfolding step_char
step_char_total start_record r c h m = (
  _,
  refl,
  elim (Bool-cases (is_newline c)) [
    | inl e ↦ λ _. e
    | inr e ↦ rw e (λ eating. cc (e, step_start-mode r c eating))
  ],
)
step_char_total start_field r c h m = (_, refl, step_start-mode r c)
step_char_total in_field r c h m = (_, refl, ground arith)
step_char_total in_quoted r c h m = (_, refl, ground arith)
step_char_total quote_in_quoted r c h m = (_, refl, ground arith)
step_char_total eat_crnl r c h m = (r, rw (h refl), λ _. h refl)

step_eol-mode :
    (mode : Mode) (r : Reader) → r.mode ≡ mode → is_eating (step_eol mode r).mode ≡ false
unfolding step_eol
step_eol-mode start_record r m = refl
step_eol-mode start_field r m = refl
step_eol-mode in_field r m = refl
step_eol-mode in_quoted r m = rw m
step_eol-mode quote_in_quoted r m = refl
step_eol-mode eat_crnl r m = refl

-- The text that is left can be read on.
abbrev Continues : Reader → Text → Type 0
Continues r s = is_eating r.mode ≡ true → starts_with s (codes "\n") ≡ true

go_total :
    (s : Text) (r : Reader) (b : Bool)
    → Continues r s
    → (rows : List (List Text)) × (go r b s ≡ some rows)
unfolding symbols run step
go_total [] r true h = (_, refl)
go_total [] r false h = (_, refl)
go_total (c ∷ s) r b h =
    let (r', read, can) = step_char_total r.mode r c (λ e. ground (arith, h e)) refl in
    elim (Bool-cases (ends_line c s)) [
      | inl e ↦
          let (rows, rest) =
            go_total s (step_eol r'.mode r') false
              (λ eating. cc (step_eol-mode r'.mode r' refl, eating)) in
          (rows, rw (read, e, rest))
      | inr e ↦
          let (rows, rest) = go_total s r' true (λ eating. ground (arith, can eating)) in
          (rows, rw (read, e, rest))
    ]

-- The rows of any text can be read.
pub read_rows_total : (s : Text) → (rows : List (List Text)) × (read_rows s ≡ some rows)
unfolding read_rows
read_rows_total s = go_total s fresh false (λ eating. cc)

pub read_dicts_total : (s : Text) → (ds : List (Dict (Option Text))) × (read_dicts s ≡ some ds)
unfolding read_dicts
read_dicts_total s = let (rows, read) = read_rows_total s in (with_names rows, rw read)

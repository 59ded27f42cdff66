-- ===== src/Prelude/Csv/Fields.antt =====
-- The reader on a field that was written, and on the comma or the line break behind it.
use Prim.Native.Nat.{ℕ}
use mathlib.Core.Path.{◌≡◌, refl, ap, ◌∙◌}
use mathlib.Core.Logic.{inl, inr}
use mathlib.Core.Bool.{Bool, true, false, not, ◌&&◌}
use mathlib.Core.Option.{Option}
use mathlib.Core.List.{List, [], ◌∷◌, ◌++◌, append-nil, append_assoc}
use native.Mathlib.Omega.{arith}
use hybrid_tls_lab.Prelude.Tests.{◌==◌, Bool-cases}
use hybrid_tls_lab.Prelude.Text.{Text, is_empty}
use hybrid_tls_lab.Prelude.Csv.{
  is_newline, ends_line, symbols, Mode, start_record, start_field, in_field, in_quoted,
  quote_in_quoted, Reader, step_start, step_char, step_eol, step, run, is_special, double_quotes,
  quoted, write_field,
}

-- The reader on the rest of a text.
abbrev pub go : Reader → Bool → Text → Option (List (List Text))
go r begun s = run r (symbols begun s)

abbrev pub reader : Mode → Text → List Text → List (List Text) → Reader
reader mode field fields out = record { mode = mode; field = field; fields = fields; out = out }

ends_line_of_other : (c : ℕ) (s : Text) → is_newline c ≡ false → ends_line c s ≡ false
ends_line_of_other c s h = ground arith

-- The mode before a field: that of the first one, or of another.
abbrev pub start_mode : Bool → Mode
start_mode true = start_record
start_mode false = start_field

-- The mode behind a field that was written, which is special or empty or neither.
abbrev pub mode_by : (first special empty : Bool) → Mode
mode_by first true empty = quote_in_quoted
mode_by first false true = start_mode first
mode_by first false false = in_field

abbrev pub after_mode : Bool → Text → Mode
after_mode first f = mode_by first (is_special f) (is_empty f)

symbols_begun : (b : Bool) (s : Text) → is_empty s ≡ false → symbols b s ≡ symbols true s
unfolding symbols
symbols_begun b [] h = cc
symbols_begun b (c ∷ s) h = refl

module _ (fs : List Text) (out : List (List Text)) where
  -- One character that goes into a quoted field, a line break or not.
  go-in_quoted :
      (c : ℕ) (g rest : Text) (b : Bool)
      → (c == b'"') ≡ false
      → go (reader in_quoted g fs out) b (c ∷ rest)
        ≡ go (reader in_quoted (g ++ c ∷ []) fs out) (not (ends_line c rest)) rest
  unfolding symbols run step step_char step_eol
  go-in_quoted c g rest b h = elim (Bool-cases (ends_line c rest)) [
    | inl e ↦ rw (e, h)
    | inr e ↦ rw (e, h)
  ]

  go_doubled :
      (g rest : Text) (b : Bool)
      → go (reader in_quoted g fs out) b (b'"' ∷ b'"' ∷ rest)
        ≡ go (reader in_quoted (g ++ b'"' ∷ []) fs out) true rest
  unfolding symbols run step step_char
  go_doubled g rest b = refl

  go-double_quotes :
      (f g rest : Text) (b : Bool)
      → go (reader in_quoted g fs out) b (double_quotes f ++ b'"' ∷ rest)
        ≡ go (reader quote_in_quoted (g ++ f) fs out) true rest
  unfolding double_quotes
  go-double_quotes [] g rest b = rw append-nil (unfold symbols run step step_char in refl)
  go-double_quotes (c ∷ f) g rest b = elim (Bool-cases (c == b'"')) [
    | inl e ↦
        let same : c ≡ b'"' = ground arith in
        rw same (
          go_doubled g (double_quotes f ++ b'"' ∷ rest) b
          ∙ go-double_quotes f (g ++ b'"' ∷ []) rest true
          ∙ rw append_assoc)
    | inr e ↦ rw e (
        go-in_quoted c g (double_quotes f ++ b'"' ∷ rest) b e
        ∙ go-double_quotes f (g ++ c ∷ []) rest _
        ∙ rw append_assoc)
  ]

  go-char_in_field :
      (c : ℕ) (g rest : Text)
      → (c == b',') ≡ false
      → is_newline c ≡ false
      → go (reader in_field g fs out) true (c ∷ rest)
        ≡ go (reader in_field (g ++ c ∷ []) fs out) true rest
  unfolding symbols run step step_char
  go-char_in_field c g rest h h' = rw (ends_line_of_other c rest h', h, h')

  go-in_field :
      (f g rest : Text)
      → is_special f ≡ false
      → go (reader in_field g fs out) true (f ++ rest)
        ≡ go (reader in_field (g ++ f) fs out) true rest
  unfolding is_special
  go-in_field [] g rest h = rw append-nil
  go-in_field (c ∷ f) g rest h =
      go-char_in_field c g (f ++ rest) (ground arith) (ground arith)
      ∙ go-in_field f (g ++ c ∷ []) rest (ground arith)
      ∙ rw append_assoc

  go-quote_at_start :
      (first : Bool) (rest : Text) (b : Bool)
      → go (reader (start_mode first) [] fs out) b (b'"' ∷ rest)
        ≡ go (reader in_quoted [] fs out) true rest
  unfolding symbols run step step_char step_start
  go-quote_at_start true rest b = refl
  go-quote_at_start false rest b = refl

  go-char_at_start :
      (first : Bool) (c : ℕ) (rest : Text) (b : Bool)
      → (c == b',') ≡ false
      → (c == b'"') ≡ false
      → is_newline c ≡ false
      → go (reader (start_mode first) [] fs out) b (c ∷ rest)
        ≡ go (reader in_field (c ∷ []) fs out) true rest
  unfolding symbols run step step_char step_start
  go-char_at_start true c rest b h h' h'' = rw (ends_line_of_other c rest h'', h, h', h'')
  go-char_at_start false c rest b h h' h'' = rw (ends_line_of_other c rest h'', h, h', h'')

  pub go-quoted :
      (first : Bool) (f rest : Text) (b : Bool)
      → go (reader (start_mode first) [] fs out) b (quoted f ++ rest)
        ≡ go (reader quote_in_quoted f fs out) true rest
  go-quoted first f rest b =
      rw (append_assoc (double_quotes f) (b'"' ∷ []) rest) (
        go-quote_at_start first (double_quotes f ++ b'"' ∷ rest) b
        ∙ go-double_quotes f [] rest true)

  go_plain :
      (first : Bool) (f rest : Text) (b : Bool)
      → is_empty rest ≡ false
      → is_special f ≡ false
      → go (reader (start_mode first) [] fs out) b (f ++ rest)
        ≡ go (reader (mode_by first false (is_empty f)) f fs out) true rest
  unfolding is_special
  go_plain first [] rest b more e =
      ap (run (reader (start_mode first) [] fs out)) (symbols_begun b rest more)
  go_plain first (c ∷ f) rest b more e =
      go-char_at_start first c (f ++ rest) b (ground arith) (ground arith) (ground arith)
      ∙ go-in_field f (c ∷ []) rest (ground arith)

  -- A written field, up to the text behind it.
  pub go-write_field :
      (first : Bool) (f rest : Text) (b : Bool)
      → is_empty rest ≡ false
      → go (reader (start_mode first) [] fs out) b (write_field f ++ rest)
        ≡ go (reader (after_mode first f) f fs out) true rest
  unfolding write_field
  go-write_field first f rest b more = elim (Bool-cases (is_special f)) [
    | inl e ↦ rw e (go-quoted first f rest b)
    | inr e ↦ rw e (go_plain first f rest b more e)
  ]

  -- The comma behind a field.
  pub go_comma :
      (first special empty : Bool) (f rest : Text)
      → go (reader (mode_by first special empty) f fs out) true (b',' ∷ rest)
        ≡ go (reader start_field [] (fs ++ f ∷ []) out) true rest
  unfolding symbols run step step_char step_start
  go_comma true true empty f rest = refl
  go_comma false true empty f rest = refl
  go_comma true false true f rest = refl
  go_comma false false true f rest = refl
  go_comma true false false f rest = refl
  go_comma false false false f rest = refl

  -- The line break behind the last field of a row.
  pub go_crlf :
      (first special empty : Bool) (f rest : Text)
      → (first && empty) ≡ false
      → go (reader (mode_by first special empty) f fs out) true (b'\r' ∷ b'\n' ∷ rest)
        ≡ go (reader start_record [] [] (out ++ (fs ++ f ∷ []) ∷ [])) false rest
  unfolding symbols run step step_char step_start step_eol
  go_crlf true true empty f rest h = refl
  go_crlf false true empty f rest h = refl
  go_crlf true false true f rest h = cc
  go_crlf false false true f rest h = refl
  go_crlf true false false f rest h = refl
  go_crlf false false false f rest h = refl

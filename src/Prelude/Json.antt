-- ===== src/Prelude/Json.antt =====
-- JSON objects whose values are texts, natural numbers, true, false and null, written with no white
-- space. Of the escapes in a text, \u is left out.
pub mod RoundTrip
use Prim.Native.Nat.{ℕ, zero, suc}
use mathlib.Core.Bool.{Bool, true, false, ◌&&◌}
use mathlib.Core.Option.{Option, none, some}
use mathlib.Core.List.{[], ◌∷◌}
use hybrid_tls_lab.Prelude.Tests.{ltb, ◌==◌, if◌then◌else◌, ◌>>=◌}
use hybrid_tls_lab.Prelude.Lists.{length}
use hybrid_tls_lab.Prelude.Text.{Text, codes, is_empty, is_digit, starts_with, to_int}
use hybrid_tls_lab.Prelude.Dict.{Dict}

pub data Json : Type 0 where
  string : Text → Json
  number : ℕ → Json
  boolean : Bool → Json
  null : Json

-- What a character stands for after a backslash.
unfoldable pub escaped : ℕ → Option ℕ
escaped c =
    if c == b'"'
    then some b'"'
    else if c == b'\\'
    then some b'\\'
    else if c == b'/'
    then some b'/'
    else if c == b'b'
    then some 8
    else if c == b'f'
    then some 12
    else if c == b'n'
    then some 10
    else if c == b'r'
    then some 13
    else if c == b't'
    then some 9
    else none

-- A character before the rest of a text.
abbrev pub put : ℕ → Option (Text × Text) → Option (Text × Text)
put c none = none
put c (some (s, rest)) = some (c ∷ s, rest)

-- The text after an opening quote, and what follows it; the flag is set after a backslash.
unfoldable pub read_string : Bool → Text → Option (Text × Text)
read_string _ [] = none
read_string true (c ∷ s) = do d ← escaped c; put d (read_string false s)
read_string false (c ∷ s) =
    let after_backslash = read_string true s in
    let after = read_string false s in
    if c == b'"'
    then some ([], s)
    else if c == b'\\'
    then after_backslash
    else if ltb c 32
    then none
    else put c after

-- The digits in front, and what follows them.
unfoldable pub span_digits : Text → Text × Text
span_digits [] = ([], [])
span_digits (c ∷ s) =
    let (ds, rest) = span_digits s in if is_digit c then (c ∷ ds, rest) else ([], c ∷ s)

abbrev pub drop_codes : ℕ → Text → Text
drop_codes zero s = s
drop_codes (suc n) [] = []
drop_codes (suc n) (c ∷ s) = drop_codes n s

unfoldable pub read_literal : Text → Option (Json × Text)
read_literal s =
    if starts_with s (codes "true")
    then some (boolean true, drop_codes 4 s)
    else if starts_with s (codes "false")
    then some (boolean false, drop_codes 5 s)
    else if starts_with s (codes "null")
    then some (null, drop_codes 4 s)
    else none

unfoldable pub read_value : Text → Option (Json × Text)
read_value [] = none
read_value (c ∷ s) =
    if c == b'"'
    then (do (t, rest) ← read_string false s; some (string t, rest))
    else if is_digit c
    then (let (ds, rest) = span_digits (c ∷ s) in some (number (to_int ds), rest))
    else read_literal (c ∷ s)

-- The rest of a text after a character that must stand there.
abbrev pub expect : ℕ → Text → Option Text
expect c [] = none
expect c (d ∷ s) = if d == c then some s else none

-- A member, `"name":value`
unfoldable pub read_member : Text → Option ((Text × Json) × Text)
read_member s = do
  s ← expect b'"' s
  (name, s) ← read_string false s
  s ← expect b':' s
  (v, s) ← read_value s
  some ((name, v), s)

-- What follows a member: a comma and more of them, or the closing brace, after which nothing stands.
abbrev pub after_member : Text × Json → (Text → Option (Dict Json)) → Text → Option (Dict Json)
after_member m more [] = none
after_member m more (c ∷ s) =
    if c == b','
    then (more s >>= λ ms. some (m ∷ ms))
    else if c == b'}' && is_empty s
    then some (m ∷ [])
    else none

-- The members up to the closing brace, with fuel for each.
unfoldable pub read_members : ℕ → Text → Option (Dict Json)
read_members zero s = none
read_members (suc fuel) s = do (m, rest) ← read_member s; after_member m (read_members fuel) rest

-- Fuel for every character is more than there are members.
unfoldable pub read_object : Text → Option (Dict Json)
read_object s = do s ← expect b'{' s; read_members (length s) s

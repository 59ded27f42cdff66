-- ===== src/Prelude/Json/RoundTrip.antt =====
-- An object as a program writes it, member by member, and what is read from it.
use Prim.Native.Nat.{ℕ, zero, suc, ◌≤◌, ◌<◌, ◌+◌}
use mathlib.Core.Path.{◌≡◌, refl}
use mathlib.Core.Bool.{Bool, true, false, not, ◌&&◌}
use mathlib.Core.Option.{some}
use mathlib.Core.List.{List, [], ◌∷◌, ◌++◌, append_assoc, map}
use native.Mathlib.Omega.{arith}
use hybrid_tls_lab.Prelude.Tests.{ltb, ◌==◌, if◌then◌else◌}
use hybrid_tls_lab.Prelude.Lists.{length, All, length-append, length-map, sum_of, take}
use hybrid_tls_lab.Prelude.Text.{Text, codes, is_digit, all_codes, is_digits, to_int}
use hybrid_tls_lab.Prelude.Text.Decimal.{str_of, is_digits-str_of, to_int-str_of}
use hybrid_tls_lab.Prelude.Json.{
  Json, string, number, boolean, null, read_string, span_digits, read_literal, read_value,
  read_member, read_members, read_object,
}

-- `"raw"`
unfoldable pub quoted : Text → Text
quoted raw = b'"' ∷ raw ++ b'"' ∷ []

-- A name, and a value as it is written.
abbrev pub Field : Type 0
Field = Text × Text

-- `"name":value`
unfoldable pub field_text : Field → Text
field_text f = quoted f.0 ++ b':' ∷ f.1

unfoldable pub fields_text : List Field → Text
fields_text [] = codes "}"
fields_text (f ∷ []) = field_text f ++ codes "}"
fields_text (f ∷ g ∷ fs) = field_text f ++ b',' ∷ fields_text (g ∷ fs)

-- `{"name":value,...}`
unfoldable pub object_text : List Field → Text
object_text fs = b'{' ∷ fields_text fs

-- No quote, no backslash and no control character.
abbrev pub is_plain_code : ℕ → Bool
is_plain_code c = not (c == b'"') && not (c == b'\\') && not (ltb c 32)

abbrev pub is_plain : Text → Bool
is_plain = all_codes is_plain_code

-- Between quotes, a text is read as another one, whatever follows.
abbrev pub Quotes : Text → Text → Type 0
Quotes raw s = (rest : Text) → read_string false (raw ++ b'"' ∷ rest) ≡ some (s, rest)

-- A written value is read, where a comma or a brace follows.
abbrev pub Writes : Text → Json → Type 0
Writes raw v =
    (c : ℕ) (rest : Text) → is_digit c ≡ false → read_value (raw ++ c ∷ rest) ≡ some (v, c ∷ rest)

pub Quotes-plain : (s : Text) → is_plain s ≡ true → Quotes s s
unfolding read_string
Quotes-plain [] h rest = refl
Quotes-plain (c ∷ s) h rest = ground (arith, Quotes-plain s (ground arith) rest)

pub Writes-quoted : (raw s : Text) → Quotes raw s → Writes (quoted raw) (string s)
unfolding quoted read_value
Writes-quoted raw s h c rest d = rw (append_assoc raw (b'"' ∷ []) (c ∷ rest), h (c ∷ rest))

span_digits-append :
    (ds : Text) (c : ℕ) (rest : Text)
    → all_codes is_digit ds ≡ true
    → is_digit c ≡ false
    → span_digits (ds ++ c ∷ rest) ≡ (ds, c ∷ rest)
unfolding span_digits
span_digits-append [] c rest h d = rw d
span_digits-append (b ∷ ds) c rest h d =
    let digit : is_digit b ≡ true = ground arith in
    rw (digit, span_digits-append ds c rest (ground arith) d)

Writes-digits : (ds : Text) → is_digits ds ≡ true → Writes ds (number (to_int ds))
unfolding read_value
Writes-digits [] h c rest d = cc
Writes-digits (b ∷ ds) h c rest d =
    let digit : is_digit b ≡ true = ground arith in
    let bare : (b == b'"') ≡ false = ground arith in
    rw (bare, digit, span_digits-append (b ∷ ds) c rest h d)

pub Writes-str_of : (n : ℕ) → Writes (str_of n) (number n)
Writes-str_of n = rw (to_int-str_of n) at (Writes-digits (str_of n) (is_digits-str_of n))

pub Writes-boolean : (b : Bool) → Writes (if b then codes "true" else codes "false") (boolean b)
unfolding read_value read_literal
Writes-boolean true c rest d = refl
Writes-boolean false c rest d = refl

pub Writes-null : Writes (codes "null") null
unfolding read_value read_literal
Writes-null c rest d = refl

-- A field and the value that it is read as; its name is plain.
pub record Member : Type 0 where
  pub name : Text
  pub raw : Text
  pub value : Json

abbrev pub field_of : Member → Field
field_of m = (m.name, m.raw)

abbrev pub entry_of : Member → Text × Json
entry_of m = (m.name, m.value)

pub record IsMember (m : Member) : Type 0 where
  pub name_plain : is_plain m.name ≡ true
  pub writes : Writes m.raw m.value

abbrev pub member : Text → Text → Json → Member
member name raw value = record { name = name; raw = raw; value = value }

pub plain_member :
    (name s : Text)
    → is_plain name ≡ true
    → is_plain s ≡ true
    → IsMember (member name (quoted s) (string s))
plain_member name s h plain = record {
  name_plain = h;
  writes = Writes-quoted s s (Quotes-plain s plain);
}

pub number_member :
    (name : Text) (n : ℕ) → is_plain name ≡ true → IsMember (member name (str_of n) (number n))
number_member name n h = record { name_plain = h; writes = Writes-str_of n }

read_member-field_text :
    (m : Member)
    → IsMember m
    → (c : ℕ) (rest : Text) → is_digit c ≡ false
    → read_member (field_text (field_of m) ++ c ∷ rest) ≡ some (entry_of m, c ∷ rest)
unfolding read_member field_text quoted
read_member-field_text m v c rest d = rw (
  append_assoc (m.name ++ b'"' ∷ []) (b':' ∷ m.raw) (c ∷ rest),
  append_assoc m.name (b'"' ∷ []) (b':' ∷ (m.raw ++ c ∷ rest)),
  Quotes-plain m.name v.name_plain (b':' ∷ (m.raw ++ c ∷ rest)),
  v.writes c rest d,
)

read_members-fields_text :
    (fuel : ℕ) (m : Member) (ms : List Member)
    → All IsMember (m ∷ ms)
    → length ms < fuel
    → read_members fuel (fields_text (map field_of (m ∷ ms))) ≡ some (map entry_of (m ∷ ms))
unfolding read_members fields_text
read_members-fields_text zero m ms h fits = absurd (omega arith)
read_members-fields_text (suc fuel) m [] h fits = rw (read_member-field_text m h.0 b'}' [] refl)
read_members-fields_text (suc fuel) m (n ∷ ms) h fits = rw (
  read_member-field_text m h.0 b',' (fields_text (map field_of (n ∷ ms))) refl,
  read_members-fields_text fuel n ms h.1 (omega arith),
)

length-fields_text : (fs : List Field) → length fs ≤ length (fields_text fs)
unfolding fields_text
length-fields_text [] = omega arith
length-fields_text (f ∷ []) = omega (arith, length-append (field_text f) (codes "}"))
length-fields_text (f ∷ g ∷ fs) =
    omega (
      arith,
      length-append (field_text f) (b',' ∷ fields_text (g ∷ fs)),
      length-fields_text (g ∷ fs),
    )

-- The members of an object are read back, in their order.
pub read_object-object_text :
    (m : Member) (ms : List Member)
    → All IsMember (m ∷ ms)
    → read_object (object_text (map field_of (m ∷ ms))) ≡ some (map entry_of (m ∷ ms))
unfolding read_object object_text
read_object-object_text m ms h =
    read_members-fields_text _ m ms h
      (omega (arith, length-map field_of ms, length-fields_text (map field_of (m ∷ ms))))

abbrev pub field_size : Field → ℕ
field_size f = length f.0 + length f.1 + 4

length-field_text : (f : Field) → length (field_text f) + 1 ≡ field_size f
unfolding field_text quoted
length-field_text f =
    omega (arith, length-append (f.0 ++ b'"' ∷ []) (b':' ∷ f.1), length-append f.0 (b'"' ∷ []))

length-fields_text-eq-sum_of :
    (f : Field) (fs : List Field) → length (fields_text (f ∷ fs)) ≡ sum_of field_size (f ∷ fs)
unfolding fields_text
length-fields_text-eq-sum_of f [] =
    omega (arith, length-append (field_text f) (codes "}"), length-field_text f)
length-fields_text-eq-sum_of f (g ∷ fs) = omega (
  arith,
  length-append (field_text f) (b',' ∷ fields_text (g ∷ fs)),
  length-field_text f,
  length-fields_text-eq-sum_of g fs,
)

-- How long an object is.
pub length-object_text :
    (f : Field) (fs : List Field) → length (object_text (f ∷ fs)) ≡ 1 + sum_of field_size (f ∷ fs)
unfolding object_text
length-object_text f fs = omega (arith, length-fields_text-eq-sum_of f fs)

pub length-quoted : (raw : Text) → length (quoted raw) ≡ length raw + 2
unfolding quoted
length-quoted raw = omega (arith, length-append raw (b'"' ∷ []))

pub is_plain-take : (n : ℕ) (s : Text) → is_plain s ≡ true → is_plain (take n s) ≡ true
is_plain-take zero s h = refl
is_plain-take (suc n) [] h = refl
is_plain-take (suc n) (c ∷ s) h = ground (arith, is_plain-take n s)

-- ===== src/Tls/Common/Escape.antt =====
-- What `json_escape` writes, and what `valid_identifier` lets through, as JSON and for the schemas.
use hybrid_tls_lab.Prelude.{
  ℕ, suc, ◌+◌, ◌*◌, ◌<◌, ◌≤◌, ◌≡◌, refl, ap, inl, inr, arith, true, false, ◌||◌, some, [], ◌∷◌,
  ◌++◌, ltb, ◌==◌, if◌then◌else◌, Bool-cases, length, take, length-append, ltb→lt, take_of_le,
}
use mathlib.Core.Path.{subst}
use hybrid_tls_lab.Prelude.Text.{Text, all_codes}
use hybrid_tls_lab.Prelude.Json.{escaped, read_string}
use hybrid_tls_lab.Prelude.Json.RoundTrip.{is_plain_code, is_plain, Quotes}
use hybrid_tls_lab.Schemas.{is_id_code, is_id}
use hybrid_tls_lab.Tls.Common.{
  escape_code, escape_from, json_escape, is_identifier_code, valid_identifier,
}

-- A text on one line: line ends and tabs are spaces, other control characters are left out.
abbrev pub one_line : Text → Text
one_line [] = []
one_line (c ∷ s) =
    if c == 10 || c == 13 || c == 9
    then b' ' ∷ one_line s
    else if ltb c 32
    then one_line s
    else c ∷ one_line s

pub length-one_line : (s : Text) → length (one_line s) ≤ length s
length-one_line [] = omega arith
length-one_line (c ∷ s) = ground (arith, length-one_line s)

length-escape_code : (c : ℕ) → length (escape_code c) ≤ 2
unfolding escape_code
length-escape_code c = ground arith

escape_from_fits : (s : Text) (t n : ℕ) → t < n → t + length (escape_from s t n) < n
unfolding escape_from
escape_from_fits [] t n h = omega arith
escape_from_fits (c ∷ s) t n h =
    let rest = escape_from s (t + length (escape_code c)) n in
    ground (
      arith,
      length-escape_code c,
      length-append (escape_code c) rest,
      escape_from_fits s (t + length (escape_code c)) n,
    )

-- A character after its escape is read as it is on one line.
Quotes-escape_code :
    (c : ℕ) (raw s : Text)
    → Quotes raw (one_line s)
    → Quotes (escape_code c ++ raw) (one_line (c ∷ s))
unfolding escape_code read_string escaped
Quotes-escape_code c raw s h rest = ground (arith, h rest)

-- The buffer takes a prefix of the input, and more of it as long as two characters fit.
Quotes-escape_from :
    (s : Text) (t n : ℕ)
    → (k : ℕ) × Quotes (escape_from s t n) (one_line (take k s))
      × (t + k * 2 + 2 < n → take k s ≡ s)
unfolding escape_from read_string
Quotes-escape_from [] t n = (0, (λ rest. refl), λ h. refl)
Quotes-escape_from (c ∷ s) t n =
    let (k, quotes, whole) = Quotes-escape_from s (t + length (escape_code c)) n in
    elim (Bool-cases (ltb (t + 2) n)) [
      | inl e ↦ (
        suc k,
        rw e (Quotes-escape_code c _ (take k s) quotes),
        λ h. ap (◌∷◌ c) (whole (omega (arith, length-escape_code c))),
      )
      | inr e ↦ (0, rw e (λ rest. refl), λ h. absurd (ground arith))
    ]

-- In a buffer that is not empty, `json_escape` writes a text that fits it with its NUL, and that a
-- JSON reader reads back between quotes as a prefix of the input, on one line: line ends and tabs
-- have become spaces, and the other control characters are gone. The prefix is the whole input if
-- the buffer has more than two characters for each character of the prefix and two besides.
pub json_escape-Quotes :
    (input : Text) (output_size : ℕ)
    → 0 < output_size
    → (output : Text) × (k : ℕ) × (json_escape input output_size ≡ some output)
      × (length output < output_size)
      × Quotes output (one_line (take k input))
      × (k * 2 + 2 < output_size → take k input ≡ input)
unfolding json_escape
json_escape-Quotes input n h =
    let (k, quotes, whole) = Quotes-escape_from input 0 n in
    let positive : (n == 0) ≡ false = ground arith in
    (
      escape_from input 0 n,
      k,
      rw positive refl,
      omega (arith, escape_from_fits input 0 n h),
      quotes,
      λ room. whole (omega arith),
    )

-- A buffer of more than twice the length of the input takes the whole.
pub json_escape-whole :
    (input : Text) (output_size : ℕ)
    → length input * 2 < output_size
    → (output : Text) × (json_escape input output_size ≡ some output)
      × (length output < output_size)
      × Quotes output (one_line input)
json_escape-whole input n room =
    let (output, k, written, fits, quotes, more) = json_escape-Quotes input n (omega arith) in
    let whole : take k input ≡ input = elim (Bool-cases (ltb (k * 2 + 2) n)) [
      | inl e ↦ more (ltb→lt (k * 2 + 2) n e)
      | inr e ↦ take_of_le k input (ground arith)
    ] in
    (output, written, fits, subst (λ s. Quotes output (one_line s)) whole quotes)

all_codes-is_identifier_code : (s : Text) → all_codes is_identifier_code s ≡ all_codes is_id_code s
all_codes-is_identifier_code [] = refl
all_codes-is_identifier_code (c ∷ s) =
    let same : is_identifier_code c ≡ is_id_code c = ground arith in
    rw (same, all_codes-is_identifier_code s)

-- The test of the C programs is the pattern of the schemas with the greatest length of a sample id.
pub valid_identifier-is_id : (value : Text) → valid_identifier value ≡ is_id 160 value
unfolding valid_identifier is_id
valid_identifier-is_id [] = refl
valid_identifier-is_id (c ∷ s) = rw all_codes-is_identifier_code (ground arith)

pub is_plain-of-id_codes : (s : Text) → all_codes is_id_code s ≡ true → is_plain s ≡ true
is_plain-of-id_codes [] h = refl
is_plain-of-id_codes (c ∷ s) h =
    let plain : is_plain_code c ≡ true = ground arith in
    rw (plain, is_plain-of-id_codes s (ground arith))

-- ===== src/Prelude/Text.antt =====
-- Python's `str` as the list of its code points, with the methods that the program calls.
-- Letter case is that of ASCII; white space is all of Unicode's.
pub mod Strip
pub mod Decimal
use Prim.Native.Char.{code}
use Prim.Native.Nat.{ℕ, ◌+◌, ◌-◌, ◌*◌}
use Prim.Native.String.{String}
use mathlib.Core.Path.{◌≡◌, refl}
use mathlib.Core.Logic.{◌↔◌}
use mathlib.Core.Bool.{Bool, true, false, ◌&&◌, ◌||◌, not}
use mathlib.Core.Option.{Option, none, some}
use mathlib.Core.List.{List, [], ◌∷◌}
use native.Mathlib.Omega.{arith}
use hybrid_tls_lab.Prelude.Tests.{leb, ◌==◌, if◌then◌else◌}

abbrev pub Text : Type 0
Text = List ℕ

-- A literal.
abbrev pub codes : String → Text
codes String.[] = []
codes (String.◌∷◌ c s) = code c ∷ codes s

abbrev pub text_eq : Text → Text → Bool
text_eq [] [] = true
text_eq (a ∷ s) (b ∷ t) = (a == b) && text_eq s t
text_eq _ _ = false

-- `bool(s)`
abbrev pub is_empty : Text → Bool
is_empty [] = true
is_empty (c ∷ s) = false

-- `s or ""` of a value that may be None
abbrev pub or_empty : Option Text → Text
or_empty none = []
or_empty (some s) = s

-- `s or t`
abbrev pub or_else : Text → Text → Text
or_else [] t = t
or_else (c ∷ s) t = c ∷ s

-- `c.isspace()`
abbrev pub is_space : ℕ → Bool
is_space c =
    (leb 9 c && leb c 13)
    || (leb 28 c && leb c 32)
    || c == 0x85
    || c == 0xa0
    || c == 0x1680
    || (leb 0x2000 c && leb c 0x200a)
    || c == 0x2028
    || c == 0x2029
    || c == 0x202f
    || c == 0x205f
    || c == 0x3000

abbrev pub lower_code : ℕ → ℕ
lower_code c = if leb b'A' c && leb c b'Z' then c + 32 else c

abbrev pub upper_code : ℕ → ℕ
upper_code c = if leb b'a' c && leb c b'z' then c - 32 else c

abbrev pub lower : Text → Text
lower [] = []
lower (c ∷ s) = lower_code c ∷ lower s

abbrev pub upper : Text → Text
upper [] = []
upper (c ∷ s) = upper_code c ∷ upper s

-- `s.startswith(t)`
abbrev pub starts_with : Text → Text → Bool
starts_with s [] = true
starts_with [] (b ∷ t) = false
starts_with (a ∷ s) (b ∷ t) = (a == b) && starts_with s t

-- `t in s`
abbrev pub contains : Text → Text → Bool
contains t [] = is_empty t
contains t (c ∷ s) = starts_with (c ∷ s) t || contains t s

abbrev pub lstrip_by : (ℕ → Bool) → Text → Text
lstrip_by p [] = []
lstrip_by p (c ∷ s) = if p c then lstrip_by p s else c ∷ s

-- Puts `c` before a stripped rest.
abbrev pub strip_cons : (ℕ → Bool) → ℕ → Text → Text
strip_cons p c [] = if p c then [] else c ∷ []
strip_cons p c (d ∷ s) = c ∷ d ∷ s

abbrev pub rstrip_by : (ℕ → Bool) → Text → Text
rstrip_by p [] = []
rstrip_by p (c ∷ s) = strip_cons p c (rstrip_by p s)

abbrev pub strip_by : (ℕ → Bool) → Text → Text
strip_by p s = rstrip_by p (lstrip_by p s)

-- `s.strip()`
abbrev pub strip : Text → Text
strip = strip_by is_space

abbrev pub all_codes : (ℕ → Bool) → Text → Bool
all_codes p [] = true
all_codes p (c ∷ s) = p c && all_codes p s

abbrev pub is_digit : ℕ → Bool
is_digit c = leb b'0' c && leb c b'9'

-- `s.isdigit()`: false of the empty text
abbrev pub is_digits : Text → Bool
is_digits s = not (is_empty s) && all_codes is_digit s

-- `int(s)` of decimal digits
abbrev pub to_int_from : ℕ → Text → ℕ
to_int_from n [] = n
to_int_from n (c ∷ s) = to_int_from (n * 10 + (c - b'0')) s

abbrev pub to_int : Text → ℕ
to_int = to_int_from 0

pub text_eq_iff : (s t : Text) → (text_eq s t ≡ true) ↔ (s ≡ t)
text_eq_iff [] [] = ground arith
text_eq_iff [] (b ∷ t) = ground arith
text_eq_iff (a ∷ s) [] = ground arith
text_eq_iff (a ∷ s) (b ∷ t) = ground (arith, text_eq_iff s t)

pub text_eq_refl : (s : Text) → text_eq s s ≡ true
text_eq_refl s = (text_eq_iff s s).1 refl

strips : strip (codes " a b ") ≡ codes "a b"
strips = refl

finds : contains (codes "DSA") (codes "ECDSA-P256") ≡ true
finds = refl

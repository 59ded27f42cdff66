-- ===== src/Hndl/Digits.antt =====
-- The digits of Python's `str.isdigit`, `str.isdecimal` and `int`, by the tables of Unicode 15.
use hybrid_tls_lab.Prelude.{
  ℕ, ◌+◌, ◌-◌, ◌*◌, ◌≡◌, refl, Bool, true, false, not, ◌&&◌, ◌||◌, Option, none, some, is_some,
  List, [], ◌∷◌, leb, if◌then◌else◌, length,
}
use hybrid_tls_lab.Prelude.Text.{Text, is_empty, all_codes}

-- The zeros of the decimal digits, each with its nine after it.
abbrev zeros : List ℕ
zeros =
    0x30 ∷ 0x660 ∷ 0x6f0 ∷ 0x7c0 ∷ 0x966 ∷ 0x9e6 ∷ 0xa66 ∷ 0xae6 ∷ 0xb66 ∷ 0xbe6 ∷ 0xc66 ∷ 0xce6
    ∷ 0xd66 ∷ 0xde6 ∷ 0xe50 ∷ 0xed0 ∷ 0xf20 ∷ 0x1040 ∷ 0x1090 ∷ 0x17e0 ∷ 0x1810 ∷ 0x1946 ∷ 0x19d0
    ∷ 0x1a80 ∷ 0x1a90 ∷ 0x1b50 ∷ 0x1bb0 ∷ 0x1c40 ∷ 0x1c50 ∷ 0xa620 ∷ 0xa8d0 ∷ 0xa900 ∷ 0xa9d0
    ∷ 0xa9f0 ∷ 0xaa50 ∷ 0xabf0 ∷ 0xff10 ∷ 0x104a0 ∷ 0x10d30 ∷ 0x11066 ∷ 0x110f0 ∷ 0x11136 ∷ 0x111d0
    ∷ 0x112f0 ∷ 0x11450 ∷ 0x114d0 ∷ 0x11650 ∷ 0x116c0 ∷ 0x11730 ∷ 0x118e0 ∷ 0x11950 ∷ 0x11c50
    ∷ 0x11d50 ∷ 0x11da0 ∷ 0x11f50 ∷ 0x16a60 ∷ 0x16ac0 ∷ 0x16b50 ∷ 0x1d7ce ∷ 0x1d7d8 ∷ 0x1d7e2
    ∷ 0x1d7ec ∷ 0x1d7f6 ∷ 0x1e140 ∷ 0x1e2f0 ∷ 0x1e4f0 ∷ 0x1e950 ∷ 0x1fbf0 ∷ []

-- The first and the last of the digits that are no decimal digits, like the superscripts.
abbrev other_digits : List (ℕ × ℕ)
other_digits =
    (0xb2, 0xb3)
    ∷ (0xb9, 0xb9)
    ∷ (0x1369, 0x1371)
    ∷ (0x19da, 0x19da)
    ∷ (0x2070, 0x2070)
    ∷ (0x2074, 0x2079)
    ∷ (0x2080, 0x2089)
    ∷ (0x2460, 0x2468)
    ∷ (0x2474, 0x247c)
    ∷ (0x2488, 0x2490)
    ∷ (0x24ea, 0x24ea)
    ∷ (0x24f5, 0x24fd)
    ∷ (0x24ff, 0x24ff)
    ∷ (0x2776, 0x277e)
    ∷ (0x2780, 0x2788)
    ∷ (0x278a, 0x2792)
    ∷ (0x10a40, 0x10a43)
    ∷ (0x10e60, 0x10e68)
    ∷ (0x11052, 0x1105a)
    ∷ (0x1f100, 0x1f10a)
    ∷ []

abbrev digit_from : List ℕ → ℕ → Option ℕ
digit_from [] c = none
digit_from (z ∷ zs) c =
    let later = digit_from zs c in if leb z c && leb c (z + 9) then some (c - z) else later

abbrev pub digit_value : ℕ → Option ℕ
digit_value = digit_from zeros

abbrev in_ranges : List (ℕ × ℕ) → ℕ → Bool
in_ranges [] c = false
in_ranges ((first, last) ∷ rs) c = (leb first c && leb c last) || in_ranges rs c

-- `s.isdecimal()`
abbrev pub isdecimal : Text → Bool
isdecimal s = not (is_empty s) && all_codes (λ c. is_some (digit_value c)) s

-- `s.isdigit()`
abbrev pub isdigit : Text → Bool
isdigit s =
    not (is_empty s) && all_codes (λ c. is_some (digit_value c) || in_ranges other_digits c) s

-- The most digits that `int` reads.
abbrev max_str_digits : ℕ
max_str_digits = 4300

abbrev value_or : Option ℕ → ℕ
value_or none = 0
value_or (some n) = n

abbrev value_from : ℕ → Text → ℕ
value_from n [] = n
value_from n (c ∷ s) = value_from (n * 10 + value_or (digit_value c)) s

-- `int(s)` of a text for which `s.isdigit()` holds; none is the ValueError.
abbrev pub int_of_digits : Text → Option ℕ
int_of_digits s =
    if isdecimal s && leb (length s) max_str_digits then some (value_from 0 s) else none

arabic : int_of_digits (0x661 ∷ 0x662 ∷ []) ≡ some 12
arabic = refl

superscript : (isdigit (b'1' ∷ 0xb2 ∷ []) ≡ true) × (int_of_digits (b'1' ∷ 0xb2 ∷ []) ≡ none)
superscript = (refl, refl)

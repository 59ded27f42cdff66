-- ===== src/Prelude/Text/Decimal.antt =====
-- Python's `str` of a number, and `int` of what it writes.
use Prim.Native.Nat.{ℕ, zero, suc, ◌+◌, ◌/◌, ◌%◌, ◌^◌, ◌<◌, ◌≤◌}
use mathlib.Core.Path.{◌≡◌, refl, ◌∙◌, ap}
use mathlib.Core.Logic.{inl, inr}
use mathlib.Core.Bool.{true, false}
use mathlib.Core.List.{[], ◌∷◌}
use native.Mathlib.Omega.{arith}
use native.Mathlib.Numerals.{unary_clauses}
use hybrid_tls_lab.Prelude.Lists.{length}
use hybrid_tls_lab.Prelude.Tests.{ltb, lt→ltb, if◌then◌else◌, Bool-cases}
use hybrid_tls_lab.Prelude.Text.{
  Text, is_empty, is_digit, is_digits, all_codes, to_int_from, to_int,
}

-- A number has at most as many digits as it counts.
unfoldable pub digits_of : ℕ → ℕ → Text → Text
digits_of zero n acc = acc
digits_of (suc fuel) n acc =
    let rest = digits_of fuel (n / 10) ((b'0' + n % 10) ∷ acc) in
    if ltb n 10 then (b'0' + n) ∷ acc else rest

-- `str(n)`
abbrev pub str_of : ℕ → Text
str_of n = digits_of (suc n) n []

to_int_from-digits_of :
    (fuel n : ℕ) (acc : Text) → n < fuel → to_int_from 0 (digits_of fuel n acc) ≡ to_int_from n acc
unfolding digits_of
to_int_from-digits_of zero n acc h = ground arith
to_int_from-digits_of (suc fuel) n acc h = elim (Bool-cases (ltb n 10)) [
  | inl e ↦ rw e (ap (λ k. to_int_from k acc) (omega arith))
  | inr e ↦
      let large : 10 ≤ n = ground arith in
      rw e (
        to_int_from-digits_of fuel (n / 10) ((b'0' + n % 10) ∷ acc) (omega arith)
        ∙ ap (λ k. to_int_from k acc) (omega arith))
]

all_codes-digits_of :
    (fuel n : ℕ) (acc : Text)
    → all_codes is_digit acc ≡ true
    → all_codes is_digit (digits_of fuel n acc) ≡ true
unfolding digits_of
all_codes-digits_of zero n acc h = h
all_codes-digits_of (suc fuel) n acc h = elim (Bool-cases (ltb n 10)) [
  | inl e ↦ rw e (ground arith)
  | inr e ↦ rw e (all_codes-digits_of fuel (n / 10) ((b'0' + n % 10) ∷ acc) (ground arith))
]

is_empty-digits_of :
    (fuel n : ℕ) (acc : Text) → is_empty acc ≡ false → is_empty (digits_of fuel n acc) ≡ false
unfolding digits_of
is_empty-digits_of zero n acc h = h
is_empty-digits_of (suc fuel) n acc h = elim (Bool-cases (ltb n 10)) [
  | inl e ↦ rw e refl
  | inr e ↦ rw e (is_empty-digits_of fuel (n / 10) ((b'0' + n % 10) ∷ acc) refl)
]

is_empty-str_of : (n : ℕ) → is_empty (str_of n) ≡ false
unfolding digits_of
is_empty-str_of n = elim (Bool-cases (ltb n 10)) [
  | inl e ↦ rw e refl
  | inr e ↦ rw e (is_empty-digits_of n (n / 10) ((b'0' + n % 10) ∷ []) refl)
]

pub is_digits-str_of : (n : ℕ) → is_digits (str_of n) ≡ true
is_digits-str_of n = rw (is_empty-str_of n, all_codes-digits_of (suc n) n [] refl)

pub to_int-str_of : (n : ℕ) → to_int (str_of n) ≡ n
to_int-str_of n = to_int_from-digits_of (suc n) n [] (omega arith)

length-digits_of :
    (w fuel n : ℕ) (acc : Text)
    → n < 10 ^ suc w
    → length (digits_of fuel n acc) ≤ suc w + length acc
unfolding digits_of
length-digits_of w zero n acc h = omega arith
length-digits_of zero (suc fuel) n acc h =
    let small : ltb n 10 ≡ true = lt→ltb n 10 (omega arith) in rw small (omega arith)
length-digits_of (suc w) (suc fuel) n acc h = elim (Bool-cases (ltb n 10)) [
  | inl e ↦ rw e (omega arith)
  | inr e ↦
      let tenth : n / 10 < 10 ^ suc w =
        simp unary_clauses (omega (arith, simp unary_clauses at h)) in
      rw e (omega (arith, length-digits_of w fuel (n / 10) ((b'0' + n % 10) ∷ acc) tenth))
]

-- A number below 10 ^ w has at most w digits, and one in any case.
pub length-str_of : (w n : ℕ) → n < 10 ^ suc w → length (str_of n) ≤ suc w
length-str_of w n h = omega (arith, length-digits_of w (suc n) n [] h)

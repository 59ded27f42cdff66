-- ===== src/Prelude/Double/Bounds.antt =====
-- Rounding keeps the order with the integers.
use Prim.Native.Nat.{ℕ, zero, suc, ◌+◌, ◌*◌, ◌^◌, ◌≤◌, ◌<◌}
use mathlib.Core.Path.{◌≡◌}
use native.Mathlib.Nat.{pow-suc, zero-add, mul-le-mul, mul-le-mul_right}
use native.Mathlib.Omega.{arith}
use hybrid_tls_lab.Prelude.Tests.{lt→ltb}
use hybrid_tls_lab.Prelude.Round.{round_div-le, round_div-ge}
use hybrid_tls_lab.Prelude.Double.{Double, nearest, scale_up, mul, of_int, div_int, round}

pub two_pow_pos : (n : ℕ) → 0 < 2 ^ n
two_pow_pos zero = omega arith
two_pow_pos (suc n) = rw pow-suc (omega (arith, two_pow_pos n))

pub two_pow-add : (m n : ℕ) → 2 ^ (m + n) ≡ 2 ^ m * 2 ^ n
two_pow-add zero n = rw zero-add (omega arith)
two_pow-add (suc m) n =
    let e : suc m + n ≡ suc (m + n) = omega arith in
    rw (e, pow-suc 2 (m + n), pow-suc 2 m, two_pow-add m n) (omega arith)

mul_le_scaled : (a b k p : ℕ) → a ≤ b * k → a * p ≤ b * (k * p)
mul_le_scaled a b k p h = omega (arith, mul-le-mul_right p h)

below_digits : (a b k m : ℕ) → 0 < b → a ≤ b * k → k < m → a < b * m
below_digits a b k m pos h lt = grind arith

-- A quotient of at most `k` is rounded to at most `k`.
pub nearest-le :
    (a b k : ℕ)
    → 0 < b
    → a ≤ b * k
    → a < b * 2 ^ 53
    → (nearest a b).num ≤ k * 2 ^ (nearest a b).scale
unfolding nearest
nearest-le a b k pos h small =
    let p = 2 ^ scale_up 1074 0 a b in
    rw (lt→ltb _ _ small) (round_div-le (a * p) b (k * p) (mul_le_scaled a b k p h) pos)

scaled_le_mul : (a b k p : ℕ) → b * k ≤ a → b * (k * p) ≤ a * p
scaled_le_mul a b k p h = omega (arith, mul-le-mul_right p h)

-- A quotient of at least `k` is rounded to at least `k`.
pub nearest-ge :
    (a b k : ℕ)
    → 0 < b
    → b * k ≤ a
    → a < b * 2 ^ 53
    → k * 2 ^ (nearest a b).scale ≤ (nearest a b).num
unfolding nearest
nearest-ge a b k pos h small =
    let p = 2 ^ scale_up 1074 0 a b in
    rw (lt→ltb _ _ small) (round_div-ge (a * p) b (k * p) (scaled_le_mul a b k p h) pos)

-- The nearest integer to a value of at least `k` is at least `k`.
pub round-ge : (x : Double) (k : ℕ) → k * 2 ^ x.scale ≤ x.num → k ≤ round x
round-ge x k h = round_div-ge x.num (2 ^ x.scale) k (omega arith) (two_pow_pos x.scale)

-- The nearest integer to a value of at most `k` is at most `k`.
pub round-le : (x : Double) (k : ℕ) → x.num ≤ k * 2 ^ x.scale → round x ≤ k
round-le x k h = round_div-le x.num (2 ^ x.scale) k (omega arith) (two_pow_pos x.scale)

-- The rounded average lies in any range that the quotient lies in.
pub round-div_int_bounds :
    (sum n lo hi : ℕ)
    → 0 < n
    → n * lo ≤ sum
    → sum ≤ n * hi
    → hi < 2 ^ 53
    → (lo ≤ round (div_int sum n)) × (round (div_int sum n) ≤ hi)
round-div_int_bounds sum n lo hi pos above below small =
    let fits = below_digits sum n hi (2 ^ 53) pos below small in
    (
      round-ge _ lo (nearest-ge sum n lo pos above fits),
      round-le _ hi (nearest-le sum n hi pos below fits),
    )

mul_le_parts : (x y j k p q : ℕ) → x ≤ j * p → y ≤ k * q → x * y ≤ p * q * (j * k)
mul_le_parts x y j k p q h h' = omega (arith, mul-le-mul h h')

-- A product of factors of at most `j` and `k` is rounded to at most j * k.
pub mul-le :
    (x y : Double) (j k : ℕ)
    → x.num ≤ j * 2 ^ x.scale
    → y.num ≤ k * 2 ^ y.scale
    → j * k < 2 ^ 53
    → (mul x y).num ≤ j * k * 2 ^ (mul x y).scale
mul-le x y j k h h' small =
    let fits : x.num * y.num ≤ 2 ^ (x.scale + y.scale) * (j * k) =
      rw (two_pow-add x.scale y.scale) (mul_le_parts x.num y.num j k _ _ h h') in
    let pos = two_pow_pos (x.scale + y.scale) in
    nearest-le (x.num * y.num) (2 ^ (x.scale + y.scale)) (j * k) pos fits
      (below_digits _ _ (j * k) (2 ^ 53) pos fits small)

of_int-le : (n k : ℕ) → n ≤ k → n < 2 ^ 53 → (of_int n).num ≤ k * 2 ^ (of_int n).scale
of_int-le n k h small = nearest-le n 1 k (omega arith) (omega arith) (omega arith)

-- A share times 100, with a rounding after each operation, comes to at most 100.
pub percent-le : (t n : ℕ) → t ≤ n → 0 < n → round (mul (div_int t n) (of_int 100)) ≤ 100
percent-le t n h pos = round-le _ 100 (
    mul-le (div_int t n) (of_int 100) 1 100
      (nearest-le t n 1 pos (omega arith)
        (below_digits t n 1 (2 ^ 53) pos (omega arith) (omega arith)))
      (of_int-le 100 100 (omega arith) (omega arith)) (omega arith))

-- ===== src/Prelude/Double.antt =====
-- Python's `float`, for values that are not negative: IEEE 754 binary64 with rounding to nearest,
-- ties to even. The largest finite value is not checked for.
pub mod Bounds
pub mod Order
use Prim.Native.Nat.{ℕ, zero, suc, ◌+◌, ◌-◌, ◌*◌, ◌/◌, ◌^◌}
use mathlib.Core.Path.{◌≡◌, refl}
use hybrid_tls_lab.Prelude.Tests.{leb, ltb, ◌==◌, if◌then◌else◌}
use hybrid_tls_lab.Prelude.Round.{round_div}

-- The value num / 2 ^ scale.
pub record Double : Type 0 where
  pub num : ℕ
  pub scale : ℕ

-- The first scale from `e` on at which a / b has 53 digits, or the last scale that there is.
unfoldable pub scale_up : ℕ → ℕ → ℕ → ℕ → ℕ
scale_up zero e a b = e
scale_up (suc fuel) e a b =
    let next = scale_up fuel (e + 1) a b in if leb (b * 2 ^ 52) (a * 2 ^ e) then e else next

-- The first number of digits from `k` on that a / b has above 53.
unfoldable pub scale_down : ℕ → ℕ → ℕ → ℕ → ℕ
scale_down zero k a b = k
scale_down (suc fuel) k a b =
    let next = scale_down fuel (k + 1) a b in if ltb a (b * 2 ^ (53 + k)) then k else next

-- The float nearest to a / b: the smallest scale is 1074, and the largest exponent 971.
unfoldable pub nearest : ℕ → ℕ → Double
nearest a b =
    if ltb a (b * 2 ^ 53)
    then (let e = scale_up 1074 0 a b in record { num = round_div (a * 2 ^ e) b; scale = e })
    else (let k = scale_down 971 0 a b in
        record { num = round_div a (b * 2 ^ k) * 2 ^ k; scale = 0 })

-- `float(n)`
abbrev pub of_int : ℕ → Double
of_int n = nearest n 1

-- `a / b` of two ints
abbrev pub div_int : ℕ → ℕ → Double
div_int = nearest

abbrev pub add : Double → Double → Double
add x y = nearest (x.num * 2 ^ y.scale + y.num * 2 ^ x.scale) (2 ^ (x.scale + y.scale))

-- `x - y`, for y ≤ x
abbrev pub sub : Double → Double → Double
sub x y = nearest (x.num * 2 ^ y.scale - y.num * 2 ^ x.scale) (2 ^ (x.scale + y.scale))

abbrev pub mul : Double → Double → Double
mul x y = nearest (x.num * y.num) (2 ^ (x.scale + y.scale))

abbrev pub div : Double → Double → Double
div x y = nearest (x.num * 2 ^ y.scale) (y.num * 2 ^ x.scale)

-- `round(x)`, `math.floor(x)`, `math.ceil(x)`
abbrev pub round : Double → ℕ
round x = round_div x.num (2 ^ x.scale)

abbrev pub floor : Double → ℕ
floor x = x.num / 2 ^ x.scale

abbrev pub ceil : Double → ℕ
ceil x = (x.num + (2 ^ x.scale - 1)) / 2 ^ x.scale

-- `round(x, d)` in units of 10 ^ -d, for `unit` = 10 ^ d: the decimal nearest to the exact value.
abbrev pub round_to : ℕ → Double → ℕ
round_to unit x = round_div (unit * x.num) (2 ^ x.scale)

-- 23 / 40 * 100 is below 57.5 in floating point.
tie_missed : round (mul (div_int 23 40) (of_int 100)) ≡ 57
unfolding nearest scale_up scale_down round_div
tie_missed = refl

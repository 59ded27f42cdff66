-- ===== src/Prelude/Round.antt =====
-- Python's `round`, of a quotient of naturals: the nearest integer, the even one at a tie.
use Prim.Native.Nat.{ℕ, ◌+◌, ◌*◌, ◌/◌, ◌%◌, ◌≤◌, ◌<◌}
use mathlib.Core.Path.{◌≡◌, refl}
use mathlib.Core.Logic.{◌⊎◌, inl, inr}
use native.Mathlib.Nat.{div-add-mod, mod-lt}
use native.Mathlib.Omega.{arith}
use hybrid_tls_lab.Prelude.Tests.{ltb, ◌==◌, if◌then◌else◌}

-- Rounds `q + r / b`, for `r` below `b`.
abbrev pub round_parts : ℕ → ℕ → ℕ → ℕ
round_parts b q r =
    if ltb (2 * r) b then q else if ltb b (2 * r) then q + 1 else if q % 2 == 0 then q else q + 1

unfoldable pub round_div : ℕ → ℕ → ℕ
round_div a b = round_parts b (a / b) (a % b)

round_parts_cases :
    (b q r : ℕ) → (round_parts b q r ≡ q) × (2 * r ≤ b) ⊎ (round_parts b q r ≡ q + 1) × (b ≤ 2 * r)
round_parts_cases b q r = ground arith

round_parts_near :
    (b q r : ℕ)
    → r < b
    → (2 * (b * q + r) ≤ 2 * (b * round_parts b q r) + b)
      × (2 * (b * round_parts b q r) ≤ 2 * (b * q + r) + b)
round_parts_near b q r h = elim (round_parts_cases b q r) [
  | inl (e, small) ↦ rw e (omega arith)
  | inr (e, large) ↦ rw e (omega arith)
]

-- The result is within a half of the quotient.
pub round_div_near :
    (a b : ℕ)
    → 0 < b
    → (2 * a ≤ 2 * (b * round_div a b) + b) × (2 * (b * round_div a b) ≤ 2 * a + b)
unfolding round_div
round_div_near a b h = rw (div-add-mod a b) at (round_parts_near b (a / b) (a % b) (mod-lt a h))

-- A quotient of at most `k` is rounded to at most `k`.
pub round_div-le : (a b k : ℕ) → a ≤ b * k → 0 < b → round_div a b ≤ k
round_div-le a b k h p = grind (arith, round_div_near a b p)

-- A quotient of at least `k` is rounded to at least `k`.
pub round_div-ge : (a b k : ℕ) → b * k ≤ a → 0 < b → k ≤ round_div a b
round_div-ge a b k h p = grind (arith, round_div_near a b p)

ties : (round_div 5 2 ≡ 2) × (round_div 7 2 ≡ 4) × (round_div 8 3 ≡ 3)
unfolding round_div
ties = (refl, refl, refl)

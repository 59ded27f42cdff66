-- ===== src/Prelude/Double/Order.antt =====
-- The order of floats, the sort by it, and the integer parts of a rounded quotient.
use Prim.Native.Nat.{ℕ, suc, ◌+◌, ◌-◌, ◌*◌, ◌^◌, ◌≤◌, ◌<◌}
use mathlib.Core.Path.{◌≡◌, refl}
use mathlib.Core.Bool.{Bool, true, false}
use mathlib.Core.Logic.{inl, inr}
use mathlib.Core.List.Perm
use mathlib.Core.List.{List, [], ◌∷◌, Perm}
use native.Mathlib.Nat.{div-lt_iff_lt-mul, le-div_iff_mul-le, le_antisymm}
use native.Mathlib.Omega.{arith}
use hybrid_tls_lab.Prelude.Tests.{leb, if◌then◌else◌, Bool-cases}
use hybrid_tls_lab.Prelude.Lists.{length}
use hybrid_tls_lab.Prelude.Double.{Double, nearest, floor, ceil}
use hybrid_tls_lab.Prelude.Double.Bounds.{two_pow_pos, nearest-le, nearest-ge}

-- `x <= y`
abbrev pub double_leb : Double → Double → Bool
double_leb x y = leb (x.num * 2 ^ y.scale) (y.num * 2 ^ x.scale)

unfoldable pub insert_asc : Double → List Double → List Double
insert_asc x [] = x ∷ []
insert_asc x (y ∷ ys) = if double_leb x y then x ∷ y ∷ ys else y ∷ insert_asc x ys

-- `sorted(xs)`
unfoldable pub sorted : List Double → List Double
sorted [] = []
sorted (x ∷ xs) = insert_asc x (sorted xs)

insert_asc-perm : (x : Double) (xs : List Double) → Perm (insert_asc x xs) (x ∷ xs)
unfolding insert_asc
insert_asc-perm x [] = Perm.rfl
insert_asc-perm x (y ∷ ys) = elim (Bool-cases (double_leb x y)) [
  | inl e ↦ rw e Perm.rfl
  | inr e ↦ rw e (Perm.trans (Perm.cons y (insert_asc-perm x ys)) (Perm.swap x y ys))
]

pub sorted-perm : (xs : List Double) → Perm (sorted xs) xs
unfolding sorted
sorted-perm [] = Perm.rfl
sorted-perm (x ∷ xs) = Perm.trans (insert_asc-perm x (sorted xs)) (Perm.cons x (sorted-perm xs))

length-insert_asc : (x : Double) (xs : List Double) → length (insert_asc x xs) ≡ suc (length xs)
unfolding insert_asc
length-insert_asc x [] = refl
length-insert_asc x (y ∷ ys) = ground (arith, length-insert_asc x ys)

pub length-sorted : (xs : List Double) → length (sorted xs) ≡ length xs
unfolding sorted
length-sorted [] = refl
length-sorted (x ∷ xs) = omega (arith, length-insert_asc x (sorted xs), length-sorted xs)

-- Each value is at most the next one.
abbrev pub IsAscending : List Double → Type 0
IsAscending [] = Unit
IsAscending (x ∷ []) = Unit
IsAscending (x ∷ y ∷ ys) = (double_leb x y ≡ true) × IsAscending (y ∷ ys)

double_leb_total : (x y : Double) → double_leb x y ≡ false → double_leb y x ≡ true
double_leb_total x y h = ground arith

insert_asc-IsAscending :
    (x : Double) (xs : List Double) → IsAscending xs → IsAscending (insert_asc x xs)
unfolding insert_asc
insert_asc-IsAscending x [] h = tt
insert_asc-IsAscending x (y ∷ []) h = elim (Bool-cases (double_leb x y)) [
  | inl e ↦ rw e (e, tt)
  | inr e ↦ rw e (double_leb_total x y e, tt)
]
insert_asc-IsAscending x (y ∷ z ∷ zs) h = elim (Bool-cases (double_leb x y)) [
  | inl e ↦ rw e (e, h)
  | inr e ↦ rw e (elim (Bool-cases (double_leb x z)) [
    | inl e' ↦ rw e' (double_leb_total x y e, (e', h.1))
    | inr e' ↦ rw e' (h.0, rw e' at (insert_asc-IsAscending x (z ∷ zs) h.1))
  ])
]

pub sorted-IsAscending : (xs : List Double) → IsAscending (sorted xs)
unfolding sorted
sorted-IsAscending [] = tt
sorted-IsAscending (x ∷ xs) = insert_asc-IsAscending x (sorted xs) (sorted-IsAscending xs)

pub floor-le : (x : Double) (k : ℕ) → x.num ≤ k * 2 ^ x.scale → floor x ≤ k
floor-le x k h =
    let p = two_pow_pos x.scale in
    omega (arith, (div-lt_iff_lt-mul {k = 2 ^ x.scale} {x = x.num} {y = k + 1} p).1 (omega arith))

pub floor-ge : (x : Double) (k : ℕ) → k * 2 ^ x.scale ≤ x.num → k ≤ floor x
floor-ge x k h = (le-div_iff_mul-le (two_pow_pos x.scale)).1 h

pub ceil-le : (x : Double) (k : ℕ) → x.num ≤ k * 2 ^ x.scale → ceil x ≤ k
ceil-le x k h =
    let p = two_pow_pos x.scale in
    omega (
      arith,
      (div-lt_iff_lt-mul {k = 2 ^ x.scale} {x = x.num + (2 ^ x.scale - 1)} {y = k + 1} p).1
          (omega arith),
    )

pub ceil-ge : (x : Double) (k : ℕ) → k * 2 ^ x.scale ≤ x.num → k ≤ ceil x
ceil-ge x k h = (le-div_iff_mul-le (two_pow_pos x.scale)).1 (omega arith)

module _ (a b k : ℕ) (pos : 0 < b) (small : a < b * 2 ^ 53) where
  -- Both integer parts of a quotient of at most `k` are at most `k`.
  pub parts-le : a ≤ b * k → (floor (nearest a b) ≤ k) × (ceil (nearest a b) ≤ k)
  parts-le h = let le = nearest-le a b k pos h small in (floor-le _ k le, ceil-le _ k le)

  -- Both integer parts of an exact quotient are the quotient.
  pub parts-eq : a ≡ b * k → (floor (nearest a b) ≡ k) × (ceil (nearest a b) ≡ k)
  parts-eq e =
      let le = nearest-le a b k pos (omega arith) small in
      let ge = nearest-ge a b k pos (omega arith) small in
      (
        le_antisymm (floor-le _ k le) (floor-ge _ k ge),
        le_antisymm (ceil-le _ k le) (ceil-ge _ k ge),
      )

-- ===== src/Prelude/Perm.antt =====
-- Counts do not depend on the order of a list.
use Prim.Native.Nat.{ℕ, ◌+◌}
use native.Mathlib.Nat.{ℕ_set}
use mathlib.Core.Path.{◌≡◌, refl, ap, ◌∙◌}
use mathlib.Core.Logic.{∥∥₁_elim}
use mathlib.Core.Bool.{Bool, true}
use mathlib.Core.List.{List, [], ◌∷◌, Perm, Permᴰ}
use native.Mathlib.Omega.{arith}
use hybrid_tls_lab.Prelude.Tests.{if◌then◌else◌}
use hybrid_tls_lab.Prelude.Lists.{length, count_if}

module _ {ℓ} {A : Type ℓ} (p : A → Bool) where
  abbrev one_if : A → ℕ
  one_if x = if p x then 1 else 0

  count_if-Permᴰ : {xs ys : List A} → Permᴰ xs ys → count_if p xs ≡ count_if p ys
  count_if-Permᴰ Permᴰ.nil = refl
  count_if-Permᴰ (Permᴰ.cons e d) = λ i. one_if (e i) + count_if-Permᴰ d i
  count_if-Permᴰ (Permᴰ.swap e e') = omega (arith, ap one_if e, ap one_if e')
  count_if-Permᴰ (Permᴰ.trans d d') = count_if-Permᴰ d ∙ count_if-Permᴰ d'

  pub count_if-Perm : {xs ys : List A} → Perm xs ys → count_if p xs ≡ count_if p ys
  count_if-Perm {xs} {ys} h = ∥∥₁_elim h (ℕ_set (count_if p xs) (count_if p ys)) count_if-Permᴰ

count_if-true {ℓ} : {A : Type ℓ} (xs : List A) → count_if (λ x. true) xs ≡ length xs
count_if-true [] = refl
count_if-true (x ∷ xs) = omega (arith, count_if-true xs)

pub length-Perm {ℓ} : {A : Type ℓ} {xs ys : List A} → Perm xs ys → length xs ≡ length ys
length-Perm {xs = xs} {ys = ys} h =
    omega (arith, count_if-Perm (λ x. true) h, count_if-true xs, count_if-true ys)

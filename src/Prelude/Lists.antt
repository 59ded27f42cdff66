-- ===== src/Prelude/Lists.antt =====
-- Comprehensions, counts and sums over lists, by native numbers.
use Prim.Native.Nat.{ℕ, zero, suc, ◌+◌, ◌*◌, ◌≤◌, ◌<◌}
use mathlib.Core.Path.{◌≡◌, refl, ap}
use mathlib.Core.Bool.{Bool, not}
use mathlib.Core.Option.{Option, none, some}
use mathlib.Core.List.{List, [], ◌∷◌, ◌++◌, map}
use native.Mathlib.Omega.{arith}
use hybrid_tls_lab.Prelude.Tests.{if◌then◌else◌}

module _ {ℓ} {A : Type ℓ} where
  abbrev pub length : List A → ℕ
  length [] = 0
  length (x ∷ xs) = suc (length xs)

  abbrev pub take : ℕ → List A → List A
  take zero xs = []
  take (suc n) [] = []
  take (suc n) (x ∷ xs) = x ∷ take n xs

  abbrev pub get_or : List A → ℕ → A → A
  get_or [] i d = d
  get_or (x ∷ xs) zero d = x
  get_or (x ∷ xs) (suc i) d = get_or xs i d

  -- `xs[i]`, none for the IndexError
  abbrev pub get_elem? : List A → ℕ → Option A
  get_elem? [] i = none
  get_elem? (x ∷ xs) zero = some x
  get_elem? (x ∷ xs) (suc i) = get_elem? xs i

  pub get_elem?_in_range :
      (xs : List A) (i : ℕ) → i < length xs → (x : A) × (get_elem? xs i ≡ some x)
  get_elem?_in_range [] i h = absurd (omega arith)
  get_elem?_in_range (x ∷ xs) zero h = (x, refl)
  get_elem?_in_range (x ∷ xs) (suc i) h = get_elem?_in_range xs i (omega arith)

  -- `[x for x in xs if p(x)]`
  abbrev pub keep : (A → Bool) → List A → List A
  keep p [] = []
  keep p (x ∷ xs) = if p x then x ∷ keep p xs else keep p xs

  -- `sum(1 for x in xs if p(x))`
  abbrev pub count_if : (A → Bool) → List A → ℕ
  count_if p [] = 0
  count_if p (x ∷ xs) = (if p x then 1 else 0) + count_if p xs

  -- `sum(f(x) for x in xs)`
  abbrev pub sum_of : (A → ℕ) → List A → ℕ
  sum_of f [] = 0
  sum_of f (x ∷ xs) = f x + sum_of f xs

  -- A predicate that holds of every element.
  abbrev pub All {κ} : (A → Type κ) → List A → Type κ
  All P [] = Unit
  All P (x ∷ xs) = P x × All P xs

  -- `next((x for x in xs if p(x)), None)`
  abbrev pub first_where : (A → Bool) → List A → Option A
  first_where p [] = none
  first_where p (x ∷ xs) = if p x then some x else first_where p xs

  pub take_of_le : (n : ℕ) (xs : List A) → length xs ≤ n → take n xs ≡ xs
  take_of_le zero [] h = refl
  take_of_le zero (x ∷ xs) h = absurd (omega arith)
  take_of_le (suc n) [] h = refl
  take_of_le (suc n) (x ∷ xs) h = ap (◌∷◌ x) (take_of_le n xs (omega arith))

  pub length-take : (n : ℕ) (xs : List A) → length (take n xs) ≤ n
  length-take zero xs = omega arith
  length-take (suc n) [] = omega arith
  length-take (suc n) (x ∷ xs) = omega (arith, length-take n xs)

  pub length-take-le : (n : ℕ) (xs : List A) → length (take n xs) ≤ length xs
  length-take-le zero xs = omega arith
  length-take-le (suc n) [] = omega arith
  length-take-le (suc n) (x ∷ xs) = omega (arith, length-take-le n xs)

  pub length-append : (xs ys : List A) → length (xs ++ ys) ≡ length xs + length ys
  length-append [] ys = omega arith
  length-append (x ∷ xs) ys = omega (arith, length-append xs ys)

  pub length-keep : (p : A → Bool) (xs : List A) → length (keep p xs) ≡ count_if p xs
  length-keep p [] = refl
  length-keep p (x ∷ xs) = ground (arith, length-keep p xs)

  pub count_if-le-length : (p : A → Bool) (xs : List A) → count_if p xs ≤ length xs
  count_if-le-length p [] = omega arith
  count_if-le-length p (x ∷ xs) = ground (arith, count_if-le-length p xs)

  pub count_if-add-not :
      (p : A → Bool) (xs : List A) → count_if p xs + count_if (λ x. not (p x)) xs ≡ length xs
  count_if-add-not p [] = refl
  count_if-add-not p (x ∷ xs) = ground (arith, count_if-add-not p xs)

  pub sum_of-le :
      (f : A → ℕ) (k : ℕ) (xs : List A) → All (λ x. f x ≤ k) xs → sum_of f xs ≤ length xs * k
  sum_of-le f k [] h = omega arith
  sum_of-le f k (x ∷ xs) h = omega (arith, sum_of-le f k xs h.1)

  pub le-sum_of :
      (f : A → ℕ) (k : ℕ) (xs : List A) → All (λ x. k ≤ f x) xs → length xs * k ≤ sum_of f xs
  le-sum_of f k [] h = omega arith
  le-sum_of f k (x ∷ xs) h = omega (arith, le-sum_of f k xs h.1)

pub length-map {ℓ κ} :
    {A : Type ℓ} {B : Type κ} (f : A → B) (xs : List A) → length (map f xs) ≡ length xs
length-map f [] = refl
length-map f (x ∷ xs) = ap suc (length-map f xs)

pub All-imp {ℓ κ μ} :
    {A : Type ℓ} {P : A → Type κ} {Q : A → Type μ} (xs : List A)
    → ((x : A) → P x → Q x)
    → All P xs
    → All Q xs
All-imp [] f h = tt
All-imp (x ∷ xs) f h = (f x h.0, All-imp xs f h.1)

pub All-map {ℓ κ μ} :
    {A : Type ℓ} {B : Type κ} (Q : B → Type μ) (g : A → B) (xs : List A)
    → All (λ x. Q (g x)) xs
    → All Q (map g xs)
All-map Q g [] h = tt
All-map Q g (x ∷ xs) h = (h.0, All-map Q g xs h.1)

pub All-of_map {ℓ κ μ} :
    {A : Type ℓ} {B : Type κ} (Q : B → Type μ) (g : A → B) (xs : List A)
    → All Q (map g xs)
    → All (λ x. Q (g x)) xs
All-of_map Q g [] h = tt
All-of_map Q g (x ∷ xs) h = (h.0, All-of_map Q g xs h.1)

pub All-and {ℓ κ μ} :
    {A : Type ℓ} (P : A → Type κ) (Q : A → Type μ) (xs : List A)
    → All P xs
    → All Q xs
    → All (λ x. P x × Q x) xs
All-and P Q [] h k = tt
All-and P Q (x ∷ xs) h k = ((h.0, k.0), All-and P Q xs h.1 k.1)

-- ===== src/Prelude/Sort.antt =====
-- Python's stable `list.sort`, descending by a natural key: insertion from the right, where an
-- element goes before those with an equal key that came after it.
use Prim.Native.Nat.{ℕ, suc, ◌≤◌}
use mathlib.Core.Path.{◌≡◌, refl}
use mathlib.Core.Bool.{Bool}
use mathlib.Core.Logic.{inl, inr}
use mathlib.Core.List.Perm
use mathlib.Core.List.{List, [], ◌∷◌, Perm}
use native.Mathlib.Omega.{arith}
use hybrid_tls_lab.Prelude.Tests.{leb, ◌==◌, if◌then◌else◌, Bool-cases, leb→le}
use hybrid_tls_lab.Prelude.Lists.{keep, All, length, count_if}

module _ {ℓ} {A : Type ℓ} (key : A → ℕ) where
  unfoldable pub insert_desc : A → List A → List A
  insert_desc x [] = x ∷ []
  insert_desc x (y ∷ ys) = if leb (key y) (key x) then x ∷ y ∷ ys else y ∷ insert_desc x ys

  unfoldable pub sort_desc : List A → List A
  unfolding insert_desc
  sort_desc [] = []
  sort_desc (x ∷ xs) = insert_desc x (sort_desc xs)

  -- Keys fall along the list.
  abbrev pub IsDescending : List A → Type 0
  IsDescending [] = Unit
  IsDescending (x ∷ xs) = All (λ y. key y ≤ key x) xs × IsDescending xs

  insert_desc-perm : (x : A) (xs : List A) → Perm (insert_desc x xs) (x ∷ xs)
  unfolding insert_desc
  insert_desc-perm x [] = Perm.rfl
  insert_desc-perm x (y ∷ ys) = elim (Bool-cases (leb (key y) (key x))) [
    | inl e ↦ rw e Perm.rfl
    | inr e ↦ rw e (Perm.trans (Perm.cons y (insert_desc-perm x ys)) (Perm.swap x y ys))
  ]

  pub sort_desc-perm : (xs : List A) → Perm (sort_desc xs) xs
  unfolding sort_desc
  sort_desc-perm [] = Perm.rfl
  sort_desc-perm (x ∷ xs) =
      Perm.trans (insert_desc-perm x (sort_desc xs)) (Perm.cons x (sort_desc-perm xs))

  All-le : (a b : ℕ) (xs : List A) → a ≤ b → All (λ y. key y ≤ a) xs → All (λ y. key y ≤ b) xs
  All-le a b [] h all = tt
  All-le a b (x ∷ xs) h all = (omega arith, All-le a b xs h all.1)

  insert_desc-All :
      (k : ℕ) (x : A) (xs : List A)
      → key x ≤ k
      → All (λ y. key y ≤ k) xs
      → All (λ y. key y ≤ k) (insert_desc x xs)
  unfolding insert_desc
  insert_desc-All k x [] h all = (h, tt)
  insert_desc-All k x (y ∷ ys) h all = ground (arith, insert_desc-All k x ys h all.1)

  insert_desc-IsDescending :
      (x : A) (xs : List A) → IsDescending xs → IsDescending (insert_desc x xs)
  unfolding insert_desc
  insert_desc-IsDescending x [] h = (tt, tt)
  insert_desc-IsDescending x (y ∷ ys) h = elim (Bool-cases (leb (key y) (key x))) [
    | inl e ↦ rw e ((leb→le _ _ e, All-le (key y) (key x) ys (leb→le _ _ e) h.0), h)
    | inr e ↦
        rw e (insert_desc-All (key y) x ys (ground arith) h.0, insert_desc-IsDescending x ys h.1)
  ]

  pub sort_desc-IsDescending : (xs : List A) → IsDescending (sort_desc xs)
  unfolding sort_desc
  sort_desc-IsDescending [] = tt
  sort_desc-IsDescending (x ∷ xs) =
      insert_desc-IsDescending x (sort_desc xs) (sort_desc-IsDescending xs)

  insert_desc-All_of {κ} :
      (P : A → Type κ) (x : A) (xs : List A) → P x → All P xs → All P (insert_desc x xs)
  unfolding insert_desc
  insert_desc-All_of P x [] h all = (h, tt)
  insert_desc-All_of P x (y ∷ ys) h all = elim (Bool-cases (leb (key y) (key x))) [
    | inl e ↦ rw e (h, all)
    | inr e ↦ rw e (all.0, insert_desc-All_of P x ys h all.1)
  ]

  pub sort_desc-All {κ} : (P : A → Type κ) (xs : List A) → All P xs → All P (sort_desc xs)
  unfolding sort_desc
  sort_desc-All P [] all = tt
  sort_desc-All P (x ∷ xs) all =
      insert_desc-All_of P x (sort_desc xs) all.0 (sort_desc-All P xs all.1)

  abbrev pub with_key : ℕ → List A → List A
  with_key k = keep (λ y. key y == k)

  insert_desc-stable :
      (k : ℕ) (x : A) (xs : List A) → with_key k (insert_desc x xs) ≡ with_key k (x ∷ xs)
  unfolding insert_desc
  insert_desc-stable k x [] = refl
  insert_desc-stable k x (y ∷ ys) = ground (arith, insert_desc-stable k x ys)

  pub sort_desc-stable : (k : ℕ) (xs : List A) → with_key k (sort_desc xs) ≡ with_key k xs
  unfolding sort_desc
  sort_desc-stable k [] = refl
  sort_desc-stable k (x ∷ xs) =
      ground (arith, insert_desc-stable k x (sort_desc xs), sort_desc-stable k xs)

  length-insert_desc : (x : A) (xs : List A) → length (insert_desc x xs) ≡ suc (length xs)
  unfolding insert_desc
  length-insert_desc x [] = refl
  length-insert_desc x (y ∷ ys) = ground (arith, length-insert_desc x ys)

  pub length-sort_desc : (xs : List A) → length (sort_desc xs) ≡ length xs
  unfolding sort_desc
  length-sort_desc [] = refl
  length-sort_desc (x ∷ xs) =
      omega (arith, length-insert_desc x (sort_desc xs), length-sort_desc xs)

  count_if-insert_desc :
      (p : A → Bool) (x : A) (xs : List A) → count_if p (insert_desc x xs) ≡ count_if p (x ∷ xs)
  unfolding insert_desc
  count_if-insert_desc p x [] = refl
  count_if-insert_desc p x (y ∷ ys) = ground (arith, count_if-insert_desc p x ys)

  pub count_if-sort_desc : (p : A → Bool) (xs : List A) → count_if p (sort_desc xs) ≡ count_if p xs
  unfolding sort_desc
  count_if-sort_desc p [] = refl
  count_if-sort_desc p (x ∷ xs) =
      omega (arith, count_if-insert_desc p x (sort_desc xs), count_if-sort_desc p xs)

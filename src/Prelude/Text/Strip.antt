-- ===== src/Prelude/Text/Strip.antt =====
-- Laws of `strip` for any set of characters.
use hybrid_tls_lab.Prelude.Text.{Text, strip_cons, lstrip_by, rstrip_by, strip_by, is_space, strip}
use hybrid_tls_lab.Prelude.Tests.{Bool-cases}
use Prim.Native.Nat.{ℕ}
use mathlib.Core.Path.{◌≡◌, refl, ap, ◌∙◌}
use mathlib.Core.Logic.{inl, inr}
use mathlib.Core.Bool.{Bool, false}
use mathlib.Core.List.{[], ◌∷◌, ◌++◌}

module _ (p : ℕ → Bool) where
  -- No character of the set stands first.
  abbrev pub IsBare : Text → Type 0
  IsBare [] = Unit
  IsBare (c ∷ s) = p c ≡ false

  lstrip_by-IsBare : (s : Text) → IsBare (lstrip_by p s)
  lstrip_by-IsBare [] = tt
  lstrip_by-IsBare (c ∷ s) = elim (Bool-cases (p c)) [
    | inl e ↦ rw e (lstrip_by-IsBare s)
    | inr e ↦ rw e e
  ]

  pub lstrip_by_of_IsBare : (s : Text) → IsBare s → lstrip_by p s ≡ s
  lstrip_by_of_IsBare [] h = refl
  lstrip_by_of_IsBare (c ∷ s) h = rw h

  strip_cons-IsBare : (c : ℕ) (s : Text) → p c ≡ false → IsBare (strip_cons p c s)
  strip_cons-IsBare c [] h = rw h h
  strip_cons-IsBare c (d ∷ s) h = h

  rstrip_by-IsBare : (s : Text) → IsBare s → IsBare (rstrip_by p s)
  rstrip_by-IsBare [] h = tt
  rstrip_by-IsBare (c ∷ s) h = strip_cons-IsBare c (rstrip_by p s) h

  rstrip_by-strip_cons :
      (c : ℕ) (s : Text) → rstrip_by p s ≡ s → rstrip_by p (strip_cons p c s) ≡ strip_cons p c s
  rstrip_by-strip_cons c [] h = elim (Bool-cases (p c)) [ inl e ↦ rw e | inr e ↦ rw (e, e) ]
  rstrip_by-strip_cons c (d ∷ s) h = ap (strip_cons p c) h

  rstrip_by_idem : (s : Text) → rstrip_by p (rstrip_by p s) ≡ rstrip_by p s
  rstrip_by_idem [] = refl
  rstrip_by_idem (c ∷ s) = rstrip_by-strip_cons c (rstrip_by p s) (rstrip_by_idem s)

  pub strip_by_idem : (s : Text) → strip_by p (strip_by p s) ≡ strip_by p s
  strip_by_idem s =
      rw (lstrip_by_of_IsBare _ (rstrip_by-IsBare _ (lstrip_by-IsBare s)))
        (rstrip_by_idem (lstrip_by p s))

  cons_snoc : (d : ℕ) (s : Text) (c : ℕ) → strip_cons p d (s ++ c ∷ []) ≡ d ∷ (s ++ c ∷ [])
  cons_snoc d [] c = refl
  cons_snoc d (e ∷ s) c = refl

  rstrip_by-snoc : (s : Text) (c : ℕ) → p c ≡ false → rstrip_by p (s ++ c ∷ []) ≡ s ++ c ∷ []
  rstrip_by-snoc [] c h = rw h
  rstrip_by-snoc (d ∷ s) c h = ap (strip_cons p d) (rstrip_by-snoc s c h) ∙ cons_snoc d s c

  -- A text with no character of the set at either end stays as it is.
  pub strip_by_of_ends :
      (d c : ℕ) (s : Text)
      → p d ≡ false
      → p c ≡ false
      → strip_by p (d ∷ (s ++ c ∷ [])) ≡ d ∷ (s ++ c ∷ [])
  strip_by_of_ends d c s h h' =
      ap (rstrip_by p) (lstrip_by_of_IsBare (d ∷ (s ++ c ∷ [])) h) ∙ rstrip_by-snoc (d ∷ s) c h'

pub strip_idem : (s : Text) → strip (strip s) ≡ strip s
strip_idem = strip_by_idem is_space

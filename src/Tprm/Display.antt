-- ===== src/Tprm/Display.antt =====
-- What `pqc_display` shows, against what `yn` reads.
use hybrid_tls_lab.Prelude.{
  ◌≡◌, refl, inl, inr, arith, Option, none, some, false, not, [], ◌∷◌, Bool-cases,
}
use hybrid_tls_lab.Prelude.Text.{
  Text, codes, text_eq, or_empty, is_empty, strip, lstrip_by, is_space,
}
use hybrid_tls_lab.Prelude.Text.Strip.{strip_idem}
use hybrid_tls_lab.Tprm.{yn, yes_with, yes_display, match_yes, pqc_display, group, parens}

pub yn-strip : (s : Option Text) → yn (some (strip (or_empty s))) ≡ yn s
unfolding yn
yn-strip s = rw (strip_idem (or_empty s))

yes_display-ne-no :
    (m : Option Text) (provider : Text) → text_eq (yes_display m provider) (codes "No") ≡ false
unfolding yes_display
yes_display-ne-no (some g) provider = refl
yes_display-ne-no none provider = ground arith

-- The display is "No" for the values that `yn` denies, and for no others.
pub text_eq-pqc_display-no :
    (raw provider : Option Text) → text_eq (pqc_display raw provider) (codes "No") ≡ not (yn raw)
unfolding pqc_display
text_eq-pqc_display-no raw provider = elim (Bool-cases (yn raw)) [
  | inl e ↦ rw (yn-strip raw, e) (yes_display-ne-no _ _)
  | inr e ↦ rw (yn-strip raw, e)
]

-- The texts that `pqc_display` makes.
pub data IsPqcDisplay : Text → Type 0 where
  no_pqc : IsPqcDisplay (codes "No")
  pqc : IsPqcDisplay (codes "Yes")
  pqc_of : (x : Text) → is_empty x ≡ false → IsPqcDisplay (yes_with x)

group-is_empty : (s : Text) {g : Text} → group s ≡ some g → is_empty g ≡ false
group-is_empty [] h = cc
group-is_empty (c ∷ s) h = ground arith

parens-is_empty : (s : Text) {g : Text} → parens s ≡ some g → is_empty g ≡ false
parens-is_empty [] h = cc
parens-is_empty (c ∷ s) h = ground (arith, group-is_empty s)

match_yes-is_empty : (s : Text) {g : Text} → match_yes s ≡ some g → is_empty g ≡ false
unfolding match_yes
match_yes-is_empty [] h = cc
match_yes-is_empty (y ∷ []) h = cc
match_yes-is_empty (y ∷ e ∷ []) h = cc
match_yes-is_empty (y ∷ e ∷ s ∷ rest) {g} h =
    ground (arith, parens-is_empty (lstrip_by is_space rest) {g = g})

yes_display-IsPqcDisplay :
    (m : Option Text) (provider : Text)
    → ((g : Text) → m ≡ some g → is_empty g ≡ false)
    → IsPqcDisplay (yes_display m provider)
unfolding yes_display
yes_display-IsPqcDisplay (some g) provider h = pqc_of g (h g refl)
yes_display-IsPqcDisplay none provider h = elim (Bool-cases (is_empty provider)) [
  | inl e ↦ rw e pqc
  | inr e ↦ elim (Bool-cases (is_empty (strip provider))) [
    | inl blank ↦ rw (e, blank) pqc
    | inr named ↦ rw (e, named) (pqc_of (strip provider) named)
  ]
]

-- For any two fields the display is "No", "Yes", or "Yes (x)" with an x that is not empty.
pub pqc_display-IsPqcDisplay :
    (raw provider : Option Text) → IsPqcDisplay (pqc_display raw provider)
unfolding pqc_display
pqc_display-IsPqcDisplay raw provider = elim (Bool-cases (yn (some (strip (or_empty raw))))) [
  | inl e ↦ rw e (yes_display-IsPqcDisplay _ _ (λ g. match_yes-is_empty _))
  | inr e ↦ rw e no_pqc
]

-- ===== src/Cbom/Kem.antt =====
-- The name of the KEM, from the display of a vendor with a provider.
use hybrid_tls_lab.Prelude.{
  ℕ, ◌≡◌, refl, ap, ◌∙◌, inl, inr, arith, Bool, true, false, [], ◌∷◌, ◌++◌, Bool-cases,
}
use hybrid_tls_lab.Prelude.Text.{
  Text, codes, or_else, starts_with, contains, rstrip_by, strip_by, strip_cons,
}
use hybrid_tls_lab.Tprm.{yes_with}
use hybrid_tls_lab.Cbom.{remove_yes, is_kem_trim, unspecified_kem, kem_name}

starts_with-snoc :
    (s : Text)
    → starts_with s (codes "Yes") ≡ false
    → starts_with (s ++ codes ")") (codes "Yes") ≡ false
starts_with-snoc [] h = refl
starts_with-snoc (a ∷ []) h = ground arith
starts_with-snoc (a ∷ b ∷ []) h = ground arith
starts_with-snoc (a ∷ b ∷ c ∷ s) h = ground arith

-- A text without "Yes" is left as it is, also before a closing parenthesis.
remove_yes-snoc :
    (s : Text) → contains (codes "Yes") s ≡ false → remove_yes 0 (s ++ codes ")") ≡ s ++ codes ")"
unfolding remove_yes
remove_yes-snoc [] h = refl
remove_yes-snoc (c ∷ s) h = elim (Bool-cases (starts_with (c ∷ s) (codes "Yes"))) [
  | inl e ↦ absurd (ground (arith, e))
  | inr e ↦
      let later : contains (codes "Yes") s ≡ false = rw e at h in
      rw (starts_with-snoc (c ∷ s) e, remove_yes) (ap (◌∷◌ c) (remove_yes-snoc s later))
]

module _ (p : ℕ → Bool) (c : ℕ) (trimmed : p c ≡ true) where
  rstrip_by-drop : (s : Text) → rstrip_by p (s ++ c ∷ []) ≡ rstrip_by p s
  rstrip_by-drop [] = rw trimmed
  rstrip_by-drop (d ∷ s) = ap (strip_cons p d) (rstrip_by-drop s)

  strip_by-drop : (s : Text) → strip_by p (s ++ c ∷ []) ≡ strip_by p s
  strip_by-drop [] = rw trimmed
  strip_by-drop (d ∷ s) = elim (Bool-cases (p d)) [
    | inl e ↦ rw e (strip_by-drop s)
    | inr e ↦ rw e (ap (strip_cons p d) (rstrip_by-drop s))
  ]

-- For a provider that does not contain "Yes", the name of the KEM is the provider without the
-- spaces and parentheses at its ends, its own closing ones included; where nothing is left it is
-- the text for an unspecified parameter set.
pub kem_name-yes_with :
    (x : Text)
    → contains (codes "Yes") x ≡ false
    → kem_name (yes_with x) ≡ or_else (strip_by is_kem_trim x) unspecified_kem
unfolding kem_name remove_yes
kem_name-yes_with x h =
    ap (λ s. or_else (strip_by is_kem_trim s) unspecified_kem) (remove_yes-snoc x h)
    ∙ ap (λ s. or_else s unspecified_kem) (strip_by-drop is_kem_trim b')' refl x)

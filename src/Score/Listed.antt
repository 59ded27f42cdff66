-- ===== src/Score/Listed.antt =====
-- The posture of a row that the scan output does not cover: it comes from the displayed columns.
use hybrid_tls_lab.Prelude.{
  ◌≡◌, refl, sym, ◌∙◌, ap, ◌↔◌, arith, Bool, true, false, Option, none, ◌++◌,
}
use hybrid_tls_lab.Prelude.Text.{Text, codes, strip, is_space}
use hybrid_tls_lab.Prelude.Text.Strip.{strip_by_of_ends}
use hybrid_tls_lab.Tprm.{Vendor, tier1, yes_no, yes_with}
use hybrid_tls_lab.Tprm.Display.{IsPqcDisplay, no_pqc, pqc, pqc_of}
use hybrid_tls_lab.Tprm.Tiers.{IsDerived, shown, tier_of_rule}
use hybrid_tls_lab.Hndl.{HndlInput}
use hybrid_tls_lab.Score.Formula
use hybrid_tls_lab.Score.Formula.{Posture, yes_text}
use hybrid_tls_lab.Score.{no_scan, posture_of, score_row}

yes_text-yes_no : (b : Bool) → yes_text (yes_no b) ≡ b
unfolding yes_text
yes_text-yes_no true = refl
yes_text-yes_no false = refl

strip-yes_with : (x : Text) → strip (yes_with x) ≡ yes_with x
strip-yes_with x = strip_by_of_ends is_space b'Y' b')' (codes "es (" ++ x) refl refl

-- A provider in the display hides the `Yes` from `_yes`.
yes_text-yes_with : (x : Text) → yes_text (yes_with x) ≡ false
unfolding yes_text
yes_text-yes_with x = rw (strip-yes_with x)

yes_text-IsPqcDisplay : {s : Text} → IsPqcDisplay s → (yes_text s ≡ true) ↔ (s ≡ codes "Yes")
unfolding yes_text
yes_text-IsPqcDisplay no_pqc = ground arith
yes_text-IsPqcDisplay pqc = ground arith
yes_text-IsPqcDisplay (pqc_of x h) = rw (strip-yes_with x) (ground arith)

posture_of_listed :
    (v : Vendor)
    → IsDerived v
    → let p = posture_of v no_scan in
      (p.tls13 ≡ (shown v).tls13)
      × (p.static_rsa ≡ (shown v).static_rsa)
      × (p.weak_cipher ≡ (shown v).weak_cipher)
unfolding posture_of
posture_of_listed v d = (
  ap yes_text d.tls13_shown ∙ yes_text-yes_no _,
  ap yes_text d.static_rsa_shown ∙ yes_text-yes_no _,
  ap yes_text d.weak_cipher_shown ∙ yes_text-yes_no _,
)

pqc_listed :
    (v : Vendor) → IsPqcDisplay v.pqc → ((posture_of v no_scan).pqc ≡ true) ↔ (v.pqc ≡ codes "Yes")
unfolding posture_of
pqc_listed v d = yes_text-IsPqcDisplay d

-- Of a row that no scan covers, TLS 1.3, static RSA and weak ciphers are taken as displayed, but
-- PQC counts only if the display is the bare "Yes".
pub unscanned_posture :
    (v : Vendor)
    → IsDerived v
    → let p = posture_of v no_scan in
      (p.tls13 ≡ (shown v).tls13)
      × (p.static_rsa ≡ (shown v).static_rsa)
      × (p.weak_cipher ≡ (shown v).weak_cipher)
      × ((p.pqc ≡ true) ↔ (v.pqc ≡ codes "Yes"))
unscanned_posture v d =
    let (tls13, static_rsa, weak_cipher) = posture_of_listed v d in
    (tls13, static_rsa, weak_cipher, pqc_listed v d.pqc_shown)

tier1_tls13 : (v : Vendor) → IsDerived v → v.tier_class ≡ tier1 → v.tls13 ≡ codes "Yes"
tier1_tls13 v d ready =
    let is_tier1 = sym (ap (λ t. t.0) d.tier_shown) ∙ ready in
    let new = ((tier_of_rule (shown v)).0.0 is_tier1).0 in d.tls13_shown ∙ ap yes_no new

-- A row of tier 1 with a PQC provider, if no scan covers it, is scored as classical: F1 is 38
-- points and the effort is that of enabling a hybrid group.
pub unscanned_provider :
    (v : Vendor) (x : Text) (stub : Option HndlInput)
    → IsDerived v
    → v.tier_class ≡ tier1
    → v.pqc ≡ yes_with x
    → let s = score_row v none stub in (s.posture.pqc ≡ false) × (s.f1.0 ≡ 38) × (s.effort.0 ≡ 2)
unfolding score_row posture_of Formula.f1 Formula.effort
unscanned_provider v x stub d ready named =
    let new : v.tls13 ≡ codes "Yes" = tier1_tls13 v d ready in
    let tls13 : (posture_of v no_scan).tls13 ≡ true = unfold yes_text in rw new in
    let classical : (posture_of v no_scan).pqc ≡ false = ap yes_text named ∙ yes_text-yes_with x in
    (classical, rw (tls13, classical), rw (tls13, classical))

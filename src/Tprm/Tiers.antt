-- ===== src/Tprm/Tiers.antt =====
-- The tier against the columns of the same row.
use hybrid_tls_lab.Prelude.{
  ◌≡◌, refl, sym, ap, ◌↔◌, ◌≢◌, ◌⊎◌, inl, inr, suc, arith, none, some, Bool, true, false, not, List,
  [], ◌∷◌, length, map, All, All-imp, Bool-cases, ◌∙◌, ◌||◌, ◌&&◌, Option-cases, >>=-eq-some,
}
use mathlib.Core.Path.{subst}
use mathlib.Core.Option.{some-injective}
use hybrid_tls_lab.Prelude.Text.{Text, codes, text_eq}
use hybrid_tls_lab.Tprm.{
  CsvRow, Vendor, Findings, findings, TierClass, tier1, tier2, tier3, tier_of, derive_tier, yes_no,
  vendor_of, load_row, load_vendors,
}
use hybrid_tls_lab.Tprm.Display.{IsPqcDisplay, text_eq-pqc_display-no, pqc_display-IsPqcDisplay}

-- The findings as the columns of a loaded row show them.
abbrev pub shown : Vendor → Findings
shown v = record {
  tls13 = text_eq v.tls13 (codes "Yes");
  pqc = not (text_eq v.pqc (codes "No"));
  static_rsa = text_eq v.static_rsa (codes "Yes");
  weak_cipher = text_eq v.weak_cipher (codes "Yes");
}

pub text_eq-yes_no-yes : (b : Bool) → text_eq (yes_no b) (codes "Yes") ≡ b
text_eq-yes_no-yes true = refl
text_eq-yes_no-yes false = refl

pub text_eq-yes_no-no : (b : Bool) → text_eq (yes_no b) (codes "No") ≡ not b
text_eq-yes_no-no true = refl
text_eq-yes_no-no false = refl

not-not : (b : Bool) → not (not b) ≡ b
not-not true = refl
not-not false = refl

shown-vendor_of :
    (row : CsvRow) (vendor curves : Text) → shown (vendor_of row vendor curves) ≡ findings row
shown-vendor_of row vendor curves = simp (text_eq-yes_no-yes, text_eq-pqc_display-no, not-not)

pub load_row-eq-some :
    (row : CsvRow) {v : Vendor}
    → load_row row ≡ some v
    → (vendor curves : Text) × (row.vendor ≡ some vendor)
      × (row.curves ≡ some curves)
      × (v ≡ vendor_of row vendor curves)
unfolding load_row
load_row-eq-some row h =
    let (vendor, found, h') = >>=-eq-some row.vendor _ h in
    let (curves, listed, h'') = >>=-eq-some row.curves _ h' in
    (vendor, curves, found, listed, sym (some-injective _ _ h''))

-- What `load_vendors` guarantees of each row that it returns.
pub record IsDerived (v : Vendor) : Type 0 where
  pub tls13_shown : v.tls13 ≡ yes_no (shown v).tls13
  pub pqc_shown : IsPqcDisplay v.pqc
  pub static_rsa_shown : v.static_rsa ≡ yes_no (shown v).static_rsa
  pub weak_cipher_shown : v.weak_cipher ≡ yes_no (shown v).weak_cipher
  pub tier_shown : (v.tier_class, v.tier_label) ≡ tier_of (shown v)

vendor_of-IsDerived :
    (row : CsvRow) (vendor curves : Text) → IsDerived (vendor_of row vendor curves)
unfolding derive_tier
vendor_of-IsDerived row vendor curves = record {
  tls13_shown = rw text_eq-yes_no-yes;
  pqc_shown = pqc_display-IsPqcDisplay row.pqc row.pqc_provider;
  static_rsa_shown = rw text_eq-yes_no-yes;
  weak_cipher_shown = rw text_eq-yes_no-yes;
  tier_shown = rw (shown-vendor_of row vendor curves);
}

-- A row that loads shows in its columns the findings of its CSV row, and its tier and label are
-- those that the rule gives for them.
pub load_row-IsDerived :
    (row : CsvRow) {v : Vendor} → load_row row ≡ some v → (shown v ≡ findings row) × IsDerived v
load_row-IsDerived row h =
    let (vendor, curves, _, _, e) = load_row-eq-some row h in
    rw e (shown-vendor_of row vendor curves, vendor_of-IsDerived row vendor curves)

pub load_vendors-All-IsDerived :
    (rows : List CsvRow) {vs : List Vendor} → load_vendors rows ≡ some vs → All IsDerived vs
unfolding load_vendors
load_vendors-All-IsDerived [] h = subst (All IsDerived) (some-injective _ _ h) tt
load_vendors-All-IsDerived (row ∷ rows) h =
    let (v, loaded, h') = >>=-eq-some (load_row row) _ h in
    let (vs, rest, h'') = >>=-eq-some (load_vendors rows) _ h' in
    subst (All IsDerived) (some-injective _ _ h'')
      ((load_row-IsDerived row loaded).1, load_vendors-All-IsDerived rows rest)

-- The row has the two fields that are stripped without a check for None.
abbrev pub IsComplete : CsvRow → Type 0
IsComplete row = (row.vendor ≢ none) × (row.curves ≢ none)

load_row_total : (row : CsvRow) → IsComplete row → (v : Vendor) × (load_row row ≡ some v)
unfolding load_row
load_row_total row h = elim (Option-cases row.vendor) [
  | inl e ↦ absurd (h.0 e)
  | inr (vendor, e) ↦ elim (Option-cases row.curves) [
    | inl e' ↦ absurd (h.1 e')
    | inr (curves, e') ↦ (vendor_of row vendor curves, rw (e, e'))
  ]
]

-- Rows that all have the vendor and the curves load, with one entry per row.
pub load_vendors_total :
    (rows : List CsvRow)
    → All IsComplete rows
    → (vs : List Vendor) × (load_vendors rows ≡ some vs)
      × (length vs ≡ length rows)
      × All IsDerived vs
unfolding load_vendors
load_vendors_total [] h = ([], refl, refl, tt)
load_vendors_total (row ∷ rows) h =
    let (v, loaded) = load_row_total row h.0 in
    let (vs, rest, same, derived) = load_vendors_total rows h.1 in
    (v ∷ vs, rw (loaded, rest), ap suc same, ((load_row-IsDerived row loaded).1, derived))

-- A vendor is in tier 1 exactly if it has TLS 1.3 and PQC but neither static RSA nor a weak cipher,
-- in tier 2 exactly if PQC alone is missing, and in tier 3 exactly if it has static RSA or a weak
-- cipher or lacks TLS 1.3.
pub tier_of_rule :
    (f : Findings)
    → (((tier_of f).0 ≡ tier1)
        ↔ (f.tls13 ≡ true) × (f.pqc ≡ true) × (f.static_rsa ≡ false) × (f.weak_cipher ≡ false))
      × (((tier_of f).0 ≡ tier2)
          ↔ (f.tls13 ≡ true) × (f.pqc ≡ false) × (f.static_rsa ≡ false) × (f.weak_cipher ≡ false))
      × (((tier_of f).0 ≡ tier3)
          ↔ ((f.static_rsa ≡ true) ⊎ (f.weak_cipher ≡ true) ⊎ (f.tls13 ≡ false)))
unfolding tier_of
tier_of_rule f = ground arith

abbrev label_of : TierClass → Text
label_of tier1 = codes "Tier 1 — Ready"
label_of tier2 = codes "Tier 2 — Conditional"
label_of tier3 = codes "Tier 3 — Remediation"

tier_of-label : (f : Findings) → (tier_of f).1 ≡ label_of (tier_of f).0
unfolding tier_of
tier_of-label f = elim (Bool-cases (f.static_rsa || f.weak_cipher || not f.tls13)) [
  | inl e ↦ rw e refl
  | inr e ↦ elim (Bool-cases (f.tls13 && f.pqc && not f.static_rsa && not f.weak_cipher)) [
    | inl e' ↦ rw (e, e') refl
    | inr e' ↦ rw (e, e') refl
  ]
]

-- The tier of a vendor and its label against its four columns.
pub record HasTier (v : Vendor) : Type 0 where
  pub ready :
      (v.tier_class ≡ tier1)
      ↔ ((shown v).tls13 ≡ true)
        × ((shown v).pqc ≡ true)
        × ((shown v).static_rsa ≡ false)
        × ((shown v).weak_cipher ≡ false)
  pub conditional :
      (v.tier_class ≡ tier2)
      ↔ ((shown v).tls13 ≡ true)
        × ((shown v).pqc ≡ false)
        × ((shown v).static_rsa ≡ false)
        × ((shown v).weak_cipher ≡ false)
  pub remediation :
      (v.tier_class ≡ tier3)
      ↔ (((shown v).static_rsa ≡ true) ⊎ ((shown v).weak_cipher ≡ true) ⊎ ((shown v).tls13 ≡ false))
  pub label : v.tier_label ≡ label_of v.tier_class

IsDerived-HasTier : (v : Vendor) → IsDerived v → HasTier v
IsDerived-HasTier v d =
    let tier : v.tier_class ≡ (tier_of (shown v)).0 = ap (λ p. p.0) d.tier_shown in
    let (first, second, third) = tier_of_rule (shown v) in
    record {
      ready = rw tier first;
      conditional = rw tier second;
      remediation = rw tier third;
      label = ap (λ p. p.1) d.tier_shown ∙ tier_of-label (shown v) ∙ ap label_of (sym tier);
    }

load_vendors-shown :
    (rows : List CsvRow) {vs : List Vendor}
    → load_vendors rows ≡ some vs
    → map shown vs ≡ map findings rows
unfolding load_vendors
load_vendors-shown [] h = ap (map shown) (sym (some-injective _ _ h))
load_vendors-shown (row ∷ rows) h =
    let (v, loaded, h') = >>=-eq-some (load_row row) _ h in
    let (vs, rest, h'') = >>=-eq-some (load_vendors rows) _ h' in
    ap (map shown) (sym (some-injective _ _ h''))
    ∙ ap (λ (f : Findings). f ∷ map shown vs) (load_row-IsDerived row loaded).0
    ∙ ap (◌∷◌ (findings row)) (load_vendors-shown rows rest)

pub load_vendors-HasTier :
    (rows : List CsvRow)
    → All IsComplete rows
    → (vs : List Vendor) × (load_vendors rows ≡ some vs)
      × (map shown vs ≡ map findings rows)
      × All HasTier vs
load_vendors-HasTier rows complete =
    let (vs, loaded, _, derived) = load_vendors_total rows complete in
    (vs, loaded, load_vendors-shown rows loaded, All-imp vs IsDerived-HasTier derived)

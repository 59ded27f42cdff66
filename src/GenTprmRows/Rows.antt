-- ===== src/GenTprmRows/Rows.antt =====
-- The generated rows against those that the dashboard loads.
use hybrid_tls_lab.Prelude.{
  ◌≡◌, refl, inl, inr, Bool, true, false, not, [], ◌∷◌, Option, none, some, Bool-cases,
  if◌then◌else◌,
}
use hybrid_tls_lab.Prelude.Text.{Text, codes, is_empty, strip, lower, starts_with}
use hybrid_tls_lab.Tprm
use hybrid_tls_lab.Tprm.{
  CsvRow, Vendor, match_yes, yes_display, tier_of, load_row, vendor_of, yes_with,
}
use hybrid_tls_lab.GenTprmRows.{
  yn, derive_tier, pqc_display, provider_display, cells, render_row, tier_from,
}
use mathlib.Core.Option

-- A row that has all its fields.
abbrev pub full : (vendor tls13 pqc pqc_provider static_rsa weak_cipher curves : Text) → CsvRow
full vendor tls13 pqc pqc_provider static_rsa weak_cipher curves = record {
  vendor = some vendor;
  tls13 = some tls13;
  pqc = some pqc;
  pqc_provider = some pqc_provider;
  static_rsa = some static_rsa;
  weak_cipher = some weak_cipher;
  curves = some curves;
}

-- The HTML row that shows a vendor of the dashboard.
abbrev pub html_of : Vendor → Text
html_of v =
    cells v.vendor v.tls13 v.pqc v.static_rsa v.weak_cipher v.curves (v.tier_class, v.tier_label)

blank_strip : (s : Text) → is_empty s ≡ true → is_empty (strip s) ≡ true
blank_strip [] h = refl
blank_strip (c ∷ s) h = cc

provider_shown : (p : Text) → provider_display (some p) ≡ some (yes_display none p)
unfolding provider_display yes_display
provider_shown p = elim (Bool-cases (is_empty p)) [ inl e ↦ rw (e, blank_strip p e) | inr e ↦ rw e ]

display_of_match :
    (m : Option Text) (p : Text)
    → elim m [ some g ↦ some (yes_with g) | none ↦ provider_display (some p) ]
      ≡ some (yes_display m p)
unfolding yes_display
display_of_match (some g) p = refl
display_of_match none p = provider_shown p

display_of_flag :
    (b : Bool) (m : Option Text) (p : Text)
    → (if not b
        then some (codes "No")
        else elim m [ some g ↦ some (yes_with g) | none ↦ provider_display (some p) ])
      ≡ some (if not b then codes "No" else yes_display m p)
display_of_flag true m p = display_of_match m p
display_of_flag false m p = refl

same_display :
    (q p : Text) → pqc_display (some q) (some p) ≡ some (Tprm.pqc_display (some q) (some p))
unfolding pqc_display Tprm.pqc_display yn Tprm.yn
same_display q p =
    display_of_flag (starts_with (lower (strip (strip q))) (codes "y")) (match_yes (strip q)) p

-- For a row that has all its fields the generator prints the row of the table that shows the vendor
-- that the dashboard loads.
pub render_row-eq-html_of :
    (vendor tls13 pqc pqc_provider static_rsa weak_cipher curves : Text)
    → let row = full vendor tls13 pqc pqc_provider static_rsa weak_cipher curves in
      render_row row ≡ Option.map html_of (load_row row)
unfolding render_row derive_tier yn Tprm.yn load_row tier_of tier_from Tprm.derive_tier
render_row-eq-html_of vendor tls13 pqc pqc_provider static_rsa weak_cipher curves =
    rw (same_display pqc pqc_provider)

-- ===== src/GenTprmRows.antt =====
-- dashboard/gen_tprm_rows.py: the rows of the static page, from the same CSV file. A column that
-- the header lacks is the empty text of `row.get("pqc_provider", "")`; none is the AttributeError of
-- `None.strip()`.
pub mod Rows
pub mod Program
use hybrid_tls_lab.Prelude.{
  Bool, true, false, not, ◌&&◌, ◌||◌, Option, none, some, ◌++◌, if◌then◌else◌, ◌>>=◌,
}
use hybrid_tls_lab.Prelude.Text.{Text, codes, is_empty, lower, starts_with, strip}
use hybrid_tls_lab.Tprm.{CsvRow, TierClass, tier1, tier2, tier3, match_yes, yes_with, yes_no}
use mathlib.Core.Option

unfoldable pub yn : Option Text → Option Bool
yn val = do v ← val; some (starts_with (lower (strip v)) (codes "y"))

-- The rule of `derive_tier`, on its four flags.
unfoldable pub tier_from : (tls13 pqc static_rsa weak_cipher : Bool) → TierClass × Text
tier_from tls13 pqc static_rsa weak_cipher =
    if static_rsa || weak_cipher || not tls13
    then (tier3, codes "Tier 3 — Remediation")
    else if tls13 && pqc && not static_rsa && not weak_cipher
    then (tier1, codes "Tier 1 — Ready")
    else (tier2, codes "Tier 2 — Conditional")

unfoldable pub derive_tier : CsvRow → Option (TierClass × Text)
derive_tier row = do
  tls13 ← yn row.tls13
  pqc ← yn row.pqc
  static_rsa ← yn row.static_rsa
  weak_cipher ← yn row.weak_cipher
  some (tier_from tls13 pqc static_rsa weak_cipher)

unfoldable pub provider_display : Option Text → Option Text
provider_display provider = do
  p ← provider
  some (if not (is_empty (strip p)) then yes_with (strip p) else codes "Yes")

unfoldable pub pqc_display : Option Text → Option Text → Option Text
pqc_display pqc_raw provider = do
  given ← pqc_raw
  listed ← yn (some (strip given))
  if not listed then some (codes "No") else elim (match_yes (strip given)) [
    | some group_1 ↦ some (yes_with group_1)
    | none ↦ provider_display provider
  ]

abbrev pub class_text : TierClass → Text
class_text tier1 = codes "tier1"
class_text tier2 = codes "tier2"
class_text tier3 = codes "tier3"

-- The f-string of a row.
abbrev pub cells :
    (vendor tls13 pqc_col static_rsa weak_cipher curves : Text) → TierClass × Text → Text
cells vendor tls13 pqc_col static_rsa weak_cipher curves (css_class, label) =
    codes "        <tr><td>"
    ++ vendor
    ++ codes "</td><td>"
    ++ tls13
    ++ codes "</td><td>"
    ++ pqc_col
    ++ codes "</td><td>"
    ++ static_rsa
    ++ codes "</td><td>"
    ++ weak_cipher
    ++ codes "</td><td>"
    ++ curves
    ++ codes "</td><td><span class=\"badge "
    ++ class_text css_class
    ++ codes "\">"
    ++ label
    ++ codes "</span></td></tr>"

unfoldable pub render_row : CsvRow → Option Text
render_row row = do
  tier ← derive_tier row
  tls13 ← yn row.tls13
  static_rsa ← yn row.static_rsa
  weak_cipher ← yn row.weak_cipher
  pqc_col ← pqc_display row.pqc row.pqc_provider
  curves ← row.curves
  vendor ← row.vendor
  some (
      cells (strip vendor) (yes_no tls13) pqc_col (yes_no static_rsa) (yes_no weak_cipher)
        (strip curves) tier)

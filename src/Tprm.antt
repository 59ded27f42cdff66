-- ===== src/Tprm.antt =====
-- dashboard/app/tprm.py: the tier of a vendor from its TLS findings, and the rows that
-- `load_vendors` returns. What csv.DictReader yields is the input.
pub mod Display
pub mod Tiers
pub mod File
use hybrid_tls_lab.Prelude.{
  ℕ, Bool, true, false, not, ◌&&◌, ◌||◌, Option, none, some, List, [], ◌∷◌, ◌++◌, ◌==◌,
  if◌then◌else◌, ◌>>=◌,
}
use hybrid_tls_lab.Prelude.Text.{
  Text, codes, or_empty, is_empty, lower, lower_code, starts_with, strip, lstrip_by, is_space,
}
use mathlib.Core.Option

-- A row of the CSV file. A field that a short row lacks is None; `pqc_provider` may also lack its
-- column. The other columns are in the header.
pub record CsvRow : Type 0 where
  pub vendor : Option Text
  pub tls13 : Option Text
  pub pqc : Option Text
  pub pqc_provider : Option Text
  pub static_rsa : Option Text
  pub weak_cipher : Option Text
  pub curves : Option Text

pub data TierClass : Type 0 where
  tier1 tier2 tier3 : TierClass

pub record Vendor : Type 0 where
  pub vendor : Text
  pub tls13 : Text
  pub pqc : Text
  pub static_rsa : Text
  pub weak_cipher : Text
  pub curves : Text
  pub tier_class : TierClass
  pub tier_label : Text

unfoldable pub yn : Option Text → Bool
yn val = starts_with (lower (strip (or_empty val))) (codes "y")

-- The flags that `derive_tier` reads from the row.
pub record Findings : Type 0 where
  pub tls13 : Bool
  pub pqc : Bool
  pub static_rsa : Bool
  pub weak_cipher : Bool

abbrev pub findings : CsvRow → Findings
findings row = record {
  tls13 = yn row.tls13;
  pqc = yn row.pqc;
  static_rsa = yn row.static_rsa;
  weak_cipher = yn row.weak_cipher;
}

unfoldable pub tier_of : Findings → TierClass × Text
tier_of f =
    if f.static_rsa || f.weak_cipher || not f.tls13
    then (tier3, codes "Tier 3 — Remediation")
    else if f.tls13 && f.pqc && not f.static_rsa && not f.weak_cipher
    then (tier1, codes "Tier 1 — Ready")
    else (tier2, codes "Tier 2 — Conditional")

unfoldable pub derive_tier : CsvRow → TierClass × Text
derive_tier row = tier_of (findings row)

-- Up to the end of the line, which `.` does not pass.
abbrev pub line : Text → Text
line [] = []
line (c ∷ s) = if c == 10 then [] else c ∷ line s

-- What stands before the last `c`.
abbrev pub before_last : ℕ → Text → Option Text
before_last c [] = none
before_last c (d ∷ s) = elim (before_last c s) [
  | some t ↦ some (d ∷ t)
  | none ↦ if d == c then some [] else none
]

-- `(.+)\)`: one character at least, then up to the last parenthesis of the line.
abbrev pub group : Text → Option Text
group [] = none
group (c ∷ s) = if c == 10 then none else Option.map (◌∷◌ c) (before_last b')' (line s))

abbrev pub parens : Text → Option Text
parens [] = none
parens (c ∷ s) = if c == b'(' then group s else none

-- `re.match(r"yes\s*\((.+)\)", s, re.IGNORECASE)` and its group; the long s folds to `s`.
unfoldable pub match_yes : Text → Option Text
match_yes (y ∷ e ∷ s ∷ rest) =
    if lower_code y == b'y' && lower_code e == b'e' && (lower_code s == b's' || s == 0x17f)
    then parens (lstrip_by is_space rest)
    else none
match_yes _ = none

abbrev pub yes_with : Text → Text
yes_with provider = codes "Yes (" ++ provider ++ codes ")"

-- The display of a value that begins with `y`.
unfoldable pub yes_display : Option Text → Text → Text
yes_display (some group_1) provider = yes_with group_1
yes_display none provider =
    if not (is_empty provider) && not (is_empty (strip provider))
    then yes_with (strip provider)
    else codes "Yes"

unfoldable pub pqc_display : Option Text → Option Text → Text
pqc_display pqc_raw provider =
    let raw = strip (or_empty pqc_raw) in
    if not (yn (some raw)) then codes "No" else yes_display (match_yes raw) (or_empty provider)

abbrev pub yes_no : Bool → Text
yes_no true = codes "Yes"
yes_no false = codes "No"

abbrev pub vendor_of : CsvRow → Text → Text → Vendor
vendor_of row vendor curves =
    let (tier_class, tier_label) = derive_tier row in
    record {
      vendor = strip vendor;
      tls13 = yes_no (yn row.tls13);
      pqc = pqc_display row.pqc row.pqc_provider;
      static_rsa = yes_no (yn row.static_rsa);
      weak_cipher = yes_no (yn row.weak_cipher);
      curves = strip curves;
      tier_class = tier_class;
      tier_label = tier_label;
    }

-- One round of the loop. `none` is the AttributeError of `None.strip()`.
unfoldable pub load_row : CsvRow → Option Vendor
load_row row = do vendor ← row.vendor; curves ← row.curves; some (vendor_of row vendor curves)

unfoldable pub load_vendors : List CsvRow → Option (List Vendor)
load_vendors [] = some []
load_vendors (row ∷ rows) =
    let rest = load_vendors rows in do v ← load_row row; vs ← rest; some (v ∷ vs)

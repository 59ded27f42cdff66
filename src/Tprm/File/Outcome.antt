-- ===== src/Tprm/File/Outcome.antt =====
-- dashboard/app/tprm.py: `load_vendors` on any text, as an exception or as the vendors of the rows.
use mathlib.Core.Path.{subst}
use hybrid_tls_lab.Prelude.{
  ◌≡◌, refl, sym, ◌∙◌, inl, inr, Bool, true, false, ◌&&◌, Option, none, some, List, [], ◌∷◌, map,
  All, ◌>>=◌, Bool-cases, Option-cases,
}
use hybrid_tls_lab.Prelude.Dict.{Dict, lookup}
use hybrid_tls_lab.Prelude.Text.{Text, codes}
use hybrid_tls_lab.Prelude.Csv.{read_dicts}
use hybrid_tls_lab.Prelude.Csv.Total.{read_dicts_total}
use hybrid_tls_lab.Tprm.{CsvRow, Vendor, Findings, findings, yn, load_row, load_vendors}
use hybrid_tls_lab.Tprm.Tiers.{shown, HasTier, IsComplete, load_vendors-HasTier}
use hybrid_tls_lab.Tprm.File.{
  csv_row_of, csv_rows_of, provider_or_empty, read_vendors, load_vendors_file,
}

-- The column is in the header.
abbrev has : Option (Option Text) → Bool
has none = false
has (some value) = true

-- The column is in the header, and the row is long enough to have the field.
abbrev has_text : Option (Option Text) → Bool
has_text none = false
has_text (some none) = false
has_text (some (some text)) = true

-- A row with every column but perhaps the provider's, and with a vendor and curves.
abbrev pub is_loadable : Dict (Option Text) → Bool
is_loadable d =
    has (lookup (codes "tls13") d)
    && has (lookup (codes "pqc") d)
    && has (lookup (codes "static_rsa") d)
    && has (lookup (codes "weak_cipher") d)
    && has_text (lookup (codes "vendor") d)
    && has_text (lookup (codes "curves") d)

abbrev pub all_loadable : List (Dict (Option Text)) → Bool
all_loadable [] = true
all_loadable (d ∷ ds) = is_loadable d && all_loadable ds

abbrev field : Text → Dict (Option Text) → Option Text
field name d = do value ← lookup name d; value

-- What the columns of a row say: yes is a text that begins with y.
abbrev pub says : Dict (Option Text) → Findings
says d = record {
  tls13 = yn (field (codes "tls13") d);
  pqc = yn (field (codes "pqc") d);
  static_rsa = yn (field (codes "static_rsa") d);
  weak_cipher = yn (field (codes "weak_cipher") d);
}

-- What a row comes to: its fields, or a KeyError, or fields that do not load.
abbrev Loads : Bool → Option CsvRow → Findings → Type 0
Loads true o f = (row : CsvRow) × (o ≡ some row) × IsComplete row × (findings row ≡ f)
Loads false none f = Unit
Loads false (some row) f = load_row row ≡ none

unfoldable row_from : (t p s w v c : Option (Option Text)) → Option Text → Option CsvRow
row_from t p s w v c provider = do
  tls13 ← t
  pqc ← p
  static_rsa ← s
  weak_cipher ← w
  vendor ← v
  curves ← c
  some (record {
    vendor = vendor;
    tls13 = tls13;
    pqc = pqc;
    pqc_provider = provider;
    static_rsa = static_rsa;
    weak_cipher = weak_cipher;
    curves = curves;
  })

abbrev flat : Option (Option Text) → Option Text
flat o = do value ← o; value

row_from-Loads :
    (t p s w v c : Option (Option Text)) (provider : Option Text)
    → Loads
        (has t && has p && has s && has w && has_text v && has_text c)
        (row_from t p s w v c provider)
        (record {
          tls13 = yn (flat t);
          pqc = yn (flat p);
          static_rsa = yn (flat s);
          weak_cipher = yn (flat w);
        })
unfolding row_from load_row
row_from-Loads none p s w v c provider = tt
row_from-Loads (some t) none s w v c provider = tt
row_from-Loads (some t) (some p) none w v c provider = tt
row_from-Loads (some t) (some p) (some s) none v c provider = tt
row_from-Loads (some t) (some p) (some s) (some w) none c provider = tt
row_from-Loads (some t) (some p) (some s) (some w) (some none) none provider = tt
row_from-Loads (some t) (some p) (some s) (some w) (some none) (some c) provider = refl
row_from-Loads (some t) (some p) (some s) (some w) (some (some v)) none provider = tt
row_from-Loads (some t) (some p) (some s) (some w) (some (some v)) (some none) provider = refl
row_from-Loads (some t) (some p) (some s) (some w) (some (some v)) (some (some c)) provider =
    (_, refl, ((λ e. cc), (λ e. cc)), refl)

csv_row_of-Loads : (d : Dict (Option Text)) → Loads (is_loadable d) (csv_row_of d) (says d)
unfolding csv_row_of row_from
csv_row_of-Loads d =
    row_from-Loads (lookup (codes "tls13") d) (lookup (codes "pqc") d)
      (lookup (codes "static_rsa") d) (lookup (codes "weak_cipher") d) (lookup (codes "vendor") d)
      (lookup (codes "curves") d) (provider_or_empty (lookup (codes "pqc_provider") d))

-- The rows of a file in one piece.
abbrev load_dicts : List (Dict (Option Text)) → Option (List Vendor)
load_dicts ds = do rows ← csv_rows_of ds; load_vendors rows

no_row :
    (o : Option CsvRow) (f : Findings) (rest : Option (List CsvRow))
    → Loads false o f
    → (do row ← o; rows ← rest; load_vendors (row ∷ rows)) ≡ none
unfolding load_vendors
no_row none f rest h = refl
no_row (some row) f none h = refl
no_row (some row) f (some rows) h = rw h

no_rest :
    (o : Option CsvRow) (rest : Option (List CsvRow))
    → (do rows ← rest; load_vendors rows) ≡ none
    → (do row ← o; rows ← rest; load_vendors (row ∷ rows)) ≡ none
unfolding load_vendors
no_rest none rest h = refl
no_rest (some row) none h = refl
no_rest (some row) (some rows) h = elim (Option-cases (load_row row)) [
  | inl e ↦ rw e
  | inr (v, e) ↦ rw (e, h)
]

load_dicts-step :
    (d : Dict (Option Text)) (ds : List (Dict (Option Text)))
    → load_dicts (d ∷ ds)
      ≡ (do row ← csv_row_of d; rows ← csv_rows_of ds; load_vendors (row ∷ rows))
unfolding csv_rows_of
load_dicts-step d ds = elim (Option-cases (csv_row_of d)) [
  | inl e ↦ rw e
  | inr (row, e) ↦ elim (Option-cases (csv_rows_of ds)) [
    | inl e' ↦ rw (e, e')
    | inr (rows, e') ↦ rw (e, e')
  ]
]

-- Rows that are all loadable are read as rows that are complete.
loadable_rows :
    (ds : List (Dict (Option Text)))
    → all_loadable ds ≡ true
    → (rows : List CsvRow) × (csv_rows_of ds ≡ some rows)
      × All IsComplete rows
      × (map findings rows ≡ map says ds)
unfolding csv_rows_of
loadable_rows [] h = ([], refl, tt, refl)
loadable_rows (d ∷ ds) h = elim (Bool-cases (is_loadable d)) [
  | inl e ↦
      let (row, read, complete, same) =
        subst (λ b. Loads b (csv_row_of d) (says d)) e (csv_row_of-Loads d) in
      let (rows, rest, all_complete, all_same) = loadable_rows ds (rw e at h) in
      (row ∷ rows, rw (read, rest), (complete, all_complete), rw (same, all_same))
  | inr e ↦ let bad : false ≡ true = rw e at h in cc
]

not_loadable : (ds : List (Dict (Option Text))) → all_loadable ds ≡ false → load_dicts ds ≡ none
not_loadable [] h = cc
not_loadable (d ∷ ds) h = load_dicts-step d ds ∙ (elim (Bool-cases (is_loadable d)) [
  | inl e ↦ no_rest (csv_row_of d) (csv_rows_of ds) (not_loadable ds (rw e at h))
  | inr e ↦
      no_row (csv_row_of d) (says d) (csv_rows_of ds)
        (subst (λ b. Loads b (csv_row_of d) (says d)) e (csv_row_of-Loads d))
])

-- What a file of rows comes to.
abbrev pub IsOutcome : List (Dict (Option Text)) → Bool → Option (List Vendor) → Type 0
IsOutcome ds false o = o ≡ none
IsOutcome ds true o =
    (vs : List Vendor) × (o ≡ some vs) × (map shown vs ≡ map says ds) × All HasTier vs

load_dicts-IsOutcome :
    (ds : List (Dict (Option Text))) → IsOutcome ds (all_loadable ds) (load_dicts ds)
load_dicts-IsOutcome ds = elim (Bool-cases (all_loadable ds)) [
  | inl e ↦
      let (rows, read, complete, same) = loadable_rows ds e in
      let (vs, loaded, columns, tiers) = load_vendors-HasTier rows complete in
      subst (λ b. IsOutcome ds b (load_dicts ds)) (sym e)
        (vs, rw read loaded, columns ∙ same, tiers)
  | inr e ↦ subst (λ b. IsOutcome ds b (load_dicts ds)) (sym e) (not_loadable ds e)
]

-- Whatever a text holds, csv.DictReader gives its rows, its limit on the length of a field aside,
-- and the load either raises or gives the vendors. It raises exactly if some row lacks one of the six columns that are read by `[]`, or is
-- too short to have a vendor or curves. Otherwise there is one vendor for each row, in the order of
-- the file: its four columns show what the fields of these names say in that row, wherever they
-- stand in it. It is in tier 1 exactly if they show TLS 1.3 and PQC but neither static RSA nor a
-- weak cipher, in tier 2 exactly if PQC alone is missing, and in tier 3 exactly if they show static
-- RSA or a weak cipher or no TLS 1.3; and its label is that of its tier.
pub load_vendors_file-IsOutcome :
    (text : Text)
    → (ds : List (Dict (Option Text))) × (read_dicts text ≡ some ds)
      × IsOutcome ds (all_loadable ds) (load_vendors_file text)
unfolding load_vendors_file read_vendors
load_vendors_file-IsOutcome text =
    let (ds, read) = read_dicts_total text in (ds, read, rw read (load_dicts-IsOutcome ds))

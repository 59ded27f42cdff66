-- ===== src/Score/Formula.antt =====
-- dashboard/app/score.py: the factors of the formula, the effort and the bands.
use hybrid_tls_lab.Prelude.{
  ℕ, Bool, not, ◌&&◌, ◌||◌, Option, none, some, List, [], ◌∷◌, ◌++◌, leb, if◌then◌else◌,
}
use hybrid_tls_lab.Prelude.Text.Decimal.{str_of}
use hybrid_tls_lab.Prelude.Text.{Text, codes, lower, upper, starts_with, contains, strip, text_eq}

-- The keys of a row that the factors read; an absent text is empty.
pub record Posture : Type 0 where
  pub tls13 : Bool
  pub pqc : Bool
  pub static_rsa : Bool
  pub weak_cipher : Bool
  pub cert_key : Text
  pub cert_sig_alg : Text

-- `_yes` of a text
unfoldable pub yes_text : Text → Bool
yes_text v =
    let word = lower (strip v) in
    text_eq word (codes "yes")
    || text_eq word (codes "true")
    || text_eq word (codes "1")
    || text_eq word (codes "y")

unfoldable pub f1 : Posture → ℕ × Text
f1 row =
    if not row.tls13
    then (40, codes "No TLS 1.3 - cannot negotiate a hybrid group")
    else if row.pqc
    then (5, codes "Hybrid ML-KEM negotiated")
    else (38, codes "TLS 1.3, classical key exchange only")

unfoldable pub f2 : Posture → ℕ × Text
f2 row =
    let cert = upper row.cert_key in
    let sig = lower row.cert_sig_alg in
    if contains (codes "dilithium") sig
      || contains (codes "ml-dsa") sig
      || contains (codes "mldsa") sig
    then (3, codes "Post-quantum certificate signature")
    else if starts_with cert (codes "EC") || contains (codes "ecdsa") sig
    then (30, codes "ECDSA signature - forgeable by Shor")
    else (35, codes "RSA signature - forgeable by Shor")

-- f"{sens}, {years}" and the rest of the text
abbrev pub f3_text : Text → ℕ → Text → Text
f3_text sens years rest = sens ++ codes ", " ++ str_of years ++ rest

unfoldable pub f3 : Option ℕ → Text → ℕ × Text
f3 none sens = (25, codes "Unclassified - scored at the highest retention tier")
f3 (some years) sens =
    if leb 25 years
    then (25, f3_text sens years (codes "y retention"))
    else if leb 15 years
    then (22, f3_text sens years (codes "y retention"))
    else if leb 8 years
    then (18, f3_text sens years (codes "y retention"))
    else (10, f3_text sens years (codes "y - closes before the threat window"))

unfoldable pub effort : Posture → ℕ × Text
effort row =
    if not row.tls13
    then (3, codes "No TLS 1.3 - protocol modernisation")
    else if not row.pqc
    then (2, codes "Classical key exchange - enable a hybrid group")
    else if row.static_rsa
    then (1, codes "Static RSA accepted - configuration change")
    else (0, codes "No action available - post-quantum certificate not yet deployable")

unfoldable pub penalty : Posture → ℕ × Text
penalty row =
    if row.static_rsa then (10, codes "Static RSA accepted - no forward secrecy") else (0, [])

pub data Band : Type 0 where
  critical high moderate : Band

abbrev pub band_label : Band → Text
band_label critical = codes "Critical"
band_label high = codes "High"
band_label moderate = codes "Moderate"

pub record BandRange : Type 0 where
  pub code : Band
  pub lo : ℕ
  pub hi : ℕ

abbrev pub bands : List BandRange
bands =
    record { code = critical; lo = 90; hi = 100 }
    ∷ record { code = high; lo = 63; hi = 89 }
    ∷ record { code = moderate; lo = 0; hi = 62 }
    ∷ []

unfoldable pub first_band : List BandRange → ℕ → Band
first_band [] total = moderate
first_band (b ∷ bs) total = if leb b.lo total && leb total b.hi then b.code else first_band bs total

unfoldable pub band : ℕ → Band
band = first_band bands

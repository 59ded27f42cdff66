-- ===== src/Cbom.antt =====
-- dashboard/app/cbom.py: the CycloneDX document of a target. The uuid and the time are inputs.
pub mod Kem
pub mod Findings
use hybrid_tls_lab.Prelude.{
  ℕ, suc, zero, Bool, true, false, not, ◌||◌, List, [], ◌∷◌, ◌++◌, ◌==◌, if◌then◌else◌, map, keep,
}
use hybrid_tls_lab.Prelude.Text.{
  Text, codes, text_eq, or_else, is_empty, starts_with, strip, strip_by,
}
use hybrid_tls_lab.Qvi.{Target}

pub data Primitive : Type 0 where
  kem kex cipher : Primitive

-- The `cryptoProperties` of a component, by their asset type.
pub data CryptoProperties : Type 0 where
  protocol : (version : Text) → CryptoProperties
  related_crypto_material : CryptoProperties
  algorithm : Primitive → CryptoProperties

-- `_component`
pub record Component : Type 0 where
  pub name : Text
  pub crypto_properties : CryptoProperties

abbrev pub component : Text → CryptoProperties → Component
component name properties = record { name = name; crypto_properties = properties }

abbrev pub cons_first : ℕ → List Text → List Text
cons_first c [] = (c ∷ []) ∷ []
cons_first c (part ∷ parts) = (c ∷ part) ∷ parts

-- `s.split(",")`
unfoldable pub split_commas : Text → List Text
split_commas [] = [] ∷ []
split_commas (c ∷ s) =
    let parts = split_commas s in if c == b',' then [] ∷ parts else cons_first c parts

-- `[c.strip() for c in curves.split(",") if c.strip()]`
unfoldable pub curve_names : Text → List Text
curve_names curves = keep (λ c. not (is_empty c)) (map strip (split_commas curves))

-- `s.replace("Yes", "")`, after a number of characters that are dropped.
unfoldable pub remove_yes : ℕ → Text → Text
remove_yes skip [] = []
remove_yes (suc skip) (c ∷ s) = remove_yes skip s
remove_yes zero (c ∷ s) = elim (starts_with (c ∷ s) (codes "Yes")) [
  | true ↦ remove_yes 2 s
  | false ↦ c ∷ remove_yes 0 s
]

-- A character of `" ()"`
abbrev pub is_kem_trim : ℕ → Bool
is_kem_trim c = c == b' ' || c == b'(' || c == b')'

abbrev pub unspecified_kem : Text
unspecified_kem = codes "ML-KEM (unspecified parameter set)"

unfoldable pub kem_name : Text → Text
kem_name pqc = or_else (strip_by is_kem_trim (remove_yes 0 pqc)) unspecified_kem

abbrev pub when : Bool → Component → List Component
when true c = c ∷ []
when false c = []

abbrev pub tls_component : Target → Component
tls_component t =
    if text_eq t.tls13 (codes "Yes")
    then component (codes "TLS 1.3") (protocol (codes "1.3"))
    else component (codes "TLS <1.3 (observed)") (protocol (codes "unknown"))

abbrev pub curve_component : Text → Component
curve_component curve = component curve related_crypto_material

unfoldable pub components_of : Target → List Component
components_of t =
    tls_component t
    ∷ (map curve_component (curve_names t.curves)
        ++ when (not (text_eq t.pqc (codes "No"))) (component (kem_name t.pqc) (algorithm kem))
        ++ when (text_eq t.static_rsa (codes "Yes"))
            (component (codes "Static RSA key exchange (finding)") (algorithm kex))
        ++ when (text_eq t.weak_cipher (codes "Yes"))
            (component (codes "Weak cipher suite (finding)") (algorithm cipher)))

pub record Document : Type 0 where
  pub serial_number : Text
  pub timestamp : Text
  pub name : Text
  pub qvi_tier : Text
  pub components : List Component

unfoldable pub build_cbom : Text → Text → Target → Document
build_cbom uuid now target = record {
  serial_number = codes "urn:uuid:" ++ uuid;
  timestamp = now;
  name = target.target;
  qvi_tier = target.qvi_tier_label;
  components = components_of target;
}

-- ===== src/Cbom/Findings.antt =====
-- The components of a document against the tier of its target.
use hybrid_tls_lab.Prelude.{
  Bool-cases, ◌&&◌, ℕ, ◌+◌, ◌≡◌, refl, ap, ◌↔◌, inl, inr, arith, Bool, true, false, not, some, List,
  [], ◌∷◌, ◌++◌, map, count_if, All, All-imp, if◌then◌else◌,
}
use hybrid_tls_lab.Prelude.Text.{Text, codes, text_eq}
use hybrid_tls_lab.Tprm.{CsvRow, tier1, tier2, tier_of}
use hybrid_tls_lab.Tprm.Tiers.{IsDerived, shown, tier_of_rule}
use hybrid_tls_lab.Qvi.{Target, load_targets}
use hybrid_tls_lab.Compliance.Verdicts.{load_targets-All-IsDerived}
use hybrid_tls_lab.Cbom.{
  Primitive, kem, kex, cipher, protocol, related_crypto_material, algorithm, Component, component,
  when, kem_name, tls_component, curve_component, curve_names, components_of, build_cbom, Document,
}

abbrev pub primitive_eq : Primitive → Primitive → Bool
primitive_eq kem kem = true
primitive_eq kex kex = true
primitive_eq cipher cipher = true
primitive_eq _ _ = false

abbrev pub uses : Primitive → Component → Bool
uses k c = elim c.crypto_properties [
  | protocol version ↦ false
  | related_crypto_material ↦ false
  | algorithm j ↦ primitive_eq j k
]

-- The number of algorithms with a primitive.
abbrev pub algorithms : Primitive → Document → ℕ
algorithms k d = count_if (uses k) d.components

-- A component says that its protocol is TLS 1.3.
abbrev pub is_tls13 : Component → Bool
is_tls13 c = elim c.crypto_properties [
  | protocol version ↦ text_eq version (codes "1.3")
  | related_crypto_material ↦ false
  | algorithm j ↦ false
]

-- The number of components of a document that say so.
abbrev pub tls13_protocols : Document → ℕ
tls13_protocols d = count_if is_tls13 d.components

count_if-append :
    (p : Component → Bool) (xs ys : List Component)
    → count_if p (xs ++ ys) ≡ count_if p xs + count_if p ys
count_if-append p [] ys = omega arith
count_if-append p (x ∷ xs) ys = omega (arith, count_if-append p xs ys)

no_algorithm_in_curves :
    (k : Primitive) (cs : List Text) → count_if (uses k) (map curve_component cs) ≡ 0
no_algorithm_in_curves k [] = refl
no_algorithm_in_curves k (c ∷ cs) = omega (arith, no_algorithm_in_curves k cs)

abbrev one_if : Bool → ℕ
one_if b = if b then 1 else 0

count_when :
    (k j : Primitive) (b : Bool) (name : Text)
    → count_if (uses k) (when b (component name (algorithm j))) ≡ one_if (b && primitive_eq j k)
count_when k j true name = omega arith
count_when k j false name = refl

no_algorithm_in_tls : (k : Primitive) (t : Target) → uses k (tls_component t) ≡ false
no_algorithm_in_tls k t = elim (Bool-cases (text_eq t.tls13 (codes "Yes"))) [
  | inl e ↦ rw e
  | inr e ↦ rw e
]

count_parts :
    (k : Primitive) (cs : List Text) (xs ys zs : List Component)
    → count_if (uses k) (map curve_component cs ++ xs ++ ys ++ zs)
      ≡ count_if (uses k) xs + count_if (uses k) ys + count_if (uses k) zs
count_parts k cs xs ys zs = omega (
  arith,
  count_if-append (uses k) (map curve_component cs ++ xs ++ ys) zs,
  count_if-append (uses k) (map curve_component cs ++ xs) ys,
  count_if-append (uses k) (map curve_component cs) xs,
  no_algorithm_in_curves k cs,
)

no_protocol_in_curves : (cs : List Text) → count_if is_tls13 (map curve_component cs) ≡ 0
no_protocol_in_curves [] = refl
no_protocol_in_curves (c ∷ cs) = omega (arith, no_protocol_in_curves cs)

no_protocol_when :
    (j : Primitive) (b : Bool) (name : Text)
    → count_if is_tls13 (when b (component name (algorithm j))) ≡ 0
no_protocol_when j true name = refl
no_protocol_when j false name = refl

protocol_in_tls : (t : Target) → is_tls13 (tls_component t) ≡ text_eq t.tls13 (codes "Yes")
protocol_in_tls t = elim (Bool-cases (text_eq t.tls13 (codes "Yes"))) [
  | inl e ↦ rw e refl
  | inr e ↦ rw e refl
]

no_protocol_in_rest :
    (cs : List Text) (xs ys zs : List Component)
    → count_if is_tls13 xs ≡ 0
    → count_if is_tls13 ys ≡ 0
    → count_if is_tls13 zs ≡ 0
    → count_if is_tls13 (map curve_component cs ++ xs ++ ys ++ zs) ≡ 0
no_protocol_in_rest cs xs ys zs x y z = omega (
  arith,
  count_if-append is_tls13 (map curve_component cs ++ xs ++ ys) zs,
  count_if-append is_tls13 (map curve_component cs ++ xs) ys,
  count_if-append is_tls13 (map curve_component cs) xs,
  no_protocol_in_curves cs,
)

tls13_protocols_lem :
    (t : Target) (uuid now : Text)
    → tls13_protocols (build_cbom uuid now t) ≡ one_if (shown t.row).tls13
unfolding build_cbom components_of
tls13_protocols_lem t uuid now = rw (protocol_in_tls t) (
    omega (
      arith,
      no_protocol_in_rest (curve_names t.curves)
          (when (not (text_eq t.pqc (codes "No"))) (component (kem_name t.pqc) (algorithm kem)))
          (when (text_eq t.static_rsa (codes "Yes"))
            (component (codes "Static RSA key exchange (finding)") (algorithm kex)))
          (when (text_eq t.weak_cipher (codes "Yes"))
            (component (codes "Weak cipher suite (finding)") (algorithm cipher)))
          (no_protocol_when kem (not (text_eq t.pqc (codes "No"))) (kem_name t.pqc))
          (no_protocol_when kex (text_eq t.static_rsa (codes "Yes"))
            (codes "Static RSA key exchange (finding)"))
          (no_protocol_when cipher (text_eq t.weak_cipher (codes "Yes"))
            (codes "Weak cipher suite (finding)")),
    ))

algorithms_lem :
    (k : Primitive) (t : Target) (uuid now : Text)
    → algorithms k (build_cbom uuid now t)
      ≡ one_if ((shown t.row).pqc && primitive_eq kem k)
        + one_if ((shown t.row).static_rsa && primitive_eq kex k)
        + one_if ((shown t.row).weak_cipher && primitive_eq cipher k)
unfolding build_cbom components_of
algorithms_lem k t uuid now = rw (no_algorithm_in_tls k t) (
    omega (
      arith,
      count_parts k (curve_names t.curves)
          (when (not (text_eq t.pqc (codes "No"))) (component (kem_name t.pqc) (algorithm kem)))
          (when (text_eq t.static_rsa (codes "Yes"))
            (component (codes "Static RSA key exchange (finding)") (algorithm kex)))
          (when (text_eq t.weak_cipher (codes "Yes"))
            (component (codes "Weak cipher suite (finding)") (algorithm cipher))),
      count_when k kem (not (text_eq t.pqc (codes "No"))) (kem_name t.pqc),
      count_when k kex (text_eq t.static_rsa (codes "Yes"))
          (codes "Static RSA key exchange (finding)"),
      count_when k cipher (text_eq t.weak_cipher (codes "Yes"))
          (codes "Weak cipher suite (finding)"),
    ))

-- What a document lists: a number of components for TLS 1.3, and of each primitive a number of
-- algorithms.
abbrev pub DocumentShows : Document → (tls13 kems kexs ciphers : ℕ) → Type 0
DocumentShows d tls13 kems kexs ciphers =
    (tls13_protocols d ≡ tls13)
    × (algorithms kem d ≡ kems)
    × (algorithms kex d ≡ kexs)
    × (algorithms cipher d ≡ ciphers)

-- What the tier of a target says of its document.
abbrev pub HasMatchingDocument : (uuid now : Text) → Target → Type 0
HasMatchingDocument uuid now t =
    ((t.tier_class ≡ tier1) ↔ DocumentShows (build_cbom uuid now t) 1 1 0 0)
    × ((t.tier_class ≡ tier2) ↔ DocumentShows (build_cbom uuid now t) 1 0 0 0)

check-HasMatchingDocument :
    (uuid now : Text) (t : Target) → IsDerived t.row → HasMatchingDocument uuid now t
unfolding tier_of build_cbom components_of
check-HasMatchingDocument uuid now t d =
    let tier : t.tier_class ≡ (tier_of (shown t.row)).0 = ap (λ p. p.0) d.tier_shown in
    rw
      (
        tier,
        tls13_protocols_lem t uuid now,
        algorithms_lem kem t uuid now,
        algorithms_lem kex t uuid now,
        algorithms_lem cipher t uuid now,
      )
      (ground (arith, tier_of_rule (shown t.row)))

-- Of the targets that a CSV file gives, those of tier 1 are those whose document has one component
-- with the protocol TLS 1.3, lists one KEM and lists neither a key exchange nor a cipher as a
-- finding, and those of tier 2 are those whose document has one component with the protocol TLS 1.3
-- and lists none of the three.
pub load_targets-HasMatchingDocument :
    (uuid now : Text) (rows : List CsvRow) {ts : List Target}
    → load_targets rows ≡ some ts
    → All (HasMatchingDocument uuid now) ts
load_targets-HasMatchingDocument uuid now rows {ts} h =
    All-imp ts (check-HasMatchingDocument uuid now) (load_targets-All-IsDerived rows h)

-- ===== src/Tls/Options/Parsed.antt =====
-- What the options of the two programs are after `parse_options`.
use hybrid_tls_lab.Prelude.{
  ℕ, ◌≤◌, ◌≡◌, refl, sym, ap, ◌∙◌, inl, inr, arith, Bool, true, false, Option, none, some, List, [],
  ◌∷◌, if◌then◌else◌, Bool-cases, Option-cases,
}
use mathlib.Core.Path.{subst}
use mathlib.Core.Option.{some-injective}
use hybrid_tls_lab.Prelude.Text.{Text, codes, text_eq, text_eq_iff}
use hybrid_tls_lab.Schemas.{Mode, classical, hybrid, hybrid_p256, mode_text, is_id}
use hybrid_tls_lab.Tls.Common.{valid_identifier}
use hybrid_tls_lab.Tls.Common.Escape.{valid_identifier-is_id}
use hybrid_tls_lab.Tls.Options.{
  ℤ, pos, negsuc, in_range, Endpoint, ClientOptions, default_client, ServerOptions, valid_mode,
  client_option, parse_arguments, checked_client, checked_server, parse_client,
}

-- The mode and the group that an endpoint is measured under.
abbrev pub Measures : Endpoint → Text → Text → Type 0
Measures e mode group = (e.mode ≡ mode) × (e.group ≡ group)

-- The endpoints have the modes of the schemas, each with its group.
pub record HasEndpoints (o : ClientOptions) : Type 0 where
  pub classical : Measures o.classical (mode_text classical) (codes "X25519")
  pub hybrid : Measures o.hybrid (mode_text hybrid) (codes "X25519MLKEM768")
  pub hybrid_p256 : Measures o.hybrid_p256 (mode_text hybrid_p256) (codes "SecP256r1MLKEM768")

abbrev pub IsInt : ℕ → ℕ → ℤ → Type 0
IsInt low high (pos n) = (low ≤ n) × (n ≤ high)
IsInt low high (negsuc n) = ⊥

IsInt-of-in_range : (low high : ℕ) (i : ℤ) → in_range low high i ≡ true → IsInt low high i
IsInt-of-in_range low high (pos n) h = ground arith
IsInt-of-in_range low high (negsuc n) h = cc

-- A value of the options that no option changes, the loop leaves as it is.
parse_arguments-keeps {ℓ κ} :
    {O : Type ℓ} {V : Type κ} (option : Text → Text → O → Option O) (value_of : O → V)
    → ((name value : Text) (o o' : O) → option name value o ≡ some o' → value_of o' ≡ value_of o)
    → (argv : List Text) (o o' : O) → parse_arguments option argv o ≡ some o'
    → value_of o' ≡ value_of o
unfolding parse_arguments
parse_arguments-keeps option value_of keeps [] o o' h = ap value_of (sym (some-injective _ _ h))
parse_arguments-keeps option value_of keeps (name ∷ []) o o' h = cc
parse_arguments-keeps option value_of keeps (name ∷ value ∷ argv) o o' h =
    elim (Option-cases (option name value o)) [
      | inl e ↦
          let impossible : ◌≡◌ {A = Option _} none (some o') = rw (e, parse_arguments) at h in cc
      | inr (o1, e) ↦
          parse_arguments-keeps option value_of keeps argv o1 o' (rw (e, parse_arguments) at h)
          ∙ keeps name value o o1 e
    ]

-- The modes and the groups of the endpoints.
abbrev measured : ClientOptions → List Text
measured o =
    o.classical.mode ∷ o.classical.group ∷ o.hybrid.mode ∷ o.hybrid.group ∷ o.hybrid_p256.mode
    ∷ o.hybrid_p256.group ∷ []

client_option-measured :
    (atoi : Text → ℤ) (name value : Text) (o o' : ClientOptions)
    → client_option atoi name value o ≡ some o'
    → measured o' ≡ measured o
unfolding client_option
client_option-measured atoi name value o o' h = ground arith

client_loop-measured :
    (atoi : Text → ℤ) (id : Text) (argv : List Text) (o : ClientOptions)
    → parse_arguments (client_option atoi) argv (default_client id) ≡ some o
    → measured o ≡ measured (default_client id)
client_loop-measured atoi id argv o h =
    parse_arguments-keeps (client_option atoi) measured (client_option-measured atoi) argv
      (default_client id) o h

HasEndpoints-of-measured :
    (id : Text) (o : ClientOptions) → measured o ≡ measured (default_client id) → HasEndpoints o
unfolding default_client
HasEndpoints-of-measured id o h = record {
  classical = (cc, cc);
  hybrid = (cc, cc);
  hybrid_p256 = (cc, cc);
}

-- The options that the client runs with.
pub record IsClient (o : ClientOptions) : Type 0 where
  pub endpoints : HasEndpoints o
  pub iterations : IsInt 1 1_000_000 o.iterations
  pub warmup : IsInt 0 100_000 o.warmup
  pub run_id : is_id 160 o.run_id ≡ true

if_some-eq-some {ℓ} :
    {A : Type ℓ} (b : Bool) (x a : A) → (if b then some x else none) ≡ some a → (b ≡ true) × (x ≡ a)
if_some-eq-some true x a h = (refl, some-injective _ _ h)
if_some-eq-some false x a h = cc

checked_client-eq-some :
    (o o' : ClientOptions)
    → checked_client o ≡ some o'
    → (o ≡ o')
      × (in_range 1 1_000_000 o.iterations ≡ true)
      × (in_range 0 100_000 o.warmup ≡ true)
      × (valid_identifier o.run_id ≡ true)
unfolding checked_client
checked_client-eq-some o o' h =
    let (tests, same) = if_some-eq-some _ o o' h in (same, ground arith, ground arith, ground arith)

-- Options that `parse_options` of the client accepts, whatever the arguments are and whatever atoi
-- makes of them, have from 1 to 1,000,000 iterations, at most 100,000 warmups and a run id that a
-- schema would take as a sample id; and no argument changes the modes and groups of the endpoints.
pub parse_client-IsClient :
    (atoi : Text → ℤ) (generated_run_id : Text) (argv : List Text) (o : ClientOptions)
    → parse_client atoi generated_run_id argv ≡ some o
    → IsClient o
unfolding parse_client
parse_client-IsClient atoi id argv o h =
    elim (Option-cases (parse_arguments (client_option atoi) argv (default_client id))) [
      | inl e ↦ let impossible : ◌≡◌ {A = Option _} none (some o) = rw (e, parse_client) at h in cc
      | inr (o1, e) ↦
          let (same, iterations, warmup, run_id) =
            checked_client-eq-some o1 o (rw (e, parse_client) at h) in
          subst IsClient same (record {
            endpoints = HasEndpoints-of-measured id o1 (client_loop-measured atoi id argv o1 e);
            iterations = IsInt-of-in_range 1 1_000_000 o1.iterations iterations;
            warmup = IsInt-of-in_range 0 100_000 o1.warmup warmup;
            run_id = sym (valid_identifier-is_id o1.run_id) ∙ run_id;
          })
    ]

valid_mode-cases : (mode : Text) → valid_mode mode ≡ true → (m : Mode) × (mode_text m ≡ mode)
unfolding valid_mode
valid_mode-cases mode h = elim (Bool-cases (text_eq mode (codes "classical"))) [
  | inl e ↦ (classical, sym ((text_eq_iff mode (codes "classical")).0 e))
  | inr e ↦ elim (Bool-cases (text_eq mode (codes "hybrid"))) [
    | inl e' ↦ (hybrid, sym ((text_eq_iff mode (codes "hybrid")).0 e'))
    | inr e' ↦ (hybrid_p256, sym ((text_eq_iff mode (codes "hybrid_p256")).0 (ground arith)))
  ]
]

-- The options that a server runs with.
pub record IsServer (o : ServerOptions) : Type 0 where
  pub port : IsInt 1 65_535 o.port
  pub mode : (m : Mode) × (mode_text m ≡ o.mode)

pub checked_server-IsServer : (o o' : ServerOptions) → checked_server o ≡ some o' → IsServer o'
unfolding checked_server
checked_server-IsServer o o' h =
    let (tests, same) = if_some-eq-some _ o o' h in
    subst IsServer same (record {
      port = IsInt-of-in_range 1 65_535 o.port (ground arith);
      mode = valid_mode-cases o.mode (ground arith);
    })

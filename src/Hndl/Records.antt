-- ===== src/Hndl/Records.antt =====
-- The records of `build_exposure` and their counts.
use hybrid_tls_lab.Prelude.{
  ℕ, ◌+◌, ◌≤◌, ◌≡◌, refl, inl, inr, arith, none, true, false, List, [], ◌∷◌, length, count_if, All,
  Bool-cases, if◌then◌else◌, length-map,
}
use hybrid_tls_lab.Prelude.Dict.{Dict, lookup}
use hybrid_tls_lab.Prelude.Text.{Text, codes, text_eq, text_eq_iff, contains}
use hybrid_tls_lab.Tprm.{TierClass, tier1, tier2, tier3}
use hybrid_tls_lab.Qvi.{Target, qvi_summary}
use hybrid_tls_lab.Qvi.Summary.{tier_eq, in_tier, qvi_summary_counts}
use hybrid_tls_lab.Hndl.{
  HndlInput, ExposureRecord, status_unclassified, status_exposed, exposure_status_of, exposure_of,
  build_exposure, load_hndl_inputs, input_or, exposure_summary,
}

-- With no input file every target waits for its data owner: no status is made up.
pub build_exposure_no_file :
    (year : ℕ) (ts : List Target)
    → All
        (λ r. r.exposure_status ≡ status_unclassified)
        (build_exposure year ts (load_hndl_inputs none))
unfolding build_exposure load_hndl_inputs exposure_of exposure_status_of lookup
build_exposure_no_file year [] = tt
build_exposure_no_file year (t ∷ ts) = (refl, build_exposure_no_file year ts)

status_exclusive :
    (s : Text) → text_eq s status_exposed ≡ true → contains (codes "UNCLASSIFIED") s ≡ false
status_exclusive s e = rw ((text_eq_iff s status_exposed).0 e)

counts_exclusive :
    (rs : List ExposureRecord)
    → count_if (λ r. text_eq r.exposure_status status_exposed) rs
        + count_if (λ r. contains (codes "UNCLASSIFIED") r.exposure_status) rs
      ≤ length rs
counts_exclusive [] = omega arith
counts_exclusive (r ∷ rs) =
    let rest = counts_exclusive rs in
    elim (Bool-cases (text_eq r.exposure_status status_exposed)) [
      | inl e ↦ rw (e, status_exclusive r.exposure_status e) (omega arith)
      | inr e ↦ rw e (ground arith)
    ]

tier1_not_exposed :
    (year : ℕ) (stub : HndlInput)
    → text_eq (exposure_status_of year tier1 stub) status_exposed ≡ false
unfolding exposure_status_of
tier1_not_exposed year stub = ground arith

one_of_two :
    (year : ℕ) (tier : TierClass) (stub : HndlInput)
    → (if text_eq (exposure_status_of year tier stub) status_exposed then 1 else 0)
        + (if tier_eq tier tier1 then 1 else 0)
      ≤ 1
one_of_two year tier1 stub = rw (tier1_not_exposed year stub) (omega arith)
one_of_two year tier2 stub = ground arith
one_of_two year tier3 stub = ground arith

exposed_add_tier1 :
    (year : ℕ) (inputs : Dict HndlInput) (ts : List Target)
    → count_if (λ r. text_eq r.exposure_status status_exposed) (build_exposure year ts inputs)
        + in_tier tier1 ts
      ≤ length ts
unfolding build_exposure exposure_of
exposed_add_tier1 year inputs [] = omega arith
exposed_add_tier1 year inputs (t ∷ ts) =
    let stub = input_or (lookup t.target inputs) in
    omega (arith, one_of_two year t.tier_class stub, exposed_add_tier1 year inputs ts)

pub length-build_exposure :
    (year : ℕ) (inputs : Dict HndlInput) (ts : List Target)
    → length (build_exposure year ts inputs) ≡ length ts
unfolding build_exposure
length-build_exposure year inputs ts = length-map (exposure_of year inputs) ts

-- The summary counts every target once; no record is counted both as exposed and as unclassified,
-- and no target of tier 1 is counted as exposed.
pub exposure_summary_counts :
    (year : ℕ) (inputs : Dict HndlInput) (ts : List Target)
    → let s = exposure_summary (build_exposure year ts inputs) in
      (s.total ≡ length ts)
      × (s.exposed + s.unclassified ≤ s.total)
      × (s.exposed + (qvi_summary ts).tier1 ≤ s.total)
unfolding exposure_summary
exposure_summary_counts year inputs ts =
    let records = build_exposure year ts inputs in
    omega (
      arith,
      length-build_exposure year inputs ts,
      counts_exclusive records,
      exposed_add_tier1 year inputs ts,
      (qvi_summary_counts ts).0,
    )

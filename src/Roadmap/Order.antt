-- ===== src/Roadmap/Order.antt =====
-- The two lists of `build_roadmap`.
use mathlib.Core.List.{Perm, append-nil, append_assoc}
use hybrid_tls_lab.Prelude.{
  ℕ, is_some, ◌+◌, ◌≡◌, refl, sym, ◌∙◌, arith, Bool, Option, none, some, List, [], ◌∷◌, ◌++◌,
  length, keep, Option-cases, inl, inr, not, if◌then◌else◌,
}
use hybrid_tls_lab.Prelude.Sort.{
  sort_desc-perm, sort_desc-IsDescending, sort_desc-stable, length-sort_desc, IsDescending,
  with_key,
}
use hybrid_tls_lab.Hndl.{ExposureRecord}
use hybrid_tls_lab.Roadmap.{Ranked, Roadmap, rank, append_to, rank_all, build_roadmap}

-- The records that rank, in order.
abbrev pub cons_some : Option Ranked → List Ranked → List Ranked
cons_some none ks = ks
cons_some (some k) ks = k ∷ ks

abbrev pub ranked_of : List ExposureRecord → List Ranked
ranked_of [] = []
ranked_of (r ∷ rs) = cons_some (rank r) (ranked_of rs)

abbrev pub unranked : ExposureRecord → Bool
unranked r = not (is_some (rank r))

append_to_lem :
    (o : Option Ranked) (r : ExposureRecord) (m : Roadmap) (ks : List Ranked)
    (us : List ExposureRecord)
    → ((append_to o r m).prioritized ++ ks ≡ m.prioritized ++ cons_some o ks)
      × ((append_to o r m).needs_input ++ us
          ≡ m.needs_input ++ (if not (is_some o) then r ∷ us else us))
append_to_lem none r m ks us = (refl, append_assoc m.needs_input (r ∷ []) us)
append_to_lem (some k) r m ks us = (append_assoc m.prioritized (k ∷ []) ks, refl)

rank_all_lem :
    (m : Roadmap) (rs : List ExposureRecord)
    → ((rank_all m rs).prioritized ≡ m.prioritized ++ ranked_of rs)
      × ((rank_all m rs).needs_input ≡ m.needs_input ++ keep unranked rs)
unfolding rank_all
rank_all_lem m [] = (sym (append-nil _), sym (append-nil _))
rank_all_lem m (r ∷ rs) =
    let here = append_to_lem (rank r) r m (ranked_of rs) (keep unranked rs) in
    let later = rank_all_lem (append_to (rank r) r m) rs in (later.0 ∙ here.0, later.1 ∙ here.1)

length_split :
    (rs : List ExposureRecord) → length (ranked_of rs) + length (keep unranked rs) ≡ length rs
length_split [] = refl
length_split (r ∷ rs) = elim (Option-cases (rank r)) [
  | inl e ↦ rw e (omega (arith, length_split rs))
  | inr (k, e) ↦ rw e (omega (arith, length_split rs))
]

-- The score of a ranked record.
abbrev pub score : Ranked → ℕ
score k = k.priority_score

-- Every record is ranked or waits for input, and none is lost or repeated: the prioritized list
-- is a rearrangement of the ranked records by falling score, where equal scores keep their order,
-- and the records that wait keep theirs.
pub build_roadmap_partition :
    (rs : List ExposureRecord)
    → let m = build_roadmap rs in
      Perm m.prioritized (ranked_of rs)
      × IsDescending score m.prioritized
      × ((k : ℕ) → with_key score k m.prioritized ≡ with_key score k (ranked_of rs))
      × (m.needs_input ≡ keep unranked rs)
      × (length m.prioritized + length m.needs_input ≡ length rs)
unfolding build_roadmap
build_roadmap_partition rs =
    let (ranked, waiting) = rank_all_lem (record { prioritized = []; needs_input = [] }) rs in
    rw (ranked, waiting)
      (
        sort_desc-perm score (ranked_of rs),
        sort_desc-IsDescending score (ranked_of rs),
        (λ k. sort_desc-stable score k (ranked_of rs)),
        refl,
        omega (arith, length-sort_desc score (ranked_of rs), length_split rs),
      )

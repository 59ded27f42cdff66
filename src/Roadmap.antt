-- ===== src/Roadmap.antt =====
-- dashboard/app/roadmap.py: the exposure records ranked by urgency over cost.
pub mod Order
pub mod Scores
use hybrid_tls_lab.Prelude.{ℕ, Bool, Option, none, some, List, [], ◌∷◌, ◌++◌, ◌==◌, if◌then◌else◌}
use hybrid_tls_lab.Prelude.Double.{Double, of_int, div_int, round_to}
use hybrid_tls_lab.Prelude.Sort.{sort_desc}
use hybrid_tls_lab.Prelude.Text.{Text, codes, text_eq, or_empty, contains}
use hybrid_tls_lab.Hndl.{ExposureRecord, status_exposed, status_low_urgency, status_not_exposed}

-- `REMEDIATION_COST_WEIGHT.get(size, None)`
unfoldable pub cost_weight : Text → Option ℕ
cost_weight size =
    if text_eq size (codes "S")
    then some 1
    else if text_eq size (codes "M")
    then some 3
    else if text_eq size (codes "L")
    then some 8
    else none

-- `STATUS_WEIGHT.get(status, 0)`
unfoldable pub status_weight : Text → ℕ
status_weight status =
    if text_eq status status_exposed then 3 else if text_eq status status_low_urgency then 1 else 0

-- A ranked record; the score is in hundredths.
pub record Ranked : Type 0 where
  pub r : ExposureRecord
  pub open r use *
  pub priority_score : ℕ
  pub cost_weight : ℕ

-- `round(urgency / cost if cost else 0, 2)`
unfoldable pub score_of : ℕ → ℕ → ℕ
score_of urgency cost = round_to 100 (if cost == 0 then of_int 0 else div_int urgency cost)

-- One round of the loop: a ranked record, or none if the record needs input.
unfoldable pub rank : ExposureRecord → Option Ranked
rank r =
    if contains (codes "UNCLASSIFIED") r.exposure_status
    then none
    else elim (cost_weight (or_empty r.remediation_cost)) [
      | none ↦ none
      | some cost ↦ some (record {
        r = r;
        priority_score = score_of (status_weight r.exposure_status) cost;
        cost_weight = cost;
      })
    ]

pub record Roadmap : Type 0 where
  pub prioritized : List Ranked
  pub needs_input : List ExposureRecord

-- The loop appends to one of the two lists.
abbrev pub append_to : Option Ranked → ExposureRecord → Roadmap → Roadmap
append_to (some ranked) r m = record m { prioritized = m.prioritized ++ ranked ∷ [] }
append_to none r m = record m { needs_input = m.needs_input ++ r ∷ [] }

unfoldable pub rank_all : Roadmap → List ExposureRecord → Roadmap
rank_all m [] = m
rank_all m (r ∷ rs) = rank_all (append_to (rank r) r m) rs

unfoldable pub build_roadmap : List ExposureRecord → Roadmap
build_roadmap exposure_records =
    let m = rank_all (record { prioritized = []; needs_input = [] }) exposure_records in
    record m { prioritized = sort_desc (λ k. k.priority_score) m.prioritized }

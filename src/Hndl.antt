-- ===== src/Hndl.antt =====
-- dashboard/app/hndl.py: the inputs of the data owners, and the exposure of each target to
-- harvest now, decrypt later. The rows are what csv.DictReader yields; the year is an input.
mod Digits
pub mod Inputs
pub mod Status
pub mod Records
pub mod File
use hybrid_tls_lab.Prelude.{
  ℕ, ◌+◌, Bool, true, false, not, ◌&&◌, ◌||◌, is_some, Option, none, some, List, [], ◌∷◌, map, leb,
  if◌then◌else◌, length, count_if,
}
use hybrid_tls_lab.Prelude.Dict.{Dict, lookup, insert}
use hybrid_tls_lab.Prelude.Text.{
  Text, codes, text_eq, or_empty, or_else, is_empty, strip, upper, contains,
}
use hybrid_tls_lab.Hndl.Digits.{isdigit, int_of_digits}
use hybrid_tls_lab.Tprm.{TierClass, tier1, tier2, tier3}
use hybrid_tls_lab.Qvi.{Target}

abbrev pub crqc_arrival_years_min : ℕ
crqc_arrival_years_min = 8

-- A row; a field that it lacks is None.
pub record HndlRow : Type 0 where
  pub target : Option Text
  pub data_sensitivity : Option Text
  pub retention_years : Option Text
  pub remediation_cost : Option Text

pub record HndlInput : Type 0 where
  pub data_sensitivity : Text
  pub retention_years : Option ℕ
  pub remediation_cost : Option Text

-- `(s or "").strip()`
abbrev pub clean : Option Text → Text
clean s = strip (or_empty s)

-- `s or None`
abbrev pub or_none : Text → Option Text
or_none [] = none
or_none (c ∷ s) = some (c ∷ s)

-- The entry of a row; a retention that `int` refuses has none here, and `raises` tells of it.
unfoldable pub input_of : HndlRow → HndlInput
input_of row =
    let retention_raw = clean row.retention_years in
    record {
      data_sensitivity = or_else (upper (clean row.data_sensitivity)) (codes "UNCLASSIFIED");
      retention_years = if isdigit retention_raw then int_of_digits retention_raw else none;
      remediation_cost = or_none (upper (clean row.remediation_cost));
    }

-- The round of the loop raises: the row names a target, and `int` refuses the retention although
-- it passes `isdigit`.
unfoldable pub raises : HndlRow → Bool
raises row =
    let retention_raw = clean row.retention_years in
    not (is_empty (clean row.target))
    && isdigit retention_raw
    && not (is_some (int_of_digits retention_raw))

-- One round of the loop; a row with no target is skipped.
unfoldable pub add_input : Dict HndlInput → HndlRow → Dict HndlInput
add_input inputs row =
    let target = clean row.target in
    if is_empty target then inputs else insert target (input_of row) inputs

unfoldable pub add_inputs : Dict HndlInput → List HndlRow → Dict HndlInput
add_inputs inputs [] = inputs
add_inputs inputs (row ∷ rows) = add_inputs (add_input inputs row) rows

-- `none` is a file that does not exist. None of the rows raises, which Hndl.File sees to.
unfoldable pub load_hndl_inputs : Option (List HndlRow) → Dict HndlInput
load_hndl_inputs none = []
load_hndl_inputs (some rows) = add_inputs [] rows

abbrev pub unclassified_input : HndlInput
unclassified_input = record {
  data_sensitivity = codes "UNCLASSIFIED";
  retention_years = none;
  remediation_cost = none;
}

-- `d.get(k, default)`
abbrev pub input_or : Option HndlInput → HndlInput
input_or none = unclassified_input
input_or (some input) = input

abbrev pub status_unclassified : Text
status_unclassified = codes "UNCLASSIFIED — needs data owner input"

abbrev pub status_exposed : Text
status_exposed = codes "EXPOSED"

abbrev pub status_low_urgency : Text
status_low_urgency = codes "LOW URGENCY — retention ends before estimated threat window"

abbrev pub status_not_exposed : Text
status_not_exposed = codes "NOT EXPOSED — posture or sensitivity clear"

pub record ExposureRecord : Type 0 where
  pub t : Target
  pub open t use *
  pub data_sensitivity : Text
  pub retention_years : Option ℕ
  pub remediation_cost : Option Text
  pub exposure_closes_year : Option ℕ
  pub exposure_status : Text

abbrev pub at_risk : TierClass → Bool
at_risk tier1 = false
at_risk tier2 = true
at_risk tier3 = true

abbrev pub closes_year : ℕ → Option ℕ → Option ℕ
closes_year year none = none
closes_year year (some years) = some (year + years)

-- `closes is not None and closes >= year + CRQC_ARRIVAL_YEARS_MIN`
abbrev pub still_confidential : ℕ → Option ℕ → Bool
still_confidential year none = false
still_confidential year (some closes) = leb (year + crqc_arrival_years_min) closes

unfoldable pub exposure_status_of : ℕ → TierClass → HndlInput → Text
exposure_status_of year tier stub =
    let posture_at_risk = at_risk tier in
    let sensitivity_at_risk = not (
      text_eq stub.data_sensitivity (codes "UNCLASSIFIED")
      || text_eq stub.data_sensitivity (codes "NONE")) in
    let still_confidential_at_threat =
      still_confidential year (closes_year year stub.retention_years) in
    if not (is_some stub.retention_years) || text_eq stub.data_sensitivity (codes "UNCLASSIFIED")
    then status_unclassified
    else if posture_at_risk && sensitivity_at_risk && still_confidential_at_threat
    then status_exposed
    else if posture_at_risk && sensitivity_at_risk && not still_confidential_at_threat
    then status_low_urgency
    else status_not_exposed

unfoldable pub exposure_of : ℕ → Dict HndlInput → Target → ExposureRecord
exposure_of year inputs t =
    let stub = input_or (lookup t.target inputs) in
    record {
      t = t;
      data_sensitivity = stub.data_sensitivity;
      retention_years = stub.retention_years;
      remediation_cost = stub.remediation_cost;
      exposure_closes_year = closes_year year stub.retention_years;
      exposure_status = exposure_status_of year t.tier_class stub;
    }

unfoldable pub build_exposure : ℕ → List Target → Dict HndlInput → List ExposureRecord
build_exposure year targets inputs = map (exposure_of year inputs) targets

pub record ExposureSummary : Type 0 where
  pub total : ℕ
  pub exposed : ℕ
  pub unclassified : ℕ
  pub threat_window : Text

unfoldable pub exposure_summary : List ExposureRecord → ExposureSummary
exposure_summary records = record {
  total = length records;
  exposed = count_if (λ r. text_eq r.exposure_status status_exposed) records;
  unclassified = count_if (λ r. contains (codes "UNCLASSIFIED") r.exposure_status) records;
  threat_window = codes "8-15 years (assumption, see docs)";
}

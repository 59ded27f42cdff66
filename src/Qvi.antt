-- ===== src/Qvi.antt =====
-- dashboard/app/qvi.py: the vendors relabelled as scan targets, and their counts by tier.
pub mod Summary
use hybrid_tls_lab.Prelude.{
  ℕ, ◌+◌, Option, none, some, List, [], ◌∷◌, map, ◌==◌, if◌then◌else◌, length, ◌>>=◌,
}
use hybrid_tls_lab.Prelude.Double.{of_int, div_int, mul, round}
use hybrid_tls_lab.Prelude.Text.{Text, codes}
use hybrid_tls_lab.Tprm.{CsvRow, TierClass, tier1, tier2, tier3, Vendor, load_vendors}

unfoldable pub qvi_tier_labels : TierClass → Text
qvi_tier_labels tier1 = codes "QVI Tier 1 — PQ Ready"
qvi_tier_labels tier2 = codes "QVI Tier 2 — Conditional"
qvi_tier_labels tier3 = codes "QVI Tier 3 — Critical"

-- The dict of the vendor with two more keys.
pub record Target : Type 0 where
  pub row : Vendor
  pub open row use *
  pub target : Text
  pub qvi_tier_label : Text

unfoldable pub target_of : Vendor → Target
target_of row = record {
  row = row;
  target = row.vendor;
  qvi_tier_label = qvi_tier_labels row.tier_class;
}

unfoldable pub load_targets : List CsvRow → Option (List Target)
load_targets rows = do vendors ← load_vendors rows; some (map target_of vendors)

pub record Counts : Type 0 where
  pub tier1 : ℕ
  pub tier2 : ℕ
  pub tier3 : ℕ

-- `counts[t["tier_class"]] += 1`
abbrev pub bump : TierClass → Counts → Counts
bump TierClass.tier1 c = record c { tier1 = c.tier1 + 1 }
bump TierClass.tier2 c = record c { tier2 = c.tier2 + 1 }
bump TierClass.tier3 c = record c { tier3 = c.tier3 + 1 }

unfoldable pub count_tiers : Counts → List Target → Counts
count_tiers c [] = c
count_tiers c (t ∷ ts) = count_tiers (bump t.tier_class c) ts

pub record QviSummary : Type 0 where
  pub total : ℕ
  pub tier1 : ℕ
  pub tier2 : ℕ
  pub tier3 : ℕ
  pub pq_ready_pct : ℕ

-- `round((ready / total) * 100) if total else 0`
unfoldable pub ready_pct : ℕ → ℕ → ℕ
ready_pct ready total = if total == 0 then 0 else round (mul (div_int ready total) (of_int 100))

unfoldable pub qvi_summary : List Target → QviSummary
qvi_summary targets =
    let counts = count_tiers (record { tier1 = 0; tier2 = 0; tier3 = 0 }) targets in
    record {
      total = length targets;
      tier1 = counts.tier1;
      tier2 = counts.tier2;
      tier3 = counts.tier3;
      pq_ready_pct = ready_pct counts.tier1 (length targets);
    }

-- ===== src/Tests.antt =====
-- A small run of the dashboard: the rows of two vendors, what the data owners gave, and the scan.
mod Posture
mod Scoring
mod Storage
mod Pages
mod Reads
mod Files
mod App
mod Races
mod Suite
mod Tls
use hybrid_tls_lab.Prelude.{ℕ, true, false, none, some, List, [], ◌∷◌}
use hybrid_tls_lab.Prelude.Text.{Text, codes}
use hybrid_tls_lab.Tprm.{CsvRow, Vendor, vendor_of}
use hybrid_tls_lab.Qvi.{Target, target_of}
use hybrid_tls_lab.Hndl.{HndlRow, HndlInput}

abbrev pub bank : CsvRow
bank = record {
  vendor = some (codes " Bank ");
  tls13 = some (codes "yes");
  pqc = some (codes "Yes (X25519MLKEM768)");
  pqc_provider = none;
  static_rsa = some (codes "No");
  weak_cipher = some (codes "No");
  curves = some (codes "X25519");
}

abbrev pub shop : CsvRow
shop = record {
  vendor = some (codes "Shop");
  tls13 = some (codes "No");
  pqc = some (codes "No");
  pqc_provider = some [];
  static_rsa = some (codes "Yes");
  weak_cipher = none;
  curves = some (codes "secp256r1");
}

abbrev pub vendors_csv : List CsvRow
vendors_csv = bank ∷ shop ∷ []

abbrev pub bank_vendor : Vendor
bank_vendor = vendor_of bank (codes " Bank ") (codes "X25519")

abbrev pub shop_vendor : Vendor
shop_vendor = vendor_of shop (codes "Shop") (codes "secp256r1")

abbrev pub targets : List Target
targets = target_of bank_vendor ∷ target_of shop_vendor ∷ []

abbrev pub shop_row : HndlRow
shop_row = record {
  target = some (codes "Shop ");
  data_sensitivity = some (codes "pii");
  retention_years = some (codes "10");
  remediation_cost = some (codes "m");
}

abbrev pub hndl_inputs_csv : List HndlRow
hndl_inputs_csv = shop_row ∷ []

abbrev pub shop_input : HndlInput
shop_input = record {
  data_sensitivity = codes "PII";
  retention_years = some 10;
  remediation_cost = some (codes "M");
}

-- ===== src/Score/Certs.antt =====
-- dashboard/app/score.py: the certificate cache, filled from the scan output on first use. The
-- documents that json.loads gives for the two files are the input.
use hybrid_tls_lab.Prelude.{
  Bool, true, false, not, Option, none, some, List, [], ◌∷◌, if◌then◌else◌,
}
use hybrid_tls_lab.Prelude.Dict.{Dict, insert}
use hybrid_tls_lab.Prelude.Text.{Text, or_empty, is_empty}

pub record Certificate : Type 0 where
  pub cert_key : Option Text
  pub cert_sig_alg : Option Text

-- One result of the scan; a key that is absent or null is none.
pub record ScanRecord : Type 0 where
  pub label : Option Text
  pub certificate : Option Certificate
  pub tls13 : Option Bool
  pub pqc : Option Bool
  pub static_rsa : Option Bool

-- An item of the results: an object of these fields, or one on which the round of the loop raises,
-- like an item that is no object or a certificate that is a text.
pub data ScanItem : Type 0 where
  object : ScanRecord → ScanItem
  refused : ScanItem

-- The `results` of an object: no such key, a value that cannot be iterated over, like null, or items.
-- The characters of a text and the keys of an object are items that are refused.
pub data Results : Type 0 where
  absent not_iterable : Results
  items : List ScanItem → Results

-- A scan file: absent, not JSON, an object, or another JSON value.
pub data ScanFile : Type 0 where
  missing unreadable : ScanFile
  mapping : Results → ScanFile
  not_mapping : ScanFile

-- An entry of the cache.
pub record Scan : Type 0 where
  pub cert_key : Text
  pub cert_sig_alg : Text
  pub tls13 : Option Bool
  pub pqc : Option Bool
  pub static_rsa : Option Bool

abbrev pub Cache : Type 0
Cache = Dict Scan

abbrev pub certificate_or : Option Certificate → Certificate
certificate_or none = record { cert_key = none; cert_sig_alg = none }
certificate_or (some c) = c

unfoldable pub scan_of : ScanRecord → Scan
scan_of rec =
    let cert = certificate_or rec.certificate in
    record {
      cert_key = or_empty cert.cert_key;
      cert_sig_alg = or_empty cert.cert_sig_alg;
      tls13 = rec.tls13;
      pqc = rec.pqc;
      static_rsa = rec.static_rsa;
    }

unfoldable pub add_scan : Cache → ScanRecord → Cache
add_scan cache rec =
    let label = or_empty rec.label in
    if is_empty label then cache else insert label (scan_of rec) cache

-- The loop over the items: whether it ends without an exception, and the cache as it leaves it.
unfoldable pub add_scans : Cache → List ScanItem → Bool × Cache
add_scans cache [] = (true, cache)
add_scans cache (refused ∷ recs) = (false, cache)
add_scans cache (object rec ∷ recs) = add_scans (add_scan cache rec) recs

abbrev pub no_scans : Cache → Bool
no_scans [] = true
no_scans (e ∷ cache) = false

-- The loop over `doc.get("results", [])`
unfoldable pub add_results : Cache → Results → Bool × Cache
add_results cache absent = (true, cache)
add_results cache not_iterable = (false, cache)
add_results cache (items recs) = add_scans cache recs

-- The loop over the files: the result, none for an exception, which `doc.get` raises on a value that
-- is no object, and the cache as it is left.
unfoldable pub fill : Cache → List ScanFile → Option Cache × Cache
fill cache [] = (some cache, cache)
fill cache (missing ∷ files) = fill cache files
fill cache (unreadable ∷ files) = fill cache files
fill cache (not_mapping ∷ files) = (none, cache)
fill cache (mapping results ∷ files) =
    let (done, filled) = add_results cache results in
    let rest = fill filled files in
    if not done then (none, filled) else if no_scans filled then rest else (some filled, filled)

-- `_certs()`, with the global `_CERT_CACHE` passed in and returned.
unfoldable pub certs : List ScanFile → Option Cache → Option Cache × Option Cache
certs files (some cache) = (some cache, some cache)
certs files none = let (result, cache) = fill [] files in (result, some cache)

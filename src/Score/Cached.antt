-- ===== src/Score/Cached.antt =====
-- The certificate cache over calls.
use hybrid_tls_lab.Prelude.{◌++◌, All, ◌≡◌, refl, Option, none, some, List, [], ◌∷◌}
use hybrid_tls_lab.Score.Certs.{
  ScanFile, missing, unreadable, mapping, not_mapping, Cache, fill, certs,
}

-- A cache that a call has filled is what every later call returns, whatever the files hold by
-- then, also after a call that raised.
pub certs_again :
    (files files' : List ScanFile) (state : Option Cache)
    → (cache : Cache) × ((certs files state).1 ≡ some cache)
      × (certs files' (certs files state).1 ≡ (some cache, some cache))
unfolding certs
certs_again files files' none = ((fill [] files).1, refl, refl)
certs_again files files' (some cache) = (cache, refl, refl)

-- The files before it give no results: they are absent or unreadable.
abbrev pub GivesNone : ScanFile → Type 0
GivesNone missing = Unit
GivesNone unreadable = Unit
GivesNone (mapping results) = ⊥
GivesNone not_mapping = ⊥

fill_not_mapping :
    (skipped rest : List ScanFile)
    → All GivesNone skipped
    → fill [] (skipped ++ not_mapping ∷ rest) ≡ (none, [])
unfolding fill
fill_not_mapping [] rest h = refl
fill_not_mapping (missing ∷ skipped) rest h = fill_not_mapping skipped rest h.1
fill_not_mapping (unreadable ∷ skipped) rest h = fill_not_mapping skipped rest h.1
fill_not_mapping (mapping results ∷ skipped) rest h = absurd h.0
fill_not_mapping (not_mapping ∷ skipped) rest h = absurd h.0

-- A scan file whose document is no object, met after files that are absent or unreadable, makes
-- the first call raise, although a document that is a list is provided for; from then on every
-- call returns an empty cache, whatever the files hold.
pub certs_not_mapping :
    (skipped rest files' : List ScanFile)
    → All GivesNone skipped
    → let (found, state) = certs (skipped ++ not_mapping ∷ rest) none in
      (found ≡ none) × (certs files' state ≡ (some [], some []))
unfolding certs
certs_not_mapping skipped rest files' h = rw (fill_not_mapping skipped rest h) (refl, refl)

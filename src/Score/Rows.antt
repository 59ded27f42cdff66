-- ===== src/Score/Rows.antt =====
-- The rows that `load_scored` returns.
use hybrid_tls_lab.Prelude.{Option, List}
use hybrid_tls_lab.Prelude.Dict.{Dict, lookup}
use hybrid_tls_lab.Tprm.{Vendor}
use hybrid_tls_lab.Hndl.{HndlInput}
use hybrid_tls_lab.Score.Certs.{Cache}
use hybrid_tls_lab.Score.{Scored, score_row}

-- A row with the entries of its name.
abbrev pub scored : Cache → Dict HndlInput → Vendor → Scored
scored scans inputs v = score_row v (lookup v.vendor scans) (lookup v.vendor inputs)

-- ===== src/Db/Export.antt =====
-- dashboard/app/db.py: `csv_export`. The order of the rows and the text of an instant are
-- parameters.
pub mod RoundTrip
use hybrid_tls_lab.Prelude.{ℕ, Bool, true, false, Option, none, some, List, [], ◌∷◌, map}
use hybrid_tls_lab.Prelude.Text.{Text, codes, or_empty}
use hybrid_tls_lab.Prelude.Text.Decimal.{str_of}
use hybrid_tls_lab.Prelude.Csv.{write_rows}
use hybrid_tls_lab.Db.{Measurement, Database}
use hybrid_tls_lab.Db.Queries.{measurements}

unfoldable pub columns : List Text
columns =
    codes "sample_id"
    ∷ codes "run_id"
    ∷ codes "mode"
    ∷ codes "expected_group"
    ∷ codes "negotiated_group"
    ∷ codes "tls_version"
    ∷ codes "cipher"
    ∷ codes "server_handshake_us"
    ∷ codes "client_tcp_us"
    ∷ codes "client_handshake_us"
    ∷ codes "client_ttfb_us"
    ∷ codes "client_total_us"
    ∷ codes "bytes_sent"
    ∷ codes "bytes_received"
    ∷ codes "success"
    ∷ codes "error"
    ∷ codes "created_at"
    ∷ []

-- What the writer makes of a number, where None is the empty text.
unfoldable pub number_cell : Option ℕ → Text
number_cell none = []
number_cell (some n) = str_of n

-- `str` of a bool
unfoldable pub bool_cell : Bool → Text
bool_cell true = codes "True"
bool_cell false = codes "False"

module _ (instant_text : ℕ → Text) where
  -- The values of a row under `columns`; the two instants of recording are not among them.
  unfoldable pub cells : Measurement → List Text
  cells m =
      m.sample_id
      ∷ m.run_id
      ∷ m.mode
      ∷ m.expected_group
      ∷ or_empty m.negotiated_group
      ∷ or_empty m.tls_version
      ∷ or_empty m.cipher
      ∷ number_cell m.server_handshake_us
      ∷ number_cell m.client_tcp_us
      ∷ number_cell m.client_handshake_us
      ∷ number_cell m.client_ttfb_us
      ∷ number_cell m.client_total_us
      ∷ number_cell m.bytes_sent
      ∷ number_cell m.bytes_received
      ∷ bool_cell m.success
      ∷ or_empty m.error
      ∷ instant_text m.created_at
      ∷ []

  module _ (by_created : List Measurement → List Measurement) where
    unfoldable pub csv_export : Option Text → Database → Text
    csv_export run_id db = write_rows (columns ∷ map cells (measurements by_created run_id none db))

-- ===== src/Db/Export/RoundTrip.antt =====
-- What a reader of the exported CSV finds in it.
use hybrid_tls_lab.Prelude.{
  ℕ, ◌≡◌, refl, Bool, true, false, Option, none, some, List, [], ◌∷◌, map, ◌>>=◌, if◌then◌else◌,
}
use hybrid_tls_lab.Prelude.Dict.{Dict, lookup, insert}
use hybrid_tls_lab.Prelude.Text.{Text, codes, text_eq, or_empty, is_digits, to_int}
use hybrid_tls_lab.Prelude.Text.Decimal.{is_digits-str_of, to_int-str_of}
use hybrid_tls_lab.Prelude.Csv.{read_dicts, fill_row, dict_rows}
use hybrid_tls_lab.Prelude.Csv.RoundTrip.{read_rows-write_rows}
use hybrid_tls_lab.Db.{Measurement, Database}
use hybrid_tls_lab.Db.Queries.{measurements}
use hybrid_tls_lab.Db.Export.{columns, number_cell, bool_cell, cells, csv_export}

-- A sample as the export shows it: the empty text is not told from NULL.
pub record Exported : Type 0 where
  pub sample_id : Text
  pub run_id : Text
  pub mode : Text
  pub expected_group : Text
  pub negotiated_group : Text
  pub tls_version : Text
  pub cipher : Text
  pub server_handshake_us : Option ℕ
  pub client_tcp_us : Option ℕ
  pub client_handshake_us : Option ℕ
  pub client_ttfb_us : Option ℕ
  pub client_total_us : Option ℕ
  pub bytes_sent : Option ℕ
  pub bytes_received : Option ℕ
  pub success : Bool
  pub error : Text
  pub created_at : Text

abbrev pub exported : (ℕ → Text) → Measurement → Exported
exported instant_text m = record {
  sample_id = m.sample_id;
  run_id = m.run_id;
  mode = m.mode;
  expected_group = m.expected_group;
  negotiated_group = or_empty m.negotiated_group;
  tls_version = or_empty m.tls_version;
  cipher = or_empty m.cipher;
  server_handshake_us = m.server_handshake_us;
  client_tcp_us = m.client_tcp_us;
  client_handshake_us = m.client_handshake_us;
  client_ttfb_us = m.client_ttfb_us;
  client_total_us = m.client_total_us;
  bytes_sent = m.bytes_sent;
  bytes_received = m.bytes_received;
  success = m.success;
  error = or_empty m.error;
  created_at = instant_text m.created_at;
}

-- The text under a name, and the number.
abbrev pub text_at : Dict (Option Text) → Text → Text
text_at d name = or_empty (do s ← lookup name d; s)

abbrev pub number_of : Text → Option ℕ
number_of s = if is_digits s then some (to_int s) else none

abbrev pub number_at : Dict (Option Text) → Text → Option ℕ
number_at d name = number_of (text_at d name)

abbrev pub parse : Dict (Option Text) → Exported
parse d = record {
  sample_id = text_at d (codes "sample_id");
  run_id = text_at d (codes "run_id");
  mode = text_at d (codes "mode");
  expected_group = text_at d (codes "expected_group");
  negotiated_group = text_at d (codes "negotiated_group");
  tls_version = text_at d (codes "tls_version");
  cipher = text_at d (codes "cipher");
  server_handshake_us = number_at d (codes "server_handshake_us");
  client_tcp_us = number_at d (codes "client_tcp_us");
  client_handshake_us = number_at d (codes "client_handshake_us");
  client_ttfb_us = number_at d (codes "client_ttfb_us");
  client_total_us = number_at d (codes "client_total_us");
  bytes_sent = number_at d (codes "bytes_sent");
  bytes_received = number_at d (codes "bytes_received");
  success = text_eq (text_at d (codes "success")) (codes "True");
  error = text_at d (codes "error");
  created_at = text_at d (codes "created_at");
}

number_of-number_cell : (o : Option ℕ) → number_of (number_cell o) ≡ o
unfolding number_cell
number_of-number_cell none = refl
number_of-number_cell (some n) = rw (is_digits-str_of n, to_int-str_of n)

is_true-bool_cell : (b : Bool) → text_eq (bool_cell b) (codes "True") ≡ b
unfolding bool_cell
is_true-bool_cell true = refl
is_true-bool_cell false = refl

module _ (instant_text : ℕ → Text) where
  parse-cells :
      (m : Measurement)
      → parse (fill_row [] columns (cells instant_text m)) ≡ exported instant_text m
  unfolding columns cells fill_row insert lookup
  parse-cells m = rw (
    number_of-number_cell m.server_handshake_us,
    number_of-number_cell m.client_tcp_us,
    number_of-number_cell m.client_handshake_us,
    number_of-number_cell m.client_ttfb_us,
    number_of-number_cell m.client_total_us,
    number_of-number_cell m.bytes_sent,
    number_of-number_cell m.bytes_received,
    is_true-bool_cell m.success,
  )

  dict_rows-cells :
      (m : Measurement) (rows : List (List Text))
      → dict_rows columns (cells instant_text m ∷ rows)
        ≡ fill_row [] columns (cells instant_text m) ∷ dict_rows columns rows
  unfolding dict_rows cells
  dict_rows-cells m rows = refl

  parse-dict_rows :
      (ms : List Measurement)
      → map parse (dict_rows columns (map (cells instant_text) ms)) ≡ map (exported instant_text) ms
  unfolding dict_rows
  parse-dict_rows [] = refl
  parse-dict_rows (m ∷ ms) =
      rw (dict_rows-cells m (map (cells instant_text) ms), parse-cells m, parse-dict_rows ms)

  module _ (by_created : List Measurement → List Measurement) where
    -- The exported text is CSV that csv.DictReader reads back: it yields one row for each selected
    -- measurement, in their order, and its columns give the identifiers, texts, numbers and the
    -- verdict of that measurement, where NULL is read as the empty text or as no number.
    pub csv_export-parse :
        (run_id : Option Text) (db : Database)
        → (ds : List (Dict (Option Text))) × (read_dicts
              (csv_export instant_text by_created run_id db)
            ≡ some ds)
          × (map parse ds ≡ map (exported instant_text) (measurements by_created run_id none db))
    unfolding read_dicts csv_export
    csv_export-parse run_id db =
        let ms = measurements by_created run_id none db in
        (
          dict_rows columns (map (cells instant_text) ms),
          rw (read_rows-write_rows (columns ∷ map (cells instant_text) ms)),
          parse-dict_rows ms,
        )

-- ===== src/Tls/Server/Reports.antt =====
-- The report of an endpoint: it fits its buffer, and it is JSON that the dashboard reads.
use hybrid_tls_lab.Prelude.{
  ℕ, ◌≤◌, ◌≡◌, refl, arith, true, some, List, [], ◌∷◌, map, length, take_of_le, length-take, All,
}
use hybrid_tls_lab.Prelude.Text.{Text, codes}
use hybrid_tls_lab.Prelude.Text.Decimal.{str_of}
use hybrid_tls_lab.Prelude.Dict.{lookup}
use hybrid_tls_lab.Prelude.Json.{string, number, read_object}
use hybrid_tls_lab.Prelude.Json.RoundTrip.{
  quoted, object_text, is_plain, is_plain-take, Member, IsMember, member, plain_member,
  number_member, field_of, entry_of, read_object-object_text, length-object_text, length-quoted,
}
use hybrid_tls_lab.Schemas.{Mode, mode_text, ServerMeasurement}
use hybrid_tls_lab.Schemas.Body.{server_of, read_server}
use hybrid_tls_lab.Tls.Common.{snprintf, sub64}
use hybrid_tls_lab.Tls.Options.{ServerOptions}
use hybrid_tls_lab.Tls.Server.{Accepted, group_text, measured_fields, report_of}
use hybrid_tls_lab.Tls.Benchmark.Samples.{length-mode_text}
use hybrid_tls_lab.Tls.Benchmark.Payloads.{IsName, mode_plain, mode_of-mode_text, word_digits}

-- OpenSSL's names have nothing that JSON would escape.
pub record IsAccepted (c : Accepted) : Type 0 where
  pub group_name : is_plain (group_text c.group_name) ≡ true
  pub version : is_plain c.version ≡ true
  pub cipher_name : is_plain c.cipher_name ≡ true

-- The payload that the report stands for.
abbrev pub server_payload :
    ServerOptions → Accepted → Mode → (sample_id run_id : Text) → ServerMeasurement
server_payload options c mode sample_id run_id = record {
  sample_id = sample_id;
  run_id = run_id;
  mode = mode;
  expected_group = options.group;
  negotiated_group = some (snprintf 100 (group_text c.group_name));
  tls_version = some (snprintf 50 c.version);
  cipher = some (snprintf 120 c.cipher_name);
  server_handshake_us = sub64 c.completed c.started;
}

module _ (options : ServerOptions) (c : Accepted) (mode : Mode) (sample_id run_id : Text) where
  abbrev group_copy : Text
  group_copy = snprintf 100 (group_text c.group_name)

  abbrev version_copy : Text
  version_copy = snprintf 50 c.version

  abbrev cipher_copy : Text
  cipher_copy = snprintf 120 c.cipher_name

  abbrev elapsed : ℕ
  elapsed = sub64 c.completed c.started

  abbrev first_member : Member
  first_member = member (codes "sample_id") (quoted sample_id) (string sample_id)

  abbrev members : List Member
  members =
      member (codes "run_id") (quoted run_id) (string run_id)
      ∷ member (codes "mode") (quoted (mode_text mode)) (string (mode_text mode))
      ∷ member (codes "expected_group") (quoted options.group) (string options.group)
      ∷ member (codes "negotiated_group") (quoted group_copy) (string group_copy)
      ∷ member (codes "tls_version") (quoted version_copy) (string version_copy)
      ∷ member (codes "cipher") (quoted cipher_copy) (string cipher_copy)
      ∷ member (codes "server_handshake_us") (str_of elapsed) (number elapsed)
      ∷ []

  module _ (sample : IsName 160 sample_id) (run : IsName 139 run_id)
      (group : IsName 80 options.group) (v : IsAccepted c) where
    members-IsMember : All IsMember (first_member ∷ members)
    members-IsMember = (
      plain_member (codes "sample_id") sample_id refl sample.plain,
      (
        plain_member (codes "run_id") run_id refl run.plain,
        (
          plain_member (codes "mode") (mode_text mode) refl (mode_plain mode),
          (
            plain_member (codes "expected_group") options.group refl group.plain,
            (
              plain_member (codes "negotiated_group") group_copy refl
                  (is_plain-take 99 (group_text c.group_name) v.group_name),
              (
                plain_member (codes "tls_version") version_copy refl
                    (is_plain-take 49 c.version v.version),
                (
                  plain_member (codes "cipher") cipher_copy refl
                      (is_plain-take 119 c.cipher_name v.cipher_name),
                  (number_member (codes "server_handshake_us") elapsed refl, tt),
                ),
              ),
            ),
          ),
        ),
      ),
    )

    members-fit : length (object_text (map field_of (first_member ∷ members))) ≤ 1199
    members-fit = omega (
      arith,
      length-object_text (field_of first_member) (map field_of members),
      length-quoted sample_id,
      length-quoted run_id,
      length-quoted (mode_text mode),
      length-quoted options.group,
      length-quoted group_copy,
      length-quoted version_copy,
      length-quoted cipher_copy,
      length-mode_text mode,
      sample.short,
      run.short,
      group.short,
      length-take 99 (group_text c.group_name),
      length-take 49 c.version,
      length-take 119 c.cipher_name,
      word_digits elapsed (omega arith),
    )

    members_read :
        read_object (object_text (map field_of (first_member ∷ members)))
        ≡ some (map entry_of (first_member ∷ members))
    members_read = read_object-object_text first_member members members-IsMember

    payload_of_members :
        server_of (map entry_of (first_member ∷ members))
        ≡ some (server_payload options c mode sample_id run_id)
    unfolding server_of lookup
    payload_of_members = rw (mode_of-mode_text mode)

-- The report of an endpoint is whole in its buffer, and the dashboard reads from it what the
-- endpoint measured.
pub read_server-report_of :
    (options : ServerOptions) (c : Accepted) (mode : Mode) (sample_id run_id : Text)
    → options.mode ≡ mode_text mode
    → IsName 160 sample_id
    → IsName 139 run_id
    → IsName 80 options.group
    → IsAccepted c
    → read_server (report_of options c sample_id run_id).1
      ≡ some (server_payload options c mode sample_id run_id)
unfolding read_server report_of measured_fields
read_server-report_of options c mode sample_id run_id same sample run group v =
    let fits = members-fit options c mode sample_id run_id sample run group v in
    let read = members_read options c mode sample_id run_id sample run group v in
    rw same (
      rw (take_of_le 1199 _ fits)
        (rw read (payload_of_members options c mode sample_id run_id sample run group v)))

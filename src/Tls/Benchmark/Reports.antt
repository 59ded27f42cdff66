-- ===== src/Tls/Benchmark/Reports.antt =====
-- The report of a probe: it fits its buffer, and it is JSON that the dashboard reads.
use hybrid_tls_lab.Prelude.{
  ◌≤◌, ◌≡◌, refl, arith, Bool, true, false, none, some, List, [], ◌∷◌, map, if◌then◌else◌, length,
  take_of_le, All,
}
use hybrid_tls_lab.Prelude.Text.{Text, codes}
use hybrid_tls_lab.Prelude.Text.Decimal.{str_of}
use hybrid_tls_lab.Prelude.Dict.{lookup}
use hybrid_tls_lab.Prelude.Json.{Json, string, number, boolean, null, read_object}
use hybrid_tls_lab.Prelude.Json.RoundTrip.{
  quoted, object_text, Writes, Writes-quoted, Writes-boolean, Writes-null, Member, IsMember, member,
  plain_member, number_member, field_of, entry_of, read_object-object_text, length-object_text,
  length-quoted,
}
use hybrid_tls_lab.Schemas.{Mode, mode_text}
use hybrid_tls_lab.Schemas.Body.{client_of, read_client, optional_text}
use hybrid_tls_lab.Tls.Common.Escape.{one_line, json_escape-whole}
use hybrid_tls_lab.Tls.Options.{Endpoint}
use hybrid_tls_lab.Tls.Benchmark.{Finished, Timings, error_field, client_fields, client_report}
use hybrid_tls_lab.Tls.Benchmark.Samples.{length-mode_text}
use hybrid_tls_lab.Tls.Benchmark.Payloads.{
  IsName, IsFinished, HasWords, client_payload, mode_plain, mode_of-mode_text, word_digits,
}

abbrev error_json : Bool → Text → Json
error_json success error = if success then null else string (one_line error)

-- The error is whole, and read as it is.
error_field_lem :
    (success : Bool) (error : Text)
    → length error ≤ 511
    → Writes (error_field success error) (error_json success error)
      × (length (error_field success error) ≤ 1025)
unfolding error_field
error_field_lem true error h = (Writes-null, omega arith)
error_field_lem false error h =
    let (out, written, fits, quotes) = json_escape-whole error 1024 (omega arith) in
    let size = length-quoted out in
    rw written (
      rw (take_of_le 1099 (quoted out) (omega arith))
        (Writes-quoted out (one_line error) quotes, omega arith))

boolean_length : (b : Bool) → length (if b then codes "true" else codes "false") ≤ 5
boolean_length true = omega arith
boolean_length false = omega arith

optional_text-error_json :
    (success : Bool) (error : Text)
    → optional_text (some (error_json success error))
      ≡ some (if success then none else some (one_line error))
optional_text-error_json true error = refl
optional_text-error_json false error = refl

module _ (run_id group sample_id : Text) (mode : Mode) (f : Finished) (t : Timings) where
  abbrev members : List Member
  members =
      member (codes "run_id") (quoted run_id) (string run_id)
      ∷ member (codes "mode") (quoted (mode_text mode)) (string (mode_text mode))
      ∷ member (codes "expected_group") (quoted group) (string group)
      ∷ member (codes "negotiated_group") (quoted f.group_copy) (string f.group_copy)
      ∷ member (codes "tls_version") (quoted f.version_copy) (string f.version_copy)
      ∷ member (codes "cipher") (quoted f.cipher_copy) (string f.cipher_copy)
      ∷ member (codes "client_tcp_us") (str_of t.tcp_us) (number t.tcp_us)
      ∷ member (codes "client_handshake_us") (str_of t.handshake_us) (number t.handshake_us)
      ∷ member (codes "client_ttfb_us") (str_of t.ttfb_us) (number t.ttfb_us)
      ∷ member (codes "client_total_us") (str_of t.total_us) (number t.total_us)
      ∷ member (codes "bytes_sent") (str_of f.bytes_sent) (number f.bytes_sent)
      ∷ member (codes "bytes_received") (str_of f.bytes_received) (number f.bytes_received)
      ∷ member (codes "success") (if f.success then codes "true" else codes "false")
          (boolean f.success)
      ∷ member (codes "error") (error_field f.success f.connection_error)
          (error_json f.success f.connection_error)
      ∷ []

  abbrev first_member : Member
  first_member = member (codes "sample_id") (quoted sample_id) (string sample_id)

  module _ (run : IsName 160 run_id) (grp : IsName 80 group) (sample : IsName 179 sample_id)
      (v : IsFinished f) (w : HasWords f t) where
    members-IsMember : All IsMember (first_member ∷ members)
    members-IsMember = (
      plain_member (codes "sample_id") sample_id refl sample.plain,
      (
        plain_member (codes "run_id") run_id refl run.plain,
        (
          plain_member (codes "mode") (mode_text mode) refl (mode_plain mode),
          (
            plain_member (codes "expected_group") group refl grp.plain,
            (
              plain_member (codes "negotiated_group") f.group_copy refl v.group_copy.plain,
              (
                plain_member (codes "tls_version") f.version_copy refl v.version_copy.plain,
                (
                  plain_member (codes "cipher") f.cipher_copy refl v.cipher_copy.plain,
                  (
                    number_member (codes "client_tcp_us") t.tcp_us refl,
                    (
                      number_member (codes "client_handshake_us") t.handshake_us refl,
                      (
                        number_member (codes "client_ttfb_us") t.ttfb_us refl,
                        (
                          number_member (codes "client_total_us") t.total_us refl,
                          (
                            number_member (codes "bytes_sent") f.bytes_sent refl,
                            (
                              number_member (codes "bytes_received") f.bytes_received refl,
                              (
                                record { name_plain = refl; writes = Writes-boolean f.success },
                                (
                                  record {
                                    name_plain = refl;
                                    writes =
                                        (error_field_lem f.success f.connection_error
                                          v.connection_error).0;
                                  },
                                  tt,
                                ),
                              ),
                            ),
                          ),
                        ),
                      ),
                    ),
                  ),
                ),
              ),
            ),
          ),
        ),
      ),
    )

    members-fit : length (object_text (map field_of (first_member ∷ members))) ≤ 2599
    members-fit = omega (
      arith,
      length-object_text (field_of first_member) (map field_of members),
      length-quoted sample_id,
      length-quoted run_id,
      length-quoted (mode_text mode),
      length-quoted group,
      length-quoted f.group_copy,
      length-quoted f.version_copy,
      length-quoted f.cipher_copy,
      length-mode_text mode,
      sample.short,
      run.short,
      grp.short,
      v.group_copy.short,
      v.version_copy.short,
      v.cipher_copy.short,
      word_digits t.tcp_us w.tcp_us,
      word_digits t.handshake_us w.handshake_us,
      word_digits t.ttfb_us w.ttfb_us,
      word_digits t.total_us w.total_us,
      word_digits f.bytes_sent w.bytes_sent,
      word_digits f.bytes_received w.bytes_received,
      boolean_length f.success,
      (error_field_lem f.success f.connection_error v.connection_error).1,
    )

    members_read :
        read_object (object_text (map field_of (first_member ∷ members)))
        ≡ some (map entry_of (first_member ∷ members))
    members_read = read_object-object_text first_member members members-IsMember

    payload_of_members :
        client_of (map entry_of (first_member ∷ members))
        ≡ some (client_payload run_id mode group sample_id f t)
    unfolding client_of lookup
    payload_of_members =
        rw (mode_of-mode_text mode, optional_text-error_json f.success f.connection_error)

-- The report of any probe, failed or not, is whole in its buffer, and the dashboard reads from it
-- what the probe measured, with the error of a failure on one line: for a run id of at most 160
-- characters, numbers of 64 bits, and names that have nothing for JSON to escape.
pub read_client-client_report :
    (run_id sample_id : Text) (mode : Mode) (endpoint : Endpoint) (f : Finished) (t : Timings)
    → endpoint.mode ≡ mode_text mode
    → IsName 160 run_id
    → IsName 80 endpoint.group
    → IsName 179 sample_id
    → IsFinished f
    → HasWords f t
    → read_client (client_report run_id endpoint sample_id f t).1
      ≡ some (client_payload run_id mode endpoint.group sample_id f t)
unfolding read_client client_report client_fields
read_client-client_report run_id sample_id mode endpoint f t same run grp sample v w =
    let fits = members-fit run_id endpoint.group sample_id mode f t run grp sample v w in
    let read = members_read run_id endpoint.group sample_id mode f t run grp sample v w in
    rw same (
      rw (take_of_le 2599 _ fits)
        (rw read (payload_of_members run_id endpoint.group sample_id mode f t run grp sample v w)))

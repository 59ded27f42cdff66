-- ===== src/Tls/Handshake.antt =====
-- One handshake, from both of its ends to the row of the dashboard.
use hybrid_tls_lab.Prelude.{
  ℕ, ◌^◌, lt→ltb, ◌≤◌, ◌≡◌, refl, ap, ◌∙◌, sym, arith, true, none, some, [], ◌∷◌, length, take,
}
use mathlib.Core.Option
use mathlib.Core.Path.{subst}
use hybrid_tls_lab.Prelude.Text.{Text, all_codes}
use hybrid_tls_lab.Prelude.Json.RoundTrip.{is_plain}
use hybrid_tls_lab.Schemas.{
  ServerMeasurement, ClientMeasurement, is_id, accepts_client, accepts_server,
}
use hybrid_tls_lab.Schemas.Body.{read_server, read_client}
use hybrid_tls_lab.Db.{Measurement, Database, fits_row, client_row}
use hybrid_tls_lab.Db.History.{Write, client, server, apply}
use hybrid_tls_lab.Main.App.Routes.{accepts, success_status, handle_write}
use hybrid_tls_lab.Db.Merge.{SameHandshake, sample_of, timeless, combined, reports_commute}
use hybrid_tls_lab.Main.App.Writes.{
  mode_stored, mode_allowed-mode_text, storable, handle_write_outcome,
}
use hybrid_tls_lab.Tls.Common.{sub64}
use hybrid_tls_lab.Tls.Options.{ClientOptions, ServerOptions}
use hybrid_tls_lab.Tls.Options.Parsed.{IsClient}
use hybrid_tls_lab.Tls.Server.{
  Accepted, Report, group_text, record_ids, handle_connection, report_of,
}
use hybrid_tls_lab.Tls.Server.Query.{is_not}
use hybrid_tls_lab.Tls.Server.Probed.{record_ids-request_text}
use hybrid_tls_lab.Tls.Server.Reports.{IsAccepted, server_payload, read_server-report_of}
use hybrid_tls_lab.Tls.Benchmark.{Attempt, timings_of, request_text, client_report, probe}
use hybrid_tls_lab.Tls.Benchmark.Run.{endpoint_at}
use hybrid_tls_lab.Tls.Benchmark.Payloads.{IsName}
use hybrid_tls_lab.Tls.Benchmark.Endings.{probe_to_finished-Ending}
use hybrid_tls_lab.Tls.Benchmark.Probes.{IsAttempt, IsBrief, Ending-copies}
use hybrid_tls_lab.Tls.Delivery.{
  mode_at, endpoint_at-Measures, group_of-IsName, is_id-of-le, is_id-IsName, sample_id, finished,
  payload, sample, request, report_read, report_accepted, report_storable, IsOrdinary,
}

-- The connection of an endpoint that a probe has made: it runs for the client's mode and group, its
-- read yields the request of the probe, and OpenSSL names the same handshake on both sides.
pub record Serves (o : ClientOptions) (slot index : ℕ) (a : Attempt) (so : ServerOptions)
    (c : Accepted) : Type 0 where
  pub mode : so.mode ≡ (endpoint_at o slot).mode
  pub group : so.group ≡ (endpoint_at o slot).group
  pub has_ssl : c.has_ssl ≡ true
  pub accepted : c.accepted ≡ true
  pub received :
      c.received
      ≡ some (request_text (sample_id o slot index a) o.run_id true (endpoint_at o slot).host)
  pub group_name : c.group_name ≡ a.group_name
  pub version : c.version ≡ a.version
  pub cipher_name : c.cipher_name ≡ a.cipher_name

handled_report :
    (so : ServerOptions) (c : Accepted) (text id run_id : Text)
    → c.has_ssl ≡ true
    → c.accepted ≡ true
    → c.received ≡ some text
    → record_ids (take 2047 text) ≡ some (id, run_id)
    → (handle_connection so c).report ≡ some (report_of so c id run_id)
unfolding handle_connection
handled_report so c text id run_id has_ssl accepted received ids = ground arith

module _ (o : ClientOptions) (slot index : ℕ) (a : Attempt) (so : ServerOptions) (c : Accepted)
    (v : IsClient o) (run : is_id 120 o.run_id ≡ true) (small : index ≤ 1_000_000)
    (attempt : IsAttempt a) (serves : Serves o slot index a so c) where
  -- The payload that the endpoint reports.
  abbrev server_side : ServerMeasurement
  server_side = server_payload so c (mode_at slot) (sample_id o slot index a) o.run_id

  server_group : IsName 80 so.group
  server_group =
      let (mode, group) = endpoint_at-Measures o slot v.endpoints in
      subst (IsName 80) (sym (serves.group ∙ group)) (group_of-IsName (mode_at slot))

  connection-IsAccepted : IsAccepted c
  connection-IsAccepted = record {
    group_name =
        subst (λ g. is_plain (group_text g) ≡ true) (sym serves.group_name) attempt.group_name;
    version = subst (λ s. is_plain s ≡ true) (sym serves.version) attempt.version;
    cipher_name = subst (λ s. is_plain s ≡ true) (sym serves.cipher_name) attempt.cipher_name;
  }

  server_report_read :
      read_server (report_of so c (sample_id o slot index a) o.run_id).1 ≡ some server_side
  server_report_read =
      let (mode, group) = endpoint_at-Measures o slot v.endpoints in
      let id = sample o slot index a v run small attempt in
      read_server-report_of so c (mode_at slot) (sample_id o slot index a) o.run_id
        (serves.mode ∙ mode) (is_id-IsName 160 _ id)
        (is_id-IsName 139 o.run_id (is_id-of-le 120 139 o.run_id run (omega arith))) server_group
        connection-IsAccepted

  same_handshake :
      (finished o slot index a).success ≡ true → SameHandshake server_side (payload o slot index a)
  same_handshake success =
      let (group, version, cipher) =
        Ending-copies (endpoint_at o slot) a _
          (probe_to_finished-Ending (endpoint_at o slot) a
            (request o slot index a v run small attempt))
          success in
      record {
        sample_id = refl;
        run_id = refl;
        mode = refl;
        expected_group = serves.group;
        negotiated_group =
            ap (λ g. some (take 99 (group_text g))) serves.group_name ∙ ap some (sym group);
        tls_version = ap (λ s. some (take 49 s)) serves.version ∙ ap some (sym version);
        cipher = ap (λ s. some (take 119 s)) serves.cipher_name ∙ ap some (sym cipher);
      }

fitted :
    (o : ClientOptions) (slot index : ℕ) (a : Attempt)
    → IsOrdinary (finished o slot index a) (timings_of a (finished o slot index a))
    → (now : ℕ) → fits_row (client_row (payload o slot index a) now) ≡ true
fitted o slot index a h now =
    rw
      (
        lt→ltb (finished o slot index a).bytes_sent (2 ^ 63) h.bytes_sent,
        lt→ltb (finished o slot index a).bytes_received (2 ^ 63) h.bytes_received,
      )
      refl

-- Of two writes the first and then the second is answered by 201, and the sample ends with a row.
abbrev pub Leaves : (first second : Write) → Database → (id : Text) → (row : Measurement) → Type 0
Leaves first second db id row =
    let (answer, db') = handle_write first db in
    let (answer', db'') = handle_write second db' in
    (answer.status ≡ 201)
    × (answer'.status ≡ 201)
    × (Option.map timeless (sample_of id db'') ≡ some row)

-- What the writes leave, where both are accepted and can be stored.
applied-Leaves :
    (first second : Write) (db : Database) (id : Text) (row : Measurement)
    → accepts first ≡ true
    → storable first ≡ true
    → success_status first ≡ 201
    → accepts second ≡ true
    → storable second ≡ true
    → success_status second ≡ 201
    → Option.map timeless (sample_of id (apply second (apply first db).1).1) ≡ some row
    → Leaves first second db id row
applied-Leaves first second db id row accepted stored created accepted' stored' created' h =
    let done = (handle_write_outcome first db).2 accepted stored in
    let done' = (handle_write_outcome second (apply first db).1).2 accepted' stored' in
    rw (done, done') (created, created', h)

-- The server's payload keeps its constraints where the client's does and the handshake took no more
-- than two minutes.
server_accepted :
    (s : ServerMeasurement) (c : ClientMeasurement)
    → SameHandshake s c
    → accepts_client c ≡ true
    → s.server_handshake_us ≤ 120_000_000
    → accepts_server s ≡ true
unfolding accepts_server accepts_client
server_accepted s c h accepted brief =
    rw (h.sample_id, h.run_id, h.expected_group, h.negotiated_group, h.tls_version, h.cipher)
      (ground arith)

-- A recorded probe that succeeds against an endpoint of the repository, in a mode that the tables
-- take and on a sample that is new, is reported twice, once by each side. The dashboard reads both
-- reports; and in whichever order they arrive, both are answered by 201 and the row of the sample
-- ends with the endpoint's time of the handshake and all that the client measured. The conditions:
-- the client accepts the options, the run id has at most 120 characters, the sequence number is at
-- most 1,000,000, the host has at most 253 characters and no equals sign, OpenSSL names the same
-- handshake on both sides, with names that fit their columns and have nothing for JSON to escape, the
-- clock and the counters have 64 bits, neither the endpoint's handshake nor a part of the probe took
-- more than two minutes, and the byte counts are below 2 ^ 63.
pub handshake_recorded :
    (o : ClientOptions) (slot index : ℕ) (a : Attempt) (so : ServerOptions) (c : Accepted)
    (db : Database) (t t' u u' : ℕ)
    → IsClient o
    → is_id 120 o.run_id ≡ true
    → index ≤ 1_000_000
    → IsAttempt a
    → IsBrief a
    → IsOrdinary (finished o slot index a) (timings_of a (finished o slot index a))
    → sub64 c.completed c.started ≤ 120_000_000
    → Serves o slot index a so c
    → all_codes (is_not b'=') (endpoint_at o slot).host ≡ true
    → length (endpoint_at o slot).host ≤ 253
    → (finished o slot index a).success ≡ true
    → mode_stored (mode_at slot) ≡ true
    → sample_of (sample_id o slot index a) db ≡ none
    → let p = payload o slot index a in
      (r q : Report) × (s : ServerMeasurement) × ((handle_connection so c).report ≡ some r)
      × (read_server r.1 ≡ some s)
      × ((probe o (endpoint_at o slot) a index true).1 ≡ q ∷ [])
      × (read_client q.1 ≡ some p)
      × (s.server_handshake_us ≡ sub64 c.completed c.started)
      × Leaves (server s t t') (client p u u') db p.sample_id (combined s p)
      × Leaves (client p t t') (server s u u') db p.sample_id (combined s p)
unfolding probe accepts apply
handshake_recorded o slot index a so c db t t' u u' v run small attempt brief ordinary prompt serves
      name short success stored fresh =
    let id = sample o slot index a v run small attempt in
    let run' = is_id-of-le 120 139 o.run_id run (omega arith) in
    let ids =
      record_ids-request_text (sample_id o slot index a) o.run_id (endpoint_at o slot).host true id
        run' name short in
    let p = payload o slot index a in
    let s = server_side o slot index a so c v run small attempt serves in
    let same = same_handshake o slot index a so c v run small attempt serves success in
    let accepted = report_accepted o slot index a v run small attempt brief ordinary in
    let accepted' = server_accepted s p same accepted prompt in
    let fits = report_storable o slot index a v run small attempt brief ordinary in
    let commute =
      reports_commute s p db t t' u u' same (mode_allowed-mode_text (mode_at slot) ∙ stored)
        (fitted o slot index a ordinary t') fresh in
    (
      report_of so c (sample_id o slot index a) o.run_id,
      client_report o.run_id (endpoint_at o slot) (sample_id o slot index a)
          (finished o slot index a) (timings_of a (finished o slot index a)),
      s,
      handled_report so c _ (sample_id o slot index a) o.run_id serves.has_ssl serves.accepted
          serves.received ids,
      server_report_read o slot index a so c v run small attempt serves,
      refl,
      report_read o slot index a v run small attempt,
      refl,
      applied-Leaves (server s t t') (client p u u') db p.sample_id (combined s p) accepted' stored
          refl accepted (fits u u' ∙ stored) refl commute.0,
      applied-Leaves (client p t t') (server s u u') db p.sample_id (combined s p) accepted
          (fits t t' ∙ stored) refl accepted' stored refl commute.1,
    )

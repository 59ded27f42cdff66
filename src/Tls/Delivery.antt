-- ===== src/Tls/Delivery.antt =====
-- The reports of the C programs at the dashboard: what is stored of them, and what is refused.
use hybrid_tls_lab.Prelude.{
  ℕ, ◌^◌, ◌<◌, ◌≤◌, ◌≡◌, refl, ◌∙◌, sym, inl, inr, arith, Bool, true, false, not, ◌&&◌, none, some,
  [], ◌∷◌, ◌==◌, if◌then◌else◌, length, Bool-cases, le→leb, lt→ltb,
}
use mathlib.Core.Path.{subst}
use hybrid_tls_lab.Prelude.Text.{Text, codes, is_empty}
use hybrid_tls_lab.Schemas.{
  Mode, classical, hybrid, hybrid_p256, mode_text, ClientMeasurement, is_id, within, optional,
  accepts_client,
}
use hybrid_tls_lab.Schemas.Body.{read_client}
use hybrid_tls_lab.Db.{Database, record_client}
use hybrid_tls_lab.Db.History.{client, apply}
use hybrid_tls_lab.Main.App.{server_error, json_ok}
use hybrid_tls_lab.Main.App.Routes.{accepts, handle_write}
use hybrid_tls_lab.Main.App.Writes.{mode_stored, storable, handle_write_outcome}
use hybrid_tls_lab.Tls.Common.Escape.{one_line, length-one_line, is_plain-of-id_codes}
use hybrid_tls_lab.Tls.Options.{Endpoint, ClientOptions}
use hybrid_tls_lab.Tls.Options.Parsed.{IsClient, HasEndpoints, Measures}
use hybrid_tls_lab.Tls.Server.{Report}
use hybrid_tls_lab.Tls.Server.Query.{id_codes-of-is_id, length-of-is_id}
use hybrid_tls_lab.Tls.Benchmark.{
  Attempt, Finished, Timings, sample_id_of, request_text, probe, probe_to_finished, timings_of,
  client_report,
}
use hybrid_tls_lab.Tls.Benchmark.Run.{endpoint_at}
use hybrid_tls_lab.Tls.Benchmark.Samples.{sample_id_of-is_id}
use hybrid_tls_lab.Tls.Benchmark.Payloads.{IsName, client_payload}
use hybrid_tls_lab.Tls.Benchmark.Reports.{read_client-client_report}
use hybrid_tls_lab.Tls.Benchmark.Probes.{
  IsAttempt, IsBrief, HasBrief, probe_to_finished-IsFinished, probe_to_finished-HasBrief,
  timings_of-HasWords,
}

-- The mode of a slot, and its group.
abbrev pub mode_at : ℕ → Mode
mode_at slot = if slot == 0 then classical else if slot == 1 then hybrid else hybrid_p256

abbrev pub group_of : Mode → Text
group_of classical = codes "X25519"
group_of hybrid = codes "X25519MLKEM768"
group_of hybrid_p256 = codes "SecP256r1MLKEM768"

pub endpoint_at-Measures :
    (o : ClientOptions) (slot : ℕ)
    → HasEndpoints o
    → Measures (endpoint_at o slot) (mode_text (mode_at slot)) (group_of (mode_at slot))
unfolding endpoint_at
endpoint_at-Measures o slot v = elim (Bool-cases (slot == 0)) [
  | inl e ↦ rw e v.classical
  | inr e ↦ elim (Bool-cases (slot == 1)) [
    | inl e' ↦ rw (e, e') v.hybrid
    | inr e' ↦ rw (e, e') v.hybrid_p256
  ]
]

pub group_of-IsName : (mode : Mode) → IsName 80 (group_of mode)
group_of-IsName classical = record { short = omega arith; plain = refl }
group_of-IsName hybrid = record { short = omega arith; plain = refl }
group_of-IsName hybrid_p256 = record { short = omega arith; plain = refl }

-- No part of a probe took more than two minutes, and its byte counts are below 2 ^ 63.
pub record IsOrdinary (f : Finished) (t : Timings) : Type 0 where
  pub tcp_us : t.tcp_us ≤ 120_000_000
  pub handshake_us : t.handshake_us ≤ 120_000_000
  pub ttfb_us : t.ttfb_us ≤ 120_000_000
  pub total_us : t.total_us ≤ 120_000_000
  pub bytes_sent : f.bytes_sent < 2 ^ 63
  pub bytes_received : f.bytes_received < 2 ^ 63

pub is_id-of-le : (m n : ℕ) (s : Text) → is_id m s ≡ true → m ≤ n → is_id n s ≡ true
unfolding is_id
is_id-of-le m n s h le = ground arith

pub is_id-IsName : (n : ℕ) (s : Text) → is_id n s ≡ true → IsName n s
is_id-IsName n s h =
    let (_, short) = length-of-is_id n s h in
    record { short = short; plain = is_plain-of-id_codes s (id_codes-of-is_id n s h) }

group_accepted :
    (mode : Mode) → (not (is_empty (group_of mode)) && within 80 (group_of mode)) ≡ true
group_accepted classical = refl
group_accepted hybrid = refl
group_accepted hybrid_p256 = refl

error_accepted :
    (success : Bool) (error : Text)
    → length error ≤ 511
    → optional (within 1000) (if success then none else some (one_line error)) ≡ true
error_accepted true error h = refl
error_accepted false error h =
    le→leb (length (one_line error)) 1000 (omega (arith, length-one_line error))

payload_accepted :
    (run_id sample_id group : Text) (mode : Mode) (f : Finished) (t : Timings)
    → group ≡ group_of mode
    → is_id 120 run_id ≡ true
    → is_id 160 sample_id ≡ true
    → length f.connection_error ≤ 511
    → HasBrief f
    → IsOrdinary f t
    → accepts_client (client_payload run_id mode group sample_id f t) ≡ true
unfolding accepts_client
payload_accepted run_id sample_id group mode f t same run sample error brief ordinary = rw (
  sample,
  run,
  same,
  group_accepted mode,
  le→leb (length f.group_copy) 80 brief.group_copy,
  le→leb (length f.version_copy) 40 brief.version_copy,
  le→leb (length f.cipher_copy) 100 brief.cipher_copy,
  le→leb t.tcp_us 120_000_000 ordinary.tcp_us,
  le→leb t.handshake_us 120_000_000 ordinary.handshake_us,
  le→leb t.ttfb_us 120_000_000 ordinary.ttfb_us,
  le→leb t.total_us 120_000_000 ordinary.total_us,
  error_accepted f.success f.connection_error error,
)

module _ (o : ClientOptions) (slot index : ℕ) (a : Attempt) where
  abbrev pub endpoint : Endpoint
  endpoint = endpoint_at o slot

  abbrev pub sample_id : Text
  sample_id = sample_id_of o.run_id endpoint.mode index

  abbrev pub finished : Finished
  finished = probe_to_finished endpoint a (request_text sample_id o.run_id true endpoint.host)

  -- The payload that the probe reports.
  abbrev pub payload : ClientMeasurement
  payload =
      client_payload o.run_id (mode_at slot) endpoint.group sample_id finished
        (timings_of a finished)

  module _ (v : IsClient o) (run : is_id 120 o.run_id ≡ true) (small : index ≤ 1_000_000)
      (attempt : IsAttempt a) where
    abbrev pub request : Text
    request = request_text sample_id o.run_id true endpoint.host

    pub sample : is_id 160 sample_id ≡ true
    sample =
        let (mode, group) = endpoint_at-Measures o slot v.endpoints in
        subst (λ m. is_id 160 (sample_id_of o.run_id m index) ≡ true) (sym mode)
          (sample_id_of-is_id o.run_id (mode_at slot) index
            (is_id-of-le 120 139 o.run_id run (omega arith)) small)

    -- The report that a probe sends is read as its payload.
    pub report_read :
        read_client (client_report o.run_id endpoint sample_id finished (timings_of a finished)).1
        ≡ some payload
    report_read =
        let (mode, group) = endpoint_at-Measures o slot v.endpoints in
        let group_name = subst (λ g. IsName 80 g) (sym group) (group_of-IsName (mode_at slot)) in
        read_client-client_report o.run_id sample_id (mode_at slot) endpoint finished
          (timings_of a finished) mode (is_id-IsName 160 o.run_id v.run_id) group_name
          (is_id-IsName 179 sample_id (is_id-of-le 160 179 sample_id sample (omega arith)))
          (probe_to_finished-IsFinished endpoint a request attempt)
          (timings_of-HasWords endpoint a request attempt)

    module _ (brief : IsBrief a) (ordinary : IsOrdinary finished (timings_of a finished)) where
      pub report_accepted : accepts_client payload ≡ true
      report_accepted =
          let (mode, group) = endpoint_at-Measures o slot v.endpoints in
          let f = probe_to_finished-IsFinished endpoint a request attempt in
          payload_accepted o.run_id sample_id endpoint.group (mode_at slot) finished
            (timings_of a finished) group run sample f.connection_error
            (probe_to_finished-HasBrief endpoint a request brief) ordinary

      pub report_storable : (t u : ℕ) → storable (client payload t u) ≡ mode_stored (mode_at slot)
      report_storable t u = rw (
        lt→ltb finished.bytes_sent (2 ^ 63) ordinary.bytes_sent,
        lt→ltb finished.bytes_received (2 ^ 63) ordinary.bytes_received,
      )

-- A recorded probe sends one report, whether it has failed or not. The dashboard reads from it what
-- the probe measured, and takes it: it answers by 201 with the sample id, and stores the report,
-- unless the endpoint is that of hybrid_p256, whose reports are all answered by 500 and leave the
-- database as it was. The conditions: the client accepts the options, the run id has at most 120
-- characters, the sequence number is at most 1,000,000, no part took more than two minutes, the
-- byte counts are below 2 ^ 63, and OpenSSL's names fit their columns and have nothing for JSON to
-- escape.
pub probe-delivered :
    (o : ClientOptions) (slot index : ℕ) (a : Attempt) (t u : ℕ) (db : Database)
    → IsClient o
    → is_id 120 o.run_id ≡ true
    → index ≤ 1_000_000
    → IsAttempt a
    → IsBrief a
    → IsOrdinary (finished o slot index a) (timings_of a (finished o slot index a))
    → let c = payload o slot index a in
      (r : Report) × ((probe o (endpoint_at o slot) a index true).1 ≡ r ∷ [])
      × (read_client r.1 ≡ some c)
      × (handle_write (client c t u) db ≡ (
          if mode_stored (mode_at slot)
          then (record { status = 201; body = json_ok c.sample_id }, (record_client c t u db).1)
          else (server_error, db)))
unfolding probe accepts apply
probe-delivered o slot index a t u db v run small attempt brief ordinary =
    let accepted = report_accepted o slot index a v run small attempt brief ordinary in
    let stored = report_storable o slot index a v run small attempt brief ordinary t u in
    let (invalid, refused, done) = handle_write_outcome (client (payload o slot index a) t u) db in
    (
      client_report o.run_id (endpoint_at o slot) (sample_id o slot index a)
          (finished o slot index a) (timings_of a (finished o slot index a)),
      refl,
      report_read o slot index a v run small attempt,
      elim (Bool-cases (mode_stored (mode_at slot))) [
        | inl e ↦ rw e (done accepted (stored ∙ e))
        | inr e ↦ rw e (refused accepted (stored ∙ e))
      ],
    )

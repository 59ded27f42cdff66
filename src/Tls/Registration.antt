-- ===== src/Tls/Registration.antt =====
-- The run that the benchmark client creates at the dashboard before it probes.
use hybrid_tls_lab.Prelude.{
  ℕ, ◌<◌, ◌≤◌, ◌≡◌, refl, ◌∙◌, inl, inr, arith, true, some, List, [], ◌∷◌, map, if◌then◌else◌,
  length, Bool-cases, le→leb, take_of_le, All,
}
use hybrid_tls_lab.Prelude.Text.{Text, codes}
use hybrid_tls_lab.Prelude.Text.Decimal.{str_of, length-str_of}
use hybrid_tls_lab.Prelude.Dict.{lookup}
use hybrid_tls_lab.Prelude.Json.{string, number, read_object}
use hybrid_tls_lab.Prelude.Json.RoundTrip.{
  quoted, object_text, Quotes, Writes-quoted, Member, IsMember, member, plain_member, number_member,
  field_of, entry_of, read_object-object_text, length-object_text, length-quoted,
}
use hybrid_tls_lab.Schemas.{RunCreate, is_id, within, accepts_run}
use hybrid_tls_lab.Schemas.Body.{run_of, read_run}
use hybrid_tls_lab.Db.{Database, create_run}
use hybrid_tls_lab.Db.History.{create, apply}
use hybrid_tls_lab.Main.App.{json_ok, no_body}
use hybrid_tls_lab.Main.App.Routes.{accepts, handle_write}
use hybrid_tls_lab.Main.App.Writes.{handle_write_outcome}
use hybrid_tls_lab.Tls.Common.Escape.{
  one_line, length-one_line, json_escape-whole, is_plain-of-id_codes,
}
use hybrid_tls_lab.Tls.Options.{ℤ, pos, negsuc, ClientOptions}
use hybrid_tls_lab.Tls.Options.Parsed.{IsClient, IsInt}
use hybrid_tls_lab.Tls.Server.Query.{id_codes-of-is_id, length-of-is_id}
use hybrid_tls_lab.Tls.Benchmark.Run.{count_of, int_text, notes, run_report}

-- The payload that the report of a run stands for.
abbrev pub run_payload : ClientOptions → (version : Text) → RunCreate
run_payload o version = record {
  run_id = o.run_id;
  client_name = codes "openssl-c-client";
  openssl_version = some (one_line version);
  iterations = some (count_of o.iterations);
  warmup = some (count_of o.warmup);
  notes = some notes;
}

pub IsInt-count :
    (low high : ℕ) (i : ℤ)
    → IsInt low high i
    → (low ≤ count_of i) × (count_of i ≤ high) × (int_text i ≡ str_of (count_of i))
IsInt-count low high (pos n) h = (h.0, h.1, refl)
IsInt-count low high (negsuc n) h = absurd h

module _ (run_id escaped version : Text) (iterations warmup : ℕ) where
  abbrev first_member : Member
  first_member = member (codes "run_id") (quoted run_id) (string run_id)

  abbrev members : List Member
  members =
      member (codes "client_name") (quoted (codes "openssl-c-client"))
        (string (codes "openssl-c-client"))
      ∷ member (codes "openssl_version") (quoted escaped) (string version)
      ∷ member (codes "iterations") (str_of iterations) (number iterations)
      ∷ member (codes "warmup") (str_of warmup) (number warmup)
      ∷ member (codes "notes") (quoted notes) (string notes)
      ∷ []

  module _ (run : is_id 160 run_id ≡ true) (quotes : Quotes escaped version)
      (short : length escaped < 500) (few : iterations ≤ 1_000_000) (fewer : warmup ≤ 100_000) where
    members-fit : length (object_text (map field_of (first_member ∷ members))) ≤ 1399
    members-fit = omega (
      arith,
      length-object_text (field_of first_member) (map field_of members),
      length-quoted run_id,
      length-quoted (codes "openssl-c-client"),
      length-quoted escaped,
      length-quoted notes,
      length-of-is_id 160 run_id run,
      length-str_of 6 iterations (omega arith),
      length-str_of 5 warmup (omega arith),
    )

    members-IsMember : All IsMember (first_member ∷ members)
    members-IsMember = (
      plain_member (codes "run_id") run_id refl
          (is_plain-of-id_codes run_id (id_codes-of-is_id 160 run_id run)),
      (
        plain_member (codes "client_name") (codes "openssl-c-client") refl refl,
        (
          record { name_plain = refl; writes = Writes-quoted escaped version quotes },
          (
            number_member (codes "iterations") iterations refl,
            (
              number_member (codes "warmup") warmup refl,
              (plain_member (codes "notes") notes refl refl, tt),
            ),
          ),
        ),
      ),
    )

    members_read :
        read_object (object_text (map field_of (first_member ∷ members)))
        ≡ some (map entry_of (first_member ∷ members))
    members_read = read_object-object_text first_member members members-IsMember

is_id-within : (s : Text) → is_id 160 s ≡ true → is_id 120 s ≡ within 120 s
unfolding is_id
is_id-within s h = ground arith

report_read :
    (o : ClientOptions) (version : Text)
    → IsClient o
    → length version ≤ 240
    → read_run (run_report o version).1 ≡ some (run_payload o version)
unfolding read_run run_report run_of lookup
report_read o version v short =
    let (escaped, written, fits, quotes) = json_escape-whole version 500 (omega arith) in
    let (positive, few, shown) = IsInt-count 1 1_000_000 o.iterations v.iterations in
    let (zero_or_more, fewer, shown') = IsInt-count 0 100_000 o.warmup v.warmup in
    let text = one_line version in
    let m = count_of o.iterations in
    let n = count_of o.warmup in
    let fit = members-fit o.run_id escaped text m n v.run_id quotes fits few fewer in
    let read = members_read o.run_id escaped text m n v.run_id quotes fits few fewer in
    rw (written, shown, shown') (rw (take_of_le 1399 _ fit) (rw read refl))

payload_accepted :
    (o : ClientOptions) (version : Text)
    → IsClient o
    → length version ≤ 240
    → accepts_run (run_payload o version) ≡ within 120 o.run_id
unfolding accepts_run
payload_accepted o version v short =
    let (positive, few, _) = IsInt-count 1 1_000_000 o.iterations v.iterations in
    let (_, fewer, _) = IsInt-count 0 100_000 o.warmup v.warmup in
    rw
      (
        is_id-within o.run_id v.run_id,
        le→leb (length (one_line version)) 240 (omega (arith, length-one_line version)),
        le→leb 1 (count_of o.iterations) positive,
        le→leb (count_of o.iterations) 1_000_000 few,
        le→leb (count_of o.warmup) 100_000 fewer,
      )
      (ground arith)

-- The run that the client creates, whatever arguments it was started with: the dashboard reads from
-- the report the id, the counts and the version of OpenSSL, on one line, if that has at most 240
-- characters. It takes the run just if its id has at most 120 characters, although the client takes
-- ids of up to 160: a longer one is answered by 422, and the database is left as it was.
pub run-delivered :
    (o : ClientOptions) (version : Text) (now : ℕ) (db : Database)
    → IsClient o
    → length version ≤ 240
    → let payload = run_payload o version in
      (read_run (run_report o version).1 ≡ some payload)
      × (handle_write (create payload now) db ≡ (
          if within 120 o.run_id
          then (record { status = 201; body = json_ok o.run_id }, (create_run payload now db).1)
          else (record { status = 422; body = no_body }, db)))
unfolding accepts apply
run-delivered o version now db v short =
    let payload = run_payload o version in
    let accepted = payload_accepted o version v short in
    let (invalid, refused, done) = handle_write_outcome (create payload now) db in
    (
      report_read o version v short,
      elim (Bool-cases (within 120 o.run_id)) [
        | inl e ↦ rw e (done (accepted ∙ e) refl)
        | inr e ↦ rw e (invalid (accepted ∙ e))
      ],
    )

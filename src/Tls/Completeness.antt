-- ===== src/Tls/Completeness.antt =====
-- All the reports of a run, one after the other, at a dashboard that has none of its samples.
use hybrid_tls_lab.Prelude.{
  ℕ, ◌+◌, ◌≤◌, ◌≡◌, refl, ap, ◌∙◌, inl, inr, arith, Bool, true, false, ◌&&◌, Option, none, some,
  List, [], ◌∷◌, ◌++◌, if◌then◌else◌, count_if, All, All-imp, All-and, Bool-cases, lt→ltb, ◌^◌,
}
use hybrid_tls_lab.Prelude.Text.{Text, text_eq}
use hybrid_tls_lab.Schemas.{Mode, mode_text, ClientMeasurement, is_id}
use hybrid_tls_lab.Db.Table.{find, upsert}
use hybrid_tls_lab.Db.{
  Measurement, Database, sample_key, ensure_run, client_row, client_update, fits_row, Result,
}
use hybrid_tls_lab.Db.Atomic.{client_stored}
use hybrid_tls_lab.Db.Merge.{sample_of}
use hybrid_tls_lab.Db.History.{client}
use hybrid_tls_lab.Main.App.{Response}
use hybrid_tls_lab.Main.App.Routes.{handle_write}
use hybrid_tls_lab.Main.App.Writes.{mode_stored, mode_allowed-mode_text}
use hybrid_tls_lab.Tls.Options.{ClientOptions}
use hybrid_tls_lab.Tls.Options.Parsed.{IsClient}
use hybrid_tls_lab.Tls.Server.Query.{length-of-is_id}
use hybrid_tls_lab.Tls.Benchmark.{timings_of}
use hybrid_tls_lab.Tls.Benchmark.Run.{Surroundings, count_of, schedule_of}
use hybrid_tls_lab.Tls.Benchmark.Probes.{IsAttempt, IsBrief}
use hybrid_tls_lab.Tls.Benchmark.Samples.{text_eq-sample_id_of}
use hybrid_tls_lab.Tls.Benchmark.Order.{report_at}
use hybrid_tls_lab.Schemas.Body.{read_client}
use hybrid_tls_lab.Tls.Registration.{IsInt-count}
use hybrid_tls_lab.Tls.Rounds.{same_probe, Apart, rounds_small, rounds-Apart, count_of_rounds}
use hybrid_tls_lab.Tls.Delivery.{
  mode_at, IsOrdinary, endpoint_at-Measures, finished, payload, report_read, probe-delivered,
}

module _ {A : Type 0} (key : A → Text) where
  upsert-fresh :
      (update : A → A) (new : A) (rs : List A)
      → find key (key new) rs ≡ none
      → upsert key update new rs ≡ rs ++ new ∷ []
  unfolding upsert find
  upsert-fresh update new [] h = refl
  upsert-fresh update new (r ∷ rs) h = elim (Bool-cases (text_eq (key r) (key new))) [
    | inl e ↦ let impossible : some r ≡ none = rw e at h in cc
    | inr e ↦ rw e (ap (◌∷◌ r) (upsert-fresh update new rs (rw e at h)))
  ]

  find-append-none :
      (k : Text) (new : A) (rs : List A)
      → find key k rs ≡ none
      → text_eq (key new) k ≡ false
      → find key k (rs ++ new ∷ []) ≡ none
  unfolding find
  find-append-none k new [] h e = rw e
  find-append-none k new (r ∷ rs) h e = elim (Bool-cases (text_eq (key r) k)) [
    | inl e' ↦ let impossible : some r ≡ none = rw e' at h in cc
    | inr e' ↦ rw e' (find-append-none k new rs (rw e' at h) e)
  ]

count_if-append-one :
    {A : Type 0} (q : A → Bool) (x : A) (xs : List A)
    → count_if q (xs ++ x ∷ []) ≡ count_if q xs + (if q x then 1 else 0)
count_if-append-one q x [] = omega arith
count_if-append-one q x (y ∷ ys) = omega (arith, count_if-append-one q x ys)

-- A measured probe is an ordinary one.
pub record IsSound (w : Surroundings) (o : ClientOptions) (at : ℕ × ℕ) : Type 0 where
  pub attempt : IsAttempt (w.attempt true at.0 at.1)
  pub brief : IsBrief (w.attempt true at.0 at.1)
  pub ordinary :
      let a = w.attempt true at.0 at.1 in
      IsOrdinary (finished o at.1 at.0 a) (timings_of a (finished o at.1 at.0 a))

-- A body at the route of the clients: one that is not a payload is answered by 422.
abbrev pub handled : Option ClientMeasurement → (now : ℕ) → Database → Database
handled none now db = db
handled (some c) now db = (handle_write (client c now now) db).1

module _ (w : Surroundings) (o : ClientOptions) (clock : ℕ × ℕ → ℕ) where
  -- What a measured probe reports.
  abbrev pub payload_at : ℕ × ℕ → ClientMeasurement
  payload_at at = payload o at.1 at.0 (w.attempt true at.0 at.1)

  abbrev row_at : ℕ × ℕ → Measurement
  row_at at = client_row (payload_at at) (clock at)

  -- The database after the dashboard has handled the report of a probe.
  abbrev pub delivered : ℕ × ℕ → Database → Database
  delivered at db = handled (read_client (report_at w o at).1) (clock at) db

  unfoldable pub deliver_all : List (ℕ × ℕ) → Database → Database
  deliver_all [] db = db
  deliver_all (at ∷ schedule) db = deliver_all schedule (delivered at db)

  abbrev pub IsFresh : Database → ℕ × ℕ → Type 0
  IsFresh db at = sample_of (payload_at at).sample_id db ≡ none

  abbrev IsSmall : ℕ × ℕ → Type 0
  IsSmall at = at.0 ≤ 1_000_000

  module _ (v : IsClient o) (run : is_id 120 o.run_id ≡ true) where
    ids_differ :
        (a b : ℕ × ℕ)
        → IsSmall a
        → IsSmall b
        → text_eq (payload_at a).sample_id (payload_at b).sample_id ≡ same_probe a b
    ids_differ a b ha hb =
        rw ((endpoint_at-Measures o a.1 v.endpoints).0, (endpoint_at-Measures o b.1 v.endpoints).0)
          (text_eq-sample_id_of o.run_id (mode_at a.1) (mode_at b.1) a.0 b.0
            (omega (arith, length-of-is_id 120 o.run_id run)) ha hb)

    fits : (at : ℕ × ℕ) → IsSound w o at → fits_row (row_at at) ≡ true
    fits at sound = rw (
      lt→ltb _ (2 ^ 63) sound.ordinary.bytes_sent,
      lt→ltb _ (2 ^ 63) sound.ordinary.bytes_received,
    )

    rows_of_delivered :
        (at : ℕ × ℕ) (db : Database)
        → IsSound w o at
        → IsSmall at
        → IsFresh db at
        → (delivered at db).measurements ≡ (
            if mode_stored (mode_at at.1)
            then db.measurements ++ row_at at ∷ []
            else db.measurements)
    unfolding ensure_run
    rows_of_delivered at db sound small fresh =
        let (r, sent, read, done) =
          probe-delivered o at.1 at.0 (w.attempt true at.0 at.1) (clock at) (clock at) db v run
            small sound.attempt sound.brief sound.ordinary in
        ap (λ (c : Option ClientMeasurement). (handled c (clock at) db).measurements)
          (report_read o at.1 at.0 (w.attempt true at.0 at.1) v run small sound.attempt)
        ∙ elim (Bool-cases (mode_stored (mode_at at.1))) [
          | inr e ↦ rw e (ap (λ (p : Response × Database). p.1.measurements) (rw e at done))
          | inl e ↦ rw e (
              ap (λ (p : Response × Database). p.1.measurements) (rw e at done)
              ∙ ap (λ (p : Result (Unit {0}) × Database). p.1.measurements)
                  (client_stored (payload_at at) (clock at) (clock at) db (fits at sound)
                    (mode_allowed-mode_text (mode_at at.1) ∙ e))
              ∙ upsert-fresh sample_key (client_update (payload_at at) (clock at)) (row_at at)
                  db.measurements fresh)
        ]

    delivered-IsFresh :
        (at b : ℕ × ℕ) (db : Database)
        → IsSound w o at
        → IsSmall at
        → IsSmall b
        → IsFresh db at
        → same_probe at b ≡ false
        → IsFresh db b
        → IsFresh (delivered at db) b
    delivered-IsFresh at b db sound ha hb fresh other h =
        let id = (payload_at b).sample_id in
        ap (find sample_key id) (rows_of_delivered at db sound ha fresh)
        ∙ elim (Bool-cases (mode_stored (mode_at at.1))) [
          | inl e ↦ rw e (
              find-append-none sample_key id (row_at at) db.measurements h
                (ids_differ at b ha hb ∙ other))
          | inr e ↦ rw e h
        ]

    -- A report adds its row, or none.
    adds : (Measurement → Bool) → ℕ × ℕ → Bool
    adds q at = mode_stored (mode_at at.1) && q (row_at at)

    count_delivered :
        (q : Measurement → Bool) (at : ℕ × ℕ) (db : Database)
        → IsSound w o at
        → IsSmall at
        → IsFresh db at
        → count_if q (delivered at db).measurements
          ≡ count_if q db.measurements + (if adds q at then 1 else 0)
    unfolding adds
    count_delivered q at db sound small fresh =
        ap (count_if q) (rows_of_delivered at db sound small fresh)
        ∙ elim (Bool-cases (mode_stored (mode_at at.1))) [
          | inl e ↦ rw e (count_if-append-one q (row_at at) db.measurements)
          | inr e ↦ rw e (omega arith)
        ]

    count_deliver_all :
        (q : Measurement → Bool) (schedule : List (ℕ × ℕ)) (db : Database)
        → All (IsSound w o) schedule
        → Apart schedule
        → All IsSmall schedule
        → All (IsFresh db) schedule
        → count_if q (deliver_all schedule db).measurements
          ≡ count_if q db.measurements + count_if (adds q) schedule
    unfolding deliver_all
    count_deliver_all q [] db sound apart small fresh = omega arith
    count_deliver_all q (at ∷ schedule) db sound apart small fresh =
        let later : All (IsFresh (delivered at db)) schedule =
          All-imp schedule
            (λ b h. delivered-IsFresh at b db sound.0 small.0 h.1.0 fresh.0 h.0 h.1.1)
            (All-and (λ b. same_probe at b ≡ false) (λ b. IsSmall b × IsFresh db b) schedule apart.0
              (All-and IsSmall (IsFresh db) schedule small.1 fresh.1)) in
        omega (
          arith,
          count_deliver_all q schedule (delivered at db) sound.1 apart.1 small.1 later,
          count_delivered q at db sound.0 small.0 fresh.0,
        )

-- A run loses no report of the modes classical and hybrid, and keeps none of hybrid_p256: once the
-- dashboard has handled the bodies that its measured probes send, in their order, from a database
-- that has none of its samples, it has a row more of each of the two modes for each iteration, and
-- no row more of the third, whether the probes have succeeded or failed. The conditions: the client
-- accepts the options, the run id has at most 120 characters, no part of a probe took more than two
-- minutes, its byte counts are below 2 ^ 63, and OpenSSL's names fit their columns and have
-- nothing for JSON to escape.
pub deliver_all_complete :
    (w : Surroundings) (o : ClientOptions) (clock : ℕ × ℕ → ℕ) (db : Database) (mode : Mode)
    → IsClient o
    → is_id 120 o.run_id ≡ true
    → All (IsSound w o) (schedule_of o)
    → All (IsFresh w o clock db) (schedule_of o)
    → let in_mode = λ (m : Measurement). text_eq m.mode (mode_text mode) in
      count_if in_mode (deliver_all w o clock (schedule_of o) db).measurements
      ≡ count_if in_mode db.measurements + (if mode_stored mode then count_of o.iterations else 0)
unfolding adds
deliver_all_complete w o clock db mode v run sound fresh =
    let n = count_of o.iterations in
    let (_, few, _) = IsInt-count 1 1_000_000 o.iterations v.iterations in
    let in_mode = λ (m : Measurement). text_eq m.mode (mode_text mode) in
    count_deliver_all w o clock v run in_mode (schedule_of o) db sound
      (rounds-Apart n 0 (omega arith))
      (All-imp (schedule_of o) (λ at h. h.1) (rounds_small n 0 (omega arith))) fresh
    ∙ ap (λ k. count_if in_mode db.measurements + k) (count_of_rounds mode n 0)

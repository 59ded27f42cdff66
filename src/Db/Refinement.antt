-- ===== src/Db/Refinement.antt =====
-- The tables refine the maps of `Store`.
use mathlib.Core.Path.{fun_ext}
use hybrid_tls_lab.Prelude.{
  ℕ, ◌≡◌, refl, sym, ap, ◌∙◌, inl, inr, arith, Bool, true, false, Option, none, some, List, [], ◌∷◌,
  if◌then◌else◌, Bool-cases,
}
use hybrid_tls_lab.Prelude.Text.{Text, text_eq, text_eq_iff, text_eq_refl}
use hybrid_tls_lab.Schemas.{RunCreate}
use hybrid_tls_lab.Db.Table.{find, upsert, merged, find-upsert}
use hybrid_tls_lab.Db.{
  Run, Measurement, Database, Result, err, overflow, transaction, run_key, sample_key, bare_run,
  new_run, describe_run, ensure_run, set_completed, fits_row, mode_allowed, insert_sample,
  server_row, server_update, client_row, client_update, server_body, client_body, create_run,
  complete_run, record_server, record_client,
}
use hybrid_tls_lab.Db.Atomic.{
  ensured, insert_sample_stored, insert_sample_refused, transaction_ok, transaction_err, stored,
}
use hybrid_tls_lab.Db.Integrity.{id_if}
use hybrid_tls_lab.Db.History.{Write, create, complete, server, client, apply, initial, replay}
use hybrid_tls_lab.Db.Store.{
  Store, alter, created, known, completed, reported, report, promise, promises, view, nothing,
  outcomes, promised,
}

-- The results agree, and so do the database that is left and the maps.
abbrev Agrees : Result (Unit {0}) × Database → Result (Unit {0}) × Store → Type 0
Agrees o p = (o.0 ≡ p.0) × (view o.1 ≡ p.1)

Agrees-by :
    {o o' : Result (Unit {0}) × Database} {p p' : Result (Unit {0}) × Store}
    → o ≡ o'
    → p ≡ p'
    → Agrees o' p'
    → Agrees o p
Agrees-by e e' h = (
  ap (λ o. o.0) e ∙ h.0 ∙ sym (ap (λ p. p.0) e'),
  ap (λ o. view o.1) e ∙ h.1 ∙ sym (ap (λ p. p.1) e'),
)

module _ {A : Type 0} (key : A → Text) (update : A → A) (keeps : (a : A) → key (update a) ≡ key a)
    (new : A) (g : Option A → A) (agrees : (o : Option A) → merged key update new o ≡ g o) where
  upsert-alter :
      (rs : List A)
      → (λ k. find key k (upsert key update new rs)) ≡ alter (key new) g (λ k. find key k rs)
  upsert-alter rs = fun_ext λ k. elim (Bool-cases (text_eq (key new) k)) [
    | inl e ↦
        let same : key new ≡ k = (text_eq_iff (key new) k).0 e in
        find-upsert key update keeps new k rs ∙ rw (e, same) (ap some (agrees (find key k rs)))
    | inr e ↦ find-upsert key update keeps new k rs ∙ rw e
  ]

  find-upsert_self :
      (rs : List A)
      → find key (key new) (upsert key update new rs) ≡ some (g (find key (key new) rs))
  find-upsert_self rs =
      find-upsert key update keeps new (key new) rs
      ∙ rw (text_eq_refl (key new)) (ap some (agrees (find key (key new) rs)))

view-create_run :
    (payload : RunCreate) (now : ℕ) (db : Database)
    → view (create_run payload now db).1 ≡ (promise (create payload now) (view db)).1
unfolding create_run promise
view-create_run payload now db =
    ap (λ f. record { runs = f; samples = λ k. find sample_key k db.measurements })
      (upsert-alter run_key (describe_run payload) (λ r. refl) (new_run payload now)
        (created payload now) (λ o. elim o [ none ↦ refl | some r ↦ refl ]) db.benchmark_runs)

ensure-alter :
    (id : Text) (started : ℕ) (db : Database)
    → (λ k. find run_key k (ensure_run id started db).benchmark_runs)
      ≡ alter id (known id started) (λ k. find run_key k db.benchmark_runs)
unfolding ensure_run
ensure-alter id started db =
    upsert-alter run_key (λ r. r) (λ r. refl) (bare_run id started) (known id started)
      (λ o. elim o [ none ↦ refl | some r ↦ refl ]) db.benchmark_runs

abbrev completed_if : Bool → ℕ → Run → Run
completed_if b now r = if b then record r { completed_at = some now } else r

abbrev completed_found : Bool → ℕ → Option Run → Option Run
completed_found b now none = none
completed_found b now (some r) = some (completed_if b now r)

text_eq_comm : (a b : Text) → text_eq a b ≡ text_eq b a
text_eq_comm a b = ground (arith, text_eq_iff a b, text_eq_iff b a)

find-set_completed :
    (k id : Text) (now : ℕ) (rs : List Run)
    → find run_key k (set_completed id now rs)
      ≡ completed_found (text_eq id k) now (find run_key k rs)
unfolding find set_completed
find-set_completed k id now [] = refl
find-set_completed k id now (r ∷ rs) =
    rw (id_if (text_eq r.id id) r now) (elim (Bool-cases (text_eq r.id k)) [
      | inl e ↦ let same : r.id ≡ k = (text_eq_iff r.id k).0 e in rw (e, same, text_eq_comm k id)
      | inr e ↦ rw e (find-set_completed k id now rs)
    ])

completed_once :
    (b : Bool) (id : Text) (started now : ℕ) (o : Option Run)
    → completed_found b now (if b then some (known id started o) else o)
      ≡ (if b then some (completed id started now o) else o)
completed_once true id started now o = refl
completed_once false id started now none = refl
completed_once false id started now (some r) = refl

view-complete_run :
    (id : Text) (started now : ℕ) (db : Database)
    → view (complete_run id started now db).1 ≡ (promise (complete id started now) (view db)).1
unfolding complete_run promise ensure_run
view-complete_run id started now db =
    let db' = ensure_run id started db in
    let runs : (λ k. find run_key k (set_completed id now db'.benchmark_runs))
        ≡ alter id (completed id started now) (λ k. find run_key k db.benchmark_runs) =
      fun_ext λ k.
        find-set_completed k id now db'.benchmark_runs
        ∙ ap (λ f. completed_found (text_eq id k) now (f k)) (ensure-alter id started db)
        ∙ completed_once (text_eq id k) id started now (find run_key k db.benchmark_runs) in
    λ i. record { runs = runs i; samples = (view db).samples }

module _ (update : Measurement → Measurement)
    (keeps : (m : Measurement) → (update m).sample_id ≡ m.sample_id) (new : Measurement)
    (started : ℕ) (db : Database) where
  -- The database that a stored report leaves.
  view-stored : view (stored update new started db).1 ≡ record {
    runs = alter new.run_id (known new.run_id started) (view db).runs;
    samples = alter new.sample_id (reported update new) (view db).samples;
  }
  unfolding ensure_run
  view-stored =
      let runs = ensure-alter new.run_id started db in
      let samples =
        upsert-alter sample_key update keeps new (reported update new)
          (λ o. elim o [ none ↦ refl | some m ↦ refl ]) db.measurements in
      λ i. record { runs = runs i; samples = samples i }

  -- The statements of a report.
  abbrev body : Database → Result Database
  body db' = insert_sample update new (ensure_run new.run_id started db')

  too_large : fits_row new ≡ false → transaction body db ≡ (err overflow, db)
  unfolding insert_sample
  too_large large = transaction_err body db (rw large refl)

  write-report : Agrees (transaction body db) (report update new started (view db))
  write-report = elim (Bool-cases (fits_row new)) [
    | inr large ↦ Agrees-by (too_large large) (rw large refl) (refl, refl)
    | inl fits ↦ elim (Bool-cases (mode_allowed new.mode)) [
      | inr other ↦
          Agrees-by
            (transaction_err body db
              (insert_sample_refused update new (ensure_run new.run_id started db) fits other))
            (rw (fits, other) refl) (refl, refl)
      | inl allowed ↦
          Agrees-by
            (transaction_ok body db (
              insert_sample_stored update new (ensure_run new.run_id started db) fits allowed
                (ensured new.run_id started db)))
            (rw (fits, allowed) refl) (refl, view-stored)
    ]
  ]

-- One write: the result that it returns and the maps that it leaves are those promised.
pub apply-promise : (w : Write) (db : Database) → Agrees (apply w db) (promise w (view db))
unfolding apply promise create_run complete_run record_server record_client server_body client_body
apply-promise (create payload now) db = (refl, view-create_run payload now db)
apply-promise (complete run_id started now) db = (refl, view-complete_run run_id started now db)
apply-promise (server payload started now) db =
    write-report (server_update payload now) (λ m. refl) (server_row payload now) started db
apply-promise (client payload started now) db =
    write-report (client_update payload now) (λ m. refl) (client_row payload now) started db

refines :
    (ws : List Write) (db : Database)
    → (outcomes ws db ≡ promised ws (view db)) × (view (replay ws db) ≡ promises ws (view db))
unfolding outcomes promised promises replay
refines [] db = (refl, refl)
refines (w ∷ ws) db =
    let (result, left) = apply-promise w db in
    let (results, last) = refines ws (apply w db).1 in
    ((λ i. result i ∷ (results ∙ ap (promised ws) left) i), last ∙ ap (promises ws) left)

-- Any sequence of writes on the two tables behaves as on two maps: it returns the same results, in
-- the same order, and what can be found by key in the tables afterwards are those maps, where a
-- write changes one run and at most one sample, a report is refused by its byte counts and its mode
-- alone, and a refused one changes nothing.
pub replay-promises :
    (ws : List Write)
    → (outcomes ws initial ≡ promised ws nothing) × (view (replay ws initial) ≡ promises ws nothing)
unfolding find
replay-promises ws = refines ws initial

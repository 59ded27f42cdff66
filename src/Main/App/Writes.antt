-- ===== src/Main/App/Writes.antt =====
-- The requests that write, against the repository and what it promises.
use hybrid_tls_lab.Prelude.{
  ◌≡◌, refl, ap, ◌∙◌, sym, inl, inr, Bool, true, false, not, ◌&&◌, List, [], ◌∷◌, if◌then◌else◌,
  Bool-cases,
}
use hybrid_tls_lab.Schemas.{Mode, classical, hybrid, hybrid_p256, mode_text}
use hybrid_tls_lab.Db.{
  Database, Result, Error, ok, err, overflow, check_failed, mode_allowed, fits_integer, fits_row,
  client_row,
}
use hybrid_tls_lab.Db.History.{
  Write, create, complete, server, client, apply, replay, replay-IsValid, apply-err,
}
use hybrid_tls_lab.Db.Integrity.{IsValid}
use hybrid_tls_lab.Db.Store.{Store, promise, promises, view, nothing}
use hybrid_tls_lab.Db.Refinement.{apply-promise, replay-promises}
use hybrid_tls_lab.Main.App.{
  Installation, State, at_start, Request, health, page, score, hndl, compliance, roadmap, cbom,
  post, dashboard, results_csv, server_error, json_ok, no_body,
}
use hybrid_tls_lab.Main.App.Routes.{
  accepts, success_status, success_id, handle_write, serve, serve_all,
}

abbrev pub mode_stored : Mode → Bool
mode_stored classical = true
mode_stored hybrid = true
mode_stored hybrid_p256 = false

-- The tables take the write: its mode is not hybrid_p256, and its byte counts are below 2 ^ 63.
abbrev pub storable : Write → Bool
storable (create payload now) = true
storable (complete run_id started now) = true
storable (server payload started now) = mode_stored payload.mode
storable (client payload started now) =
    fits_integer payload.bytes_sent
    && fits_integer payload.bytes_received
    && mode_stored payload.mode

pub mode_allowed-mode_text : (mode : Mode) → mode_allowed (mode_text mode) ≡ mode_stored mode
unfolding mode_allowed
mode_allowed-mode_text classical = refl
mode_allowed-mode_text hybrid = refl
mode_allowed-mode_text hybrid_p256 = refl

abbrev IsErr : Result (Unit {0}) → Type 0
IsErr o = (e : Error) × (o ≡ err e)

-- What is promised of a write that can be stored, and of one that cannot.
abbrev Promised : Bool → Result (Unit {0}) → Type 0
Promised true o = o ≡ ok tt
Promised false o = IsErr o

report-Promised :
    (fits allowed : Bool) (st : Store) (o : Result (Unit {0}) × Store)
    → o.0 ≡ ok tt
    → Promised
        (fits && allowed)
        (if not fits
          then (err overflow, st)
          else if not allowed
          then (err check_failed, st)
          else o).0
report-Promised true true st o h = h
report-Promised true false st o h = (check_failed, refl)
report-Promised false true st o h = (overflow, refl)
report-Promised false false st o h = (overflow, refl)

promise_result : (w : Write) (st : Store) → Promised (storable w) (promise w st).0
unfolding promise
promise_result (create payload now) st = refl
promise_result (complete run_id started now) st = refl
promise_result (server payload started now) st =
    rw (sym (mode_allowed-mode_text payload.mode)) (report-Promised true _ st _ refl)
promise_result (client payload started now) st =
    rw (sym (mode_allowed-mode_text payload.mode))
      (report-Promised (fits_row (client_row payload now)) _ st _ refl)

result_of_storable : (w : Write) (db : Database) → storable w ≡ true → (apply w db).0 ≡ ok tt
result_of_storable w db h = (apply-promise w db).0 ∙ rw h at (promise_result w (view db))

result_of_refused : (w : Write) (db : Database) → storable w ≡ false → IsErr (apply w db).0
result_of_refused w db h =
    let (e, refused) = rw h at (promise_result w (view db)) in (e, (apply-promise w db).0 ∙ refused)

-- A request that writes has three outcomes. If it breaks a constraint of its schema it is answered
-- by 422, and if it keeps them but cannot be stored, since its mode is hybrid_p256 or a byte count is
-- 2 ^ 63 or more, by 500; either way the database is left as it was. Otherwise it is answered by its
-- success status with its own id, and the write is done.
pub handle_write_outcome :
    (w : Write) (db : Database)
    → (accepts w ≡ false → handle_write w db ≡ (record { status = 422; body = no_body }, db))
      × (accepts w ≡ true → storable w ≡ false → handle_write w db ≡ (server_error, db))
      × (accepts w ≡ true
          → storable w ≡ true
          → handle_write w db
            ≡ (record { status = success_status w; body = json_ok (success_id w) }, (apply w db).1))
unfolding handle_write
handle_write_outcome w db = (
  (λ h. rw h),
  (λ h refused.
      let (e, result) = result_of_refused w db refused in rw (h, result, apply-err w db result)),
  (λ h stored. rw (h, result_of_storable w db stored)),
)

-- The writes of the requests that pass their constraints.
unfoldable pub written : List Request → List Write
written [] = []
written (post w ∷ rs) = if accepts w then w ∷ written rs else written rs
written (health ∷ rs) = written rs
written (page p run_id ∷ rs) = written rs
written (score run_id view' ∷ rs) = written rs
written (hndl run_id scenario ∷ rs) = written rs
written (compliance run_id ∷ rs) = written rs
written (roadmap run_id ∷ rs) = written rs
written (cbom target_name uuid now ∷ rs) = written rs
written (dashboard run_id ∷ rs) = written rs
written (results_csv run_id ∷ rs) = written rs

module _ (env : Installation) where
  repository_of_post :
      (w : Write) (db : Database)
      → (handle_write w db).1 ≡ (if accepts w then (apply w db).1 else db)
  unfolding handle_write
  repository_of_post w db = elim (Bool-cases (accepts w)) [ inl e ↦ rw e | inr e ↦ rw e ]

  pub serve_all-replay :
      (rs : List Request) (st : State)
      → (serve_all env rs st).repository ≡ replay (written rs) st.repository
  unfolding serve_all serve written replay
  serve_all-replay [] st = refl
  serve_all-replay (post w ∷ rs) st = elim (Bool-cases (accepts w)) [
    | inl e ↦
        serve_all-replay rs (serve env (post w) st).1
        ∙ ap (replay (written rs)) (repository_of_post w st.repository)
        ∙ rw e
    | inr e ↦
        serve_all-replay rs (serve env (post w) st).1
        ∙ ap (replay (written rs)) (repository_of_post w st.repository)
        ∙ rw e
  ]
  serve_all-replay (health ∷ rs) st = serve_all-replay rs st
  serve_all-replay (page p run_id ∷ rs) st = serve_all-replay rs st
  serve_all-replay (score run_id view' ∷ rs) st =
      serve_all-replay rs (serve env (score run_id view') st).1
  serve_all-replay (hndl run_id scenario ∷ rs) st = serve_all-replay rs st
  serve_all-replay (compliance run_id ∷ rs) st = serve_all-replay rs st
  serve_all-replay (roadmap run_id ∷ rs) st = serve_all-replay rs st
  serve_all-replay (cbom target_name uuid now ∷ rs) st = serve_all-replay rs st
  serve_all-replay (dashboard run_id ∷ rs) st = serve_all-replay rs st
  serve_all-replay (results_csv run_id ∷ rs) st = serve_all-replay rs st

  -- After any sequence of requests to a new installation, reads and failures included, the tables
  -- are valid, and they stand for the two maps that the writes among the requests promise, those
  -- that pass their constraints: no page, export or refused request leaves a trace.
  pub serve_all-promises :
      (rs : List Request)
      → IsValid (serve_all env rs at_start).repository
        × (view (serve_all env rs at_start).repository ≡ promises (written rs) nothing)
  serve_all-promises rs =
      let replayed = serve_all-replay rs at_start in
      (
        rw replayed (replay-IsValid (written rs)),
        ap view replayed ∙ (replay-promises (written rs)).1,
      )

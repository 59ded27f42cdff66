-- ===== src/Tests/Races.antt =====
-- An interleaving of connections: a run is created while a second connection waits and a third gives
-- up; the second then has its report rolled back; a fourth is lost, and a fifth is in a transaction.
use hybrid_tls_lab.Prelude.{ℕ, ◌≡◌, refl, All, length, [], ◌∷◌}
use hybrid_tls_lab.Db.{server_body, insert_sample, ensure_run, mode_allowed, ok, err, check_failed}
use hybrid_tls_lab.Db.Table.{find, upsert}
use hybrid_tls_lab.Db.History.{create, server, client, initial, replay}
use hybrid_tls_lab.Db.Store.{outcomes}
use hybrid_tls_lab.Db.Concurrent.{
  body, World, WorksOn, connect, begin, time_out, execute, commit, rollback, lose, read, Reach,
  start, later, IsSnapshot, Reach-replay, Reach-exclusive,
}
use hybrid_tls_lab.Tests.Storage.{opened, p256_report, server_report, client_report}

racing : Unit {0}
unfolding body server_body insert_sample ensure_run mode_allowed find upsert
racing = tt

-- The steps up to the commit of the run, those of the report that is refused, and the rest.
raced :
    (s : World) × Reach s
    × (s.ended ≡ create opened 0 ∷ server p256_report 5 6 ∷ [])
    × (s.returned ≡ ok tt ∷ err check_failed ∷ [])
    × (length s.seen ≡ 2)
unfolding racing
raced =
    let asked =
      later
        (later (later start (connect {i = 1} (create opened 0) refl))
          (connect {i = 2} (server p256_report 5 6) refl))
        (connect {i = 3} (client client_report 1 2) refl) in
    let run_open = later (later asked (begin {i = 1} refl refl)) read in
    let run_done =
      later (later (later run_open (time_out {i = 3} refl)) (execute {i = 1} refl))
        (commit {i = 1} refl) in
    let refused =
      later (later (later run_done (begin {i = 2} refl refl)) (execute {i = 2} refl))
        (rollback {i = 2} refl) in
    let lost =
      later
        (later (later refused (connect {i = 4} (server server_report 7 8) refl))
          (begin {i = 4} refl refl))
        (lose 4) in
    let last =
      later (later lost (connect {i = 5} (client client_report 9 10) refl))
        (begin {i = 5} refl refl) in
    (_, later last read, refl, refl, refl)

Reach-replay_example :
    (raced.0.committed ≡ replay raced.0.ended initial)
    × (raced.0.returned ≡ outcomes raced.0.ended initial)
    × All (IsSnapshot raced.0.ended) raced.0.seen
Reach-replay_example = Reach-replay raced.1

-- The number of the connection that is left.
abbrev last_one : ℕ
last_one = 5

Reach-exclusive_example :
    (last_one ≡ last_one) × WorksOn (raced.0.connections last_one) raced.0.committed
unfolding raced
Reach-exclusive_example = Reach-exclusive last_one last_one raced.1 tt tt

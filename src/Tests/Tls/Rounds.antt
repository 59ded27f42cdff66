-- ===== src/Tests/Tls/Rounds.antt =====
-- The reports of the three rounds, at a dashboard that is new.
use hybrid_tls_lab.Prelude.{ℕ, ◌+◌, ◌≡◌, refl, arith, count_if, All}
use hybrid_tls_lab.Prelude.Text.{text_eq}
use hybrid_tls_lab.Schemas.{hybrid, mode_text}
use hybrid_tls_lab.Db.{Measurement}
use hybrid_tls_lab.Db.Table.{find}
use hybrid_tls_lab.Db.History.{initial}
use hybrid_tls_lab.Tls.Benchmark.Run.{schedule_of, rounds, rotation}
use hybrid_tls_lab.Tls.Completeness.{IsSound, IsFresh, deliver_all, deliver_all_complete}
use hybrid_tls_lab.Tests.Tls.{
  options, options-IsClient, run_id-is_id, world, attempt-IsAttempt, attempt-IsBrief, probe_program,
}

classical_IsSound : (index : ℕ) → IsSound world options (index, 0)
unfolding probe_program
classical_IsSound index = record {
  attempt = attempt-IsAttempt;
  brief = attempt-IsBrief;
  ordinary = record {
    tcp_us = omega arith;
    handshake_us = omega arith;
    ttfb_us = omega arith;
    total_us = omega arith;
    bytes_sent = omega arith;
    bytes_received = omega arith;
  };
}

hybrid_IsSound : (index : ℕ) → IsSound world options (index, 1)
unfolding probe_program
hybrid_IsSound index = record {
  attempt = attempt-IsAttempt;
  brief = attempt-IsBrief;
  ordinary = record {
    tcp_us = omega arith;
    handshake_us = omega arith;
    ttfb_us = omega arith;
    total_us = omega arith;
    bytes_sent = omega arith;
    bytes_received = omega arith;
  };
}

p256_IsSound : (index : ℕ) → IsSound world options (index, 2)
unfolding probe_program
p256_IsSound index = record {
  attempt = attempt-IsAttempt;
  brief = attempt-IsBrief;
  ordinary = record {
    tcp_us = omega arith;
    handshake_us = omega arith;
    ttfb_us = omega arith;
    total_us = omega arith;
    bytes_sent = omega arith;
    bytes_received = omega arith;
  };
}

schedule_of-IsSound : All (IsSound world options) (schedule_of options)
unfolding rounds rotation
schedule_of-IsSound = (
  classical_IsSound 1,
  (
    hybrid_IsSound 1,
    (
      p256_IsSound 1,
      (
        hybrid_IsSound 2,
        (
          p256_IsSound 2,
          (classical_IsSound 2, (p256_IsSound 3, (classical_IsSound 3, (hybrid_IsSound 3, tt)))),
        ),
      ),
    ),
  ),
)

schedule_of-IsFresh : All (IsFresh world options (λ at. at.0) initial) (schedule_of options)
unfolding rounds rotation find
schedule_of-IsFresh = (refl, (refl, (refl, (refl, (refl, (refl, (refl, (refl, (refl, tt)))))))))

deliver_all_complete_example :
    let in_mode = λ (m : Measurement). text_eq m.mode (mode_text hybrid) in
    count_if in_mode
      (deliver_all world options (λ at. at.0) (schedule_of options) initial).measurements
    ≡ count_if in_mode initial.measurements + 3
deliver_all_complete_example =
    deliver_all_complete world options (λ at. at.0) initial hybrid options-IsClient run_id-is_id
      schedule_of-IsSound schedule_of-IsFresh

-- ===== src/Tls/Benchmark/Order.antt =====
-- The order of the measured probes, and what a run sends and returns.
use hybrid_tls_lab.Prelude.{
  ℕ, zero, suc, ◌+◌, ◌-◌, ◌*◌, ◌/◌, ◌%◌, ◌<◌, ◌≤◌, ◌≡◌, ◌↔◌, refl, ap, ◌∙◌, inl, inr, arith, Bool,
  true, false, not, ◌&&◌, none, some, List, [], ◌∷◌, ◌++◌, map, ltb, ◌==◌, if◌then◌else◌, get_elem?,
  count_if, Bool-cases,
}
use mathlib.Core.List.{flat_map}
use hybrid_tls_lab.Prelude.Text.{Text}
use hybrid_tls_lab.Tls.Options.{ClientOptions, parse_client}
use hybrid_tls_lab.Tls.Server.{Report}
use hybrid_tls_lab.Tls.Benchmark.{
  probe, Finished, client_report, probe_to_finished, request_text, sample_id_of, timings_of,
}
use hybrid_tls_lab.Tls.Benchmark.Run.{
  Surroundings, count_of, run_report, complete_report, endpoint_at, rotation, rounds, in_order,
  probe_all, schedule_of, run_probes, benchmark_main,
}

-- The k-th probe of the measured rounds from an index on.
rounds-rotation :
    (n index k : ℕ)
    → get_elem? (rounds rotation (suc index) n) k
      ≡ (if ltb k (n * 3) then some (suc index + k / 3, (index + k / 3 + k % 3) % 3) else none)
unfolding rounds rotation
rounds-rotation zero index k = ground arith
rounds-rotation (suc n) index zero = ground arith
rounds-rotation (suc n) index (suc zero) = ground arith
rounds-rotation (suc n) index (suc (suc zero)) = ground arith
rounds-rotation (suc n) index (suc (suc (suc k))) = rounds-rotation n (suc index) k ∙ ground arith

-- The entry of a slot, in a round in which the slot stands at a position.
abbrev pub stands : (position slot : ℕ) → ℕ × ℕ → Bool
stands position slot at = (at.0 - 1 + position) % 3 == slot && at.1 == slot

abbrev bit : Bool → ℕ
bit b = if b then 1 else 0

one_of_three :
    (start slot : ℕ)
    → slot < 3
    → bit ((start + 0) % 3 == slot)
        + (bit ((start + 1) % 3 == slot) + bit ((start + 2) % 3 == slot))
      ≡ 1
one_of_three start slot s = ground arith

turns_of_round :
    (position slot index : ℕ) (rest : List (ℕ × ℕ))
    → slot < 3
    → count_if
        (stands position slot)
        (map (λ (k : ℕ). (suc index, k)) (rotation (suc index)) ++ rest)
      ≡ bit ((index + position) % 3 == slot) + count_if (stands position slot) rest
unfolding rotation
turns_of_round position slot index rest s =
    let start : suc index - 1 ≡ index = omega arith in
    elim (Bool-cases ((index + position) % 3 == slot)) [
      | inl e ↦ rw (start, e) (omega (arith, one_of_three (index % 3) slot s))
      | inr e ↦ rw (start, e) (omega arith)
    ]

next_third : (n slot : ℕ) → slot < 3 → bit (n % 3 == slot) + (n + 2 - slot) / 3 ≡ (n + 3 - slot) / 3
next_third n slot s = ground arith

turns :
    (position slot n index : ℕ)
    → slot < 3
    → count_if (stands position slot) (rounds rotation (suc index) n)
        + (index + position + 2 - slot) / 3
      ≡ (index + n + position + 2 - slot) / 3
unfolding rounds
turns position slot zero index s = omega arith
turns position slot (suc n) index s = omega (
  arith,
  turns_of_round position slot index (rounds rotation (suc (suc index)) n) s,
  next_third (index + position) slot s,
  turns position slot n (suc index) s,
)

-- The measured probes go round by round: the k-th, from 0 on, has the sequence number k / 3 + 1 and is
-- of the slot (k / 3 + k % 3) % 3, until every round is done. So the modes share the positions in a
-- round fairly: whatever the number of rounds, each slot has each of the three positions in a third
-- of them, rounded down or up.
pub schedule_of_fair :
    (o : ClientOptions) (position slot : ℕ)
    → slot < 3
    → let n = count_of o.iterations in
      let c = count_if (stands position slot) (schedule_of o) in
      ((k : ℕ)
        → get_elem? (schedule_of o) k
          ≡ (if ltb k (n * 3) then some (1 + k / 3, (0 + k / 3 + k % 3) % 3) else none))
      × (n ≤ c * 3 + 2)
      × (c * 3 ≤ n + 2)
schedule_of_fair o position slot s =
    let n = count_of o.iterations in
    let count = turns position slot n 0 s in
    ((λ k. rounds-rotation n 0 k), omega arith, omega arith)

module _ (w : Surroundings) (o : ClientOptions) where
  -- What a measured probe of the schedule finishes with, and its report.
  abbrev pub finished_at : ℕ × ℕ → Finished
  finished_at at =
      let endpoint = endpoint_at o at.1 in
      probe_to_finished endpoint (w.attempt true at.0 at.1)
        (request_text (sample_id_of o.run_id endpoint.mode at.0) o.run_id true endpoint.host)

  abbrev pub report_at : ℕ × ℕ → Report
  report_at at =
      let endpoint = endpoint_at o at.1 in
      client_report o.run_id endpoint (sample_id_of o.run_id endpoint.mode at.0) (finished_at at)
        (timings_of (w.attempt true at.0 at.1) (finished_at at))

  warmups_silent :
      (schedule : List (ℕ × ℕ))
      → flat_map (λ (p : Bool × List Report). p.1) (probe_all w o false schedule) ≡ []
  unfolding probe_all probe flat_map
  warmups_silent [] = refl
  warmups_silent (at ∷ schedule) = warmups_silent schedule

  probes_report :
      (schedule : List (ℕ × ℕ))
      → flat_map (λ (p : Bool × List Report). p.1) (probe_all w o true schedule)
        ≡ map report_at schedule
  unfolding probe_all probe flat_map
  probes_report [] = refl
  probes_report (at ∷ schedule) = ap (◌∷◌ (report_at at)) (probes_report schedule)

  failures_of :
      (schedule : List (ℕ × ℕ))
      → count_if (λ (p : Bool × List Report). not p.0) (probe_all w o true schedule)
        ≡ count_if (λ at. not (finished_at at).success) schedule
  unfolding probe_all probe
  failures_of [] = refl
  failures_of (at ∷ schedule) = omega (arith, failures_of schedule)

  reports_of_run :
      (run_probes w o).reports
      ≡ run_report o w.openssl_version ∷ (map report_at (schedule_of o) ++ complete_report o ∷ [])
  unfolding run_probes
  reports_of_run =
      rw (warmups_silent (rounds in_order 1 (count_of o.warmup)), probes_report (schedule_of o))

  status_of_run :
      ((run_probes w o).status ≡ 0)
      ↔ (count_if (λ at. not (finished_at at).success) (schedule_of o) ≡ 0)
  unfolding run_probes
  status_of_run = rw (failures_of (schedule_of o)) (ground arith)

  -- The three contexts could be made.
  abbrev pub has_contexts : Bool
  has_contexts =
      w.create_context o.classical o.ca_file
      && w.create_context o.hybrid o.ca_file
      && w.create_context o.hybrid_p256 o.ca_file

-- A run with options that are accepted sends nothing and returns 1 if a context is missing; if the
-- dashboard does not take the run, it has sent that alone and returns 1, with no probe lost. Otherwise
-- it sends the run, then one report for each measured probe in the order of the schedule, failed
-- probes included and warmups not, then the completion; and it returns 0 just if no measured probe
-- has failed.
pub benchmark_main_outcome :
    (w : Surroundings) (argv : List Text) (o : ClientOptions)
    → parse_client w.atoi w.generated_run_id argv ≡ some o
    → let posted = w.post o.dashboard_host o.dashboard_port (run_report o w.openssl_version) in
      (has_contexts w o ≡ false → benchmark_main w argv ≡ record { status = 1; reports = [] })
      × (has_contexts w o ≡ true
          → posted ≡ false
          → benchmark_main w argv
            ≡ record { status = 1; reports = run_report o w.openssl_version ∷ [] })
      × (has_contexts w o ≡ true
          → posted ≡ true
          → ((benchmark_main w argv).reports
              ≡ run_report o w.openssl_version
                ∷ (map (report_at w o) (schedule_of o) ++ complete_report o ∷ []))
            × (((benchmark_main w argv).status ≡ 0)
                ↔ (count_if (λ at. not (finished_at w o at).success) (schedule_of o) ≡ 0)))
unfolding benchmark_main
benchmark_main_outcome w argv o parsed =
    rw (parsed, benchmark_main)
      ((λ h. rw h), (λ h k. rw (h, k)), (λ h k. rw (h, k) (reports_of_run w o, status_of_run w o)))

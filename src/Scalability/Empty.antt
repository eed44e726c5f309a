-- ===== src/Scalability/Empty.antt =====
-- A suite of scalability/scalability_runner.py that is asked for a run without devices.
use post_quantum_iot_auth.Prelude.{
  ℕ, ◌+◌, ◌≤◌, ◌≡◌, ◌⊎◌, refl, ap, ◌∙◌, false, Option, some, none, List, [], ◌∷◌, ◌++◌, arith, All,
}
use post_quantum_iot_auth.Python.{value_error, Result, raised, pure, bind-ok, bind-raised, ◌>>=◌}
use post_quantum_iot_auth.Python.Loops.{Returns_value}
use post_quantum_iot_auth.Platform.{Platform, IsDocumented}
use post_quantum_iot_auth.Falcon.{Flags, simulation, get_backend}
use post_quantum_iot_auth.Falcon.Crypto.{Libraries, IsEd25519}
use post_quantum_iot_auth.Hardhat.Client.{Web3}
use post_quantum_iot_auth.Runner.Backend.{create_blockchain}
use post_quantum_iot_auth.Scalability.{suite_threads}
use post_quantum_iot_auth.Scalability.Report.{Statistics, ScalabilityResult}
use post_quantum_iot_auth.Scalability.Run.{run_phases}
use post_quantum_iot_auth.Scalability.Phases.{IsRanking}
use post_quantum_iot_auth.Scalability.Threads.{suite_threads_lem}
use post_quantum_iot_auth.Scalability.Finished.{IsFair}
use post_quantum_iot_auth.Scalability.Suite.{
  Timing, devices_from, run, run_on_simulated, run_counts, run_scalability_suite,
}
use post_quantum_iot_auth.Scalability.Suites.{run-IsSimulatedRun}

module _ (P : Platform) (X : Web3 P) (L : Libraries P) (f : Flags) (T : Statistics P) where
  -- Without devices there is no thread, and the pool of threads cannot be made.
  run-zero :
      (t : Timing P) (size n : ℕ) (w : P.World)
      → (run P L f X T t size n 0 0 false w).0 ≡ raised value_error
  unfolding run run_on_simulated create_blockchain devices_from run_phases
  run-zero t size n w = refl

  suite_threads-zero :
      (asked : Option ℕ) → (asked ≡ none) ⊎ (asked ≡ some 0) → suite_threads asked 0 ≡ 0
  unfolding suite_threads
  suite_threads-zero none h = refl
  suite_threads-zero (some n) h = ground arith

  module _ (ranking : IsRanking P T) (doc : IsDocumented P) (ed : IsEd25519 P L)
      (sim : get_backend f ≡ simulation) (timings : ℕ → ℕ → Timing P) (n : ℕ) (asked : Option ℕ)
      (fair : (i c : ℕ) → IsFair P n c (timings i c)) where
    run_counts-raised :
        (k : ℕ) (before after : List ℕ) (w : P.World)
        → suite_threads asked 0 ≡ 0
        → All (λ c. 1 ≤ c) before
        → (run_counts P L f X T timings n asked false k (before ++ 0 ∷ after) w).0
          ≡ raised value_error
    unfolding run_counts
    run_counts-raised k [] after w none_left a =
        let more = run_counts P L f X T timings n asked false (k + 1) after in
        bind-raised (run P L f X T (timings k 0) 256 n (suite_threads asked 0) 0 false)
          (λ r. more >>= λ rs. pure (r ∷ rs)) w
          (ap (λ threads. (run P L f X T (timings k 0) 256 n threads 0 false w).0) none_left
            ∙ run-zero (timings k 0) 256 n w)
    run_counts-raised k (c ∷ before) after w none_left (one, a) =
        let first = run P L f X T (timings k c) 256 n (suite_threads asked c) c false in
        let more = run_counts P L f X T timings n asked false (k + 1) (before ++ 0 ∷ after) in
        let (r, returned, _) = Returns_value (first w).0 (first w).1 _ (
          run-IsSimulatedRun P X L f T ranking doc ed sim (timings k c) 256 n
            (suite_threads asked c) c (suite_threads_lem asked c one).0 (fair k c) w) in
        ap (λ (o : Result (List (ScalabilityResult P)) × P.World). o.0)
          (bind-ok first (λ r. more >>= λ rs. pure (r ∷ rs)) w returned)
        ∙ bind-raised more (λ rs. pure (r ∷ rs)) (first w).1
            (run_counts-raised (k + 1) before after (first w).1 none_left a)

    -- A suite on the simulated blockchain whose counts of devices include a zero, the first after
    -- positive ones, raises `ValueError` where no number of threads is asked for, or zero are: the
    -- results of the earlier runs are lost. It assumes of the platform, of Ed25519, of sorting and of
    -- the schedules what makes the earlier runs return.
    pub run_scalability_suite_raises :
        (before after : List ℕ) (w : P.World)
        → (asked ≡ none) ⊎ (asked ≡ some 0)
        → All (λ c. 1 ≤ c) before
        → (run_scalability_suite P L f X T timings n asked false (some (before ++ 0 ∷ after)) w).0
          ≡ raised value_error
    unfolding run_scalability_suite
    run_scalability_suite_raises before after w h a =
        run_counts-raised 0 before after w (suite_threads-zero asked h) a

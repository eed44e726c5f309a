-- ===== src/Scalability/Threads.antt =====
-- The number of threads in scalability/scalability_runner.py.
use post_quantum_iot_auth.Prelude.{ℕ, ◌≤◌, ◌≡◌, ◌⊎◌, Option, none, some, arith, min, ◌/◌}
use post_quantum_iot_auth.Scalability.{thread_count, suite_threads}

-- With at least one device the suite gives every runner a thread, also where zero are asked for; it
-- gives what the runner would choose itself, unless zero are asked for; and the number that the
-- runner chooses is at most that of the devices, and at least a fifth of it and the smaller of it and 4.
pub suite_threads_lem :
    (asked : Option ℕ) (count : ℕ)
    → 1 ≤ count
    → (1 ≤ suite_threads asked count)
      × ((asked ≡ some 0) ⊎ (suite_threads asked count ≡ thread_count asked count))
      × (thread_count none count ≤ count)
      × (min count 4 ≤ thread_count none count)
      × (count / 5 ≤ thread_count none count)
unfolding suite_threads thread_count
suite_threads_lem none count h = ground arith
suite_threads_lem (some n) count h = ground arith

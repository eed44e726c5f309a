-- ===== src/Scalability/Fairness.antt =====
-- The first phase of ScalabilityRunner.run in scalability/scalability_runner.py ends: workers that get
-- enough turns run out of readings, whatever their calls return or raise.
use post_quantum_iot_auth.Prelude.{
  ℕ, zero, suc, ◌+◌, ◌-◌, ◌≤◌, ◌<◌, ◌≡◌, refl, ◌⊎◌, inl, inr, List, [], ◌∷◌, arith, length, ◌==◌,
  if◌then◌else◌, All,
}
use post_quantum_iot_auth.Python.{Result, ok, raised}
use post_quantum_iot_auth.Platform.{Platform}
use post_quantum_iot_auth.Falcon.{Flags}
use post_quantum_iot_auth.Falcon.Crypto.{Libraries}
use post_quantum_iot_auth.Scalability.{
  Worker, Shared, settle, rounds_left, turn, turn_of, run_schedule, verify_round,
}

-- The turns of a worker in a schedule.
unfoldable pub count : ℕ → List ℕ → ℕ
count i [] = 0
count i (j ∷ js) = (if j == i then 1 else 0) + count i js

module _ (P : Platform) where
  -- The readings that are left to the worker with a number.
  abbrev remaining_at : ℕ → List (Worker P) → ℕ
  remaining_at i [] = 0
  remaining_at zero (w ∷ ws) = w.remaining
  remaining_at (suc i) (w ∷ ws) = remaining_at i ws

  remaining_at_cases : (i : ℕ) (ws : List (Worker P)) → (i < length ws) ⊎ (remaining_at i ws ≡ 0)
  remaining_at_cases i [] = inr refl
  remaining_at_cases zero (w ∷ ws) = inl (omega arith)
  remaining_at_cases (suc i) (w ∷ ws) = elim (remaining_at_cases i ws) [
    | inl h ↦ inl (omega arith)
    | inr e ↦ inr e
  ]

  remaining_at-le :
      (n i : ℕ) (ws : List (Worker P)) → All (λ w. w.remaining ≤ n) ws → remaining_at i ws ≤ n
  remaining_at-le n i [] a = omega arith
  remaining_at-le n zero (w ∷ ws) (h, a) = h
  remaining_at-le n (suc i) (w ∷ ws) (h, a) = remaining_at-le n i ws a

  All-of_remaining_at :
      (ws : List (Worker P)) → ((i : ℕ) → remaining_at i ws ≡ 0) → All (λ w. w.remaining ≡ 0) ws
  All-of_remaining_at [] h = tt
  All-of_remaining_at (w ∷ ws) h = (h 0, All-of_remaining_at ws (λ i. h (suc i)))

  module _ (L : Libraries P) (f : Flags) where
    settle_remaining :
        (left : ℕ) (w : Worker P) (out : Result (Worker P) × Shared P)
        → (settle P L f left w out).0.remaining ≤ left
    settle_remaining left w (ok w', s) = omega arith
    settle_remaining left w (raised e, s) = omega arith

    rounds_left_remaining :
        (size left : ℕ) (w : Worker P) (s : Shared P)
        → w.remaining ≡ left
        → (rounds_left P L f left size w s).0.remaining ≤ w.remaining - 1
    rounds_left_remaining size zero w s e = omega (arith, e)
    rounds_left_remaining size (suc left) w s e =
        omega (arith, e, settle_remaining left w (verify_round P L f size w s))

    turn_of_remaining :
        (size i j : ℕ) (ws : List (Worker P)) (s : Shared P)
        → remaining_at j (turn_of P L f size i ws s).0
          ≤ remaining_at j ws - (if i == j then 1 else 0)
    unfolding turn_of turn
    turn_of_remaining size i j [] s = omega arith
    turn_of_remaining size zero zero (w ∷ ws) s = rounds_left_remaining size w.remaining w s refl
    turn_of_remaining size zero (suc j) (w ∷ ws) s = ground arith
    turn_of_remaining size (suc i) zero (w ∷ ws) s = ground arith
    turn_of_remaining size (suc i) (suc j) (w ∷ ws) s =
        ground (arith, turn_of_remaining size i j ws s)

    run_schedule_remaining :
        (size j : ℕ) (schedule : List ℕ) (ws : List (Worker P)) (s : Shared P)
        → remaining_at j (run_schedule P L f size schedule ws s).0
          ≤ remaining_at j ws - count j schedule
    unfolding run_schedule count
    run_schedule_remaining size j [] ws s = omega arith
    run_schedule_remaining size j (i ∷ schedule) ws s =
        let (ws', s') = turn_of P L f size i ws s in
        omega
          (arith, turn_of_remaining size i j ws s, run_schedule_remaining size j schedule ws' s')

    -- Workers with at most `n` readings each are all finished after a schedule that gives every one of
    -- them at least `n` turns, whatever the signing and the verification return or raise.
    pub run_schedule_finishes :
        (size n : ℕ) (schedule : List ℕ) (ws : List (Worker P)) (s : Shared P)
        → All (λ w. w.remaining ≤ n) ws
        → ((i : ℕ) → i < length ws → n ≤ count i schedule)
        → All (λ w. w.remaining ≡ 0) (run_schedule P L f size schedule ws s).0
    run_schedule_finishes size n schedule ws s a turns =
        All-of_remaining_at (run_schedule P L f size schedule ws s).0 (λ i.
          elim (remaining_at_cases i ws) [
            | inl h ↦ omega (
              arith,
              turns i h,
              remaining_at-le n i ws a,
              run_schedule_remaining size i schedule ws s,
            )
            | inr e ↦ omega (arith, e, run_schedule_remaining size i schedule ws s)
          ])

-- ===== src/Scalability/Schedules.antt =====
-- The first phase of ScalabilityRunner.run in scalability/scalability_runner.py, under any schedule of
-- its workers: no reading is lost or counted twice.
use post_quantum_iot_auth.Prelude.{
  ℕ, zero, suc, ◌+◌, ◌*◌, ◌≡◌, refl, ◌∙◌, ap, sym, subst, false, none, List, [], ◌∷◌, ◌++◌, arith,
  length, length-append, All, Bool-cases, inl, inr, Bytes,
}
use mathlib.Core.List.{Permᴰ}
use post_quantum_iot_auth.Python.{Result, ok, raised, Exec, pure, call, on_second, ◌>>=◌}
use post_quantum_iot_auth.Python.Loops.{Returns, Returns-ok}
use post_quantum_iot_auth.Platform.{Platform}
use post_quantum_iot_auth.Falcon.{Flags}
use post_quantum_iot_auth.Falcon.Crypto.{Libraries}
use post_quantum_iot_auth.Device.{generate_sensor_data, sign_data}
use post_quantum_iot_auth.Gateway.{GatewayResult, relay_data}
use post_quantum_iot_auth.Runner.Rounds.{Signs, relay_data-ok}
use post_quantum_iot_auth.Scalability.{
  Worker, Shared, note_result, verify_round, settle, rounds_left, turn, turn_of, run_schedule,
  Collected, collect,
}

module _ {ℓ κ} {A : Type ℓ} (Q : A → Type κ) where
  -- A reordering keeps what holds of every element, and the length.
  pub All-Permᴰ : {xs ys : List A} → Permᴰ xs ys → All Q xs → All Q ys
  All-Permᴰ Permᴰ.nil a = a
  All-Permᴰ (Permᴰ.cons e p) (x, a) = (subst Q e x, All-Permᴰ p a)
  All-Permᴰ (Permᴰ.swap e d) (x, (y, a)) = (subst Q d y, (subst Q e x, a))
  All-Permᴰ (Permᴰ.trans p q) a = All-Permᴰ q (All-Permᴰ p a)

pub length-Permᴰ {ℓ} : {A : Type ℓ} {xs ys : List A} → Permᴰ xs ys → length xs ≡ length ys
length-Permᴰ Permᴰ.nil = refl
length-Permᴰ (Permᴰ.cons e p) = ap suc (length-Permᴰ p)
length-Permᴰ (Permᴰ.swap e d) = refl
length-Permᴰ (Permᴰ.trans p q) = length-Permᴰ p ∙ length-Permᴰ q

module _ (P : Platform) where
  -- What a worker has dealt with.
  abbrev pub dealt : Worker P → ℕ
  dealt w = w.local_failed + length w.local_items

  -- A worker that is through with its `n` readings.
  pub record IsDone (n : ℕ) (w : Worker P) : Type 0 where
    pub fine : w.error ≡ none
    pub all : dealt w ≡ n

  -- The readings of workers that are done are collected, each once.
  pub collect_lem :
      (n : ℕ) (ws : List (Worker P)) (c : Collected P)
      → All (IsDone n) ws
      → (d : Collected P) × (collect P ws c ≡ ok d)
        × (d.failed_transactions + length d.verified_items
            ≡ c.failed_transactions + length c.verified_items + length ws * n)
  unfolding collect
  collect_lem n [] c a = (c, refl, omega arith)
  collect_lem n (w ∷ ws) c (h, a) =
      let next : Collected P = record {
        failed_transactions = c.failed_transactions + w.local_failed;
        gateway_latencies = c.gateway_latencies ++ w.local_gw_latencies;
        verified_items = c.verified_items ++ w.local_items;
      } in
      let (d, made, total) = collect_lem n ws next a in
      (d, rw h.fine made, omega (arith, total, h.all, length-append c.verified_items w.local_items))

  module _ (L : Libraries P) (f : Flags) where
    -- A worker that was given `n` readings.
    pub record IsSound (n : ℕ) (w : Worker P) : Type 0 where
      pub fine : w.error ≡ none
      pub balance : w.remaining + dealt w ≡ n
      pub signs : Signs P L f false w.device

    -- A worker after one more reading.
    record IsNext (w w' : Worker P) : Type 0 where
      device : w'.device ≡ w.device
      error : w'.error ≡ w.error
      more : dealt w' ≡ dealt w + 1

    note_result-IsNext :
        (w : Worker P) (payload sig : Bytes) (time : P.Float) (r : GatewayResult P)
        → IsNext w (note_result P w payload sig time r)
    note_result-IsNext w payload sig time r = elim (Bool-cases r.verified) [
      | inl good ↦ rw good (record {
        device = refl;
        error = refl;
        more = omega (arith, length-append w.local_items (_ ∷ []));
      })
      | inr bad ↦ rw bad (record { device = refl; error = refl; more = omega arith })
    ]

    verify_round-IsNext :
        (size : ℕ) (w : Worker P) (s : Shared P)
        → Signs P L f false w.device
        → Returns (verify_round P L f size w s) (λ w' _. IsNext w w')
    unfolding verify_round
    verify_round-IsNext size w (g, world) signs =
        let d = w.device in
        let (payload, w₁) = generate_sensor_data P d size world in
        let (sig, b, signed, judged, _) = signs.at payload w₁ in
        let Q = λ (w' : Worker P) (_ : Shared P). IsNext w w' in
        let judge = relay_data P L f d.did d.keypair.public_key payload in
        let finish : Bytes → P.Float → GatewayResult P → Exec (Shared P) (Worker P) =
          λ sig t0 result. on_second (call P.perf_counter) >>= λ t1.
          pure (note_result P w payload sig (P.mul (P.sub t1 t0) (P.float 1000)) result) in
        let rest : Bytes → Exec (Shared P) (Worker P) =
          λ sig. on_second (call P.perf_counter) >>= λ t0. judge sig >>= finish sig t0 in
        let w₂ = (sign_data P L f d payload w₁).1 in
        let (t0, w₃) = P.perf_counter w₂ in
        let (result, returned, _) =
          relay_data-ok P L f d.did d.keypair.public_key payload sig b g w₃ judged in
        Returns-ok (on_second (sign_data P L f d payload)) rest (g, w₁) Q signed
          (Returns-ok (judge sig) (finish sig t0) (g, w₃) Q returned
            (note_result-IsNext w payload sig _ result))

    settle-IsSound :
        (n left : ℕ) (w : Worker P) (out : Result (Worker P) × Shared P)
        → w.remaining ≡ suc left
        → IsSound n w
        → Returns out (λ w' _. IsNext w w')
        → IsSound n (settle P L f left w out).0
    settle-IsSound n left w (ok w', s) e h next = record {
      fine = next.error ∙ h.fine;
      balance = omega (arith, next.more, h.balance, e);
      signs = subst (λ d. Signs P L f false d) (sym next.device) h.signs;
    }
    settle-IsSound n left w (raised x, s) e h next = absurd next

    rounds_left-IsSound :
        (size n left : ℕ) (w : Worker P) (s : Shared P)
        → w.remaining ≡ left
        → IsSound n w
        → IsSound n (rounds_left P L f left size w s).0
    rounds_left-IsSound size n zero w s e h = h
    rounds_left-IsSound size n (suc left) w s e h =
        settle-IsSound n left w (verify_round P L f size w s) e h
          (verify_round-IsNext size w s h.signs)

    turn_of-IsSound :
        (size n i : ℕ) (ws : List (Worker P)) (s : Shared P)
        → All (IsSound n) ws
        → All (IsSound n) (turn_of P L f size i ws s).0
          × (length (turn_of P L f size i ws s).0 ≡ length ws)
    unfolding turn_of turn
    turn_of-IsSound size n i [] s a = (tt, refl)
    turn_of-IsSound size n zero (w ∷ ws) s (h, a) =
        ((rounds_left-IsSound size n w.remaining w s refl h, a), refl)
    turn_of-IsSound size n (suc i) (w ∷ ws) s (h, a) =
        let (b, e) = turn_of-IsSound size n i ws s a in ((h, b), ap suc e)

    pub run_schedule-IsSound :
        (size n : ℕ) (schedule : List ℕ) (ws : List (Worker P)) (s : Shared P)
        → All (IsSound n) ws
        → All (IsSound n) (run_schedule P L f size schedule ws s).0
          × (length (run_schedule P L f size schedule ws s).0 ≡ length ws)
    unfolding run_schedule
    run_schedule-IsSound size n [] ws s a = (a, refl)
    run_schedule-IsSound size n (i ∷ schedule) ws s a =
        let (b, e) = turn_of-IsSound size n i ws s a in
        let (c, d) = run_schedule-IsSound size n schedule _ _ b in (c, d ∙ e)

-- ===== src/Scalability/Finished.antt =====
-- What a run of scalability/scalability_runner.py starts from: fair schedules, under which the workers
-- finish, and devices of the simulation backend.
use mathlib.Core.List.{Permᴰ}
use post_quantum_iot_auth.Prelude.{
  ℕ, zero, suc, ◌+◌, ◌≤◌, ◌<◌, ◌≡◌, refl, false, List, [], ◌∷◌, ◌++◌, arith, codes, length, map,
  All, All-map,
}
use post_quantum_iot_auth.Python.{pure, ◌>>=◌}
use post_quantum_iot_auth.Python.Loops.{Returns, Returns_then}
use post_quantum_iot_auth.Platform.{Platform, IsDocumented}
use post_quantum_iot_auth.Falcon.{Flags, simulation, get_backend}
use post_quantum_iot_auth.Falcon.Crypto.{Libraries, IsEd25519}
use post_quantum_iot_auth.Device.{IotDevice, new_device}
use post_quantum_iot_auth.Runner.Relayed.{IsSimulated, IsSimulated-Signs}
use post_quantum_iot_auth.Runner.Rounds.{Signs}
use post_quantum_iot_auth.Runner.Repeated.{new_device-IsSimulated}
use post_quantum_iot_auth.Scalability.{Worker, Shared, new_worker, run_schedule}
use post_quantum_iot_auth.Scalability.Fairness.{count as turns, run_schedule_finishes}
use post_quantum_iot_auth.Scalability.Suite.{five_digits, Timing, devices_from}

module _ (P : Platform) where
  -- Each of `k` workers gets at least `n` turns, and the futures are completed once each.
  pub record IsFair (n k : ℕ) (t : Timing P) : Type 0 where
    pub enough : (i : ℕ) → i < k → n ≤ turns i t.schedule
    pub reorders : (ws : List (Worker P)) → Permᴰ ws (t.order ws)

  new_workers :
      (n : ℕ) (devices : List IotDevice)
      → All (λ (v : Worker P). v.remaining ≤ n) (map (new_worker P n) devices)
        × (length (map (new_worker P n) devices) ≡ length devices)
  unfolding new_worker
  new_workers n [] = (tt, refl)
  new_workers n (d ∷ ds) = let (a, e) = new_workers n ds in ((omega arith, a), omega (arith, e))

  module _ (L : Libraries P) (f : Flags) where
    pub run_schedule_finished :
        (size n : ℕ) (t : Timing P) (devices : List IotDevice) (s : Shared P)
        → IsFair n (length devices) t
        → All
            (λ (v : Worker P). v.remaining ≡ 0)
            (run_schedule P L f size t.schedule (map (new_worker P n) devices) s).0
    run_schedule_finished size n t devices s fair =
        let (a, e) = new_workers n devices in
        run_schedule_finishes P L f size n t.schedule (map (new_worker P n) devices) s a
          (λ i h. fair.enough i (omega (arith, h, e)))

    module _ (doc : IsDocumented P) (ed : IsEd25519 P L) (sim : get_backend f ≡ simulation) where
      pub devices_from-IsSimulated :
          (i n : ℕ) (w : P.World)
          → Returns
              (devices_from P L f i n w)
              (λ ds _. (length ds ≡ n) × All (IsSimulated P L f) ds)
      unfolding devices_from
      devices_from-IsSimulated i zero w = (refl, tt)
      devices_from-IsSimulated i (suc n) w =
          let G = IsSimulated P L f in
          let Q = λ (ds : List IotDevice) (_ : P.World). (length ds ≡ suc n) × All G ds in
          let more = devices_from P L f (i + 1) n in
          Returns_then (new_device P L f (codes "scale-device-" ++ five_digits i))
            (λ d. more >>= λ ds. pure (d ∷ ds)) w (λ d _. G d) Q
            (new_device-IsSimulated P L f doc ed sim _ w)
            (λ d v g.
              Returns_then more (λ ds. pure (d ∷ ds)) v (λ ds _. (length ds ≡ n) × All G ds) Q
                (devices_from-IsSimulated (i + 1) n v) (λ ds _ h. (omega (arith, h.0), (g, h.1))))

      pub devices_signing :
          (devices : List IotDevice)
          → All (IsSimulated P L f) devices
          → All (Signs P L f false) devices
      devices_signing devices a =
          All-map (IsSimulated P L f) (Signs P L f false) devices
            (λ d s. IsSimulated-Signs P L f doc ed false d sim s) a

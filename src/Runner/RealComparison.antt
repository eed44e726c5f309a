-- ===== src/Runner/RealComparison.antt =====
-- A comparison of relay_system/runner.py on a node that works: both paths record every reading.
use post_quantum_iot_auth.Prelude.{
  refl, subst, ℕ, ◌*◌, ◌≡◌, true, List, Bytes, All, All-map, arith, length,
}
use post_quantum_iot_auth.Python.{pure, ◌>>=◌}
use post_quantum_iot_auth.Python.Text.{IsByte}
use post_quantum_iot_auth.Python.Loops.{Returns, Returns_then}
use post_quantum_iot_auth.Platform.{Platform, IsDocumented}
use post_quantum_iot_auth.Falcon.{Flags, simulation, get_backend}
use post_quantum_iot_auth.Falcon.Crypto.{Libraries, IsEd25519}
use post_quantum_iot_auth.Device.{IotDevice}
use post_quantum_iot_auth.Hardhat.Client.{Web3}
use post_quantum_iot_auth.Hardhat.Mining.{IsMining}
use post_quantum_iot_auth.Runner.Setup.{IsDeploying}
use post_quantum_iot_auth.Runner.Relayed.{IsSimulated, IsSimulated-Signs}
use post_quantum_iot_auth.Runner.Rounds.{Signs}
use post_quantum_iot_auth.Runner.Direct.{direct_path}
use post_quantum_iot_auth.Runner.Backend.{real_chains}
use post_quantum_iot_auth.Runner.Paths.{run_direct_path, run_relay_path}
use post_quantum_iot_auth.Runner.OnHardhat.{
  IsReal, relay_loops_on, run_direct_path-IsReal, run_relay_path-IsReal,
}
use post_quantum_iot_auth.Runner.Comparison.{Round, run_round, create_and_compare}
use post_quantum_iot_auth.Runner.Repeated.{create_and_compare-All}

module _ (P : Platform) (X : Web3 P) (L : Libraries P) (f : Flags) where
  -- `n` readings of each of `k` devices were submitted on both paths, and are transactions that the
  -- backends of the two runs have recorded, with the gas that the paths report; no verification failed.
  abbrev pub IsRealRound : ℕ → ℕ → ℕ → ℕ → Round P X L f → Type 0
  IsRealRound size batch_size n k (direct, relay) =
      (devices : List IotDevice) × (length devices ≡ k)
      × (direct.report.total_transactions ≡ k * n)
      × IsReal P X (direct_path P (real_chains P X) size n devices) direct.report.total_gas (k * n)
          direct
      × (relay.report.total_transactions ≡ k * n)
      × (relay.report.failed_verifications ≡ 0)
      × IsReal P X (relay_loops_on P X L f size batch_size n devices) relay.report.total_gas (k * n)
          relay

  module _ (mining : IsMining P X) (deploying : IsDeploying P X) (doc : IsDocumented P)
      (bytes : (b : Bytes) → All IsByte (P.sha256 b)) (ed : IsEd25519 P L)
      (sim : get_backend f ≡ simulation) where
    run_round-IsRealRound :
        (size batch_size n : ℕ) (devices : List IotDevice) (w : P.World)
        → All (IsSimulated P L f) devices
        → Returns
            (run_round P X L f true size batch_size n devices w)
            (λ p _. IsRealRound size batch_size n (length devices) p)
    unfolding run_round
    run_round-IsRealRound size batch_size n devices w a =
        let k = length devices * n in
        let Q =
          λ (p : Round P X L f) (_ : P.World). IsRealRound size batch_size n (length devices) p in
        let relay = run_relay_path P X L f true size batch_size n devices in
        let loops = direct_path P (real_chains P X) size n devices in
        let relay_loops = relay_loops_on P X L f size batch_size n devices in
        let signs =
          All-map (IsSimulated P L f) (Signs P L f true) devices
            (λ d s. IsSimulated-Signs P L f doc ed true d sim s) a in
        Returns_then (run_direct_path P X true size n devices) (λ d. relay >>= λ r. pure (d, r)) w _
          Q (run_direct_path-IsReal P X mining deploying doc bytes size n devices w)
          (λ d v (sent, real).
            Returns_then relay (λ r. pure (d, r)) v _ Q
              (run_relay_path-IsReal P X mining deploying L f true size batch_size n devices v
                signs)
              (λ r u ((balance, clean), recorded).
                let none_failed : r.report.failed_verifications ≡ 0 = ground (arith, clean) in
                let all : r.report.total_transactions ≡ k = omega (arith, balance, none_failed) in
                (
                  devices,
                  refl,
                  sent,
                  subst (λ c. IsReal P X loops d.report.total_gas c d) sent real,
                  all,
                  none_failed,
                  subst (λ c. IsReal P X relay_loops r.report.total_gas c r) all recorded,
                )))

    -- With hashes of 32 bytes, `urandom` and Ed25519 as documented, in the simulation backend, on a
    -- node that deploys what it is given and mines every call, with keys that sign, a comparison with
    -- any number of rounds creates its devices and returns. On both paths every reading of every
    -- device is then a transaction that the backend of the path's run has recorded, the total is the
    -- gas of the receipts of these, unless the node gave two of them the same hash, the decomposition
    -- counts each of them, and no verification fails.
    pub create_and_compare_real :
        (stdev : List P.Float → P.Float) (size batch_size n rounds device_count : ℕ) (w : P.World)
        → Returns
            (create_and_compare P X L f stdev true size batch_size n rounds device_count w)
            (λ c _. IsRealRound size batch_size n device_count (c.direct_ecdsa, c.relay_falcon))
    create_and_compare_real stdev size batch_size n rounds count w =
        create_and_compare-All P X L f doc ed sim stdev (IsRealRound size batch_size n) true size
          batch_size n rounds count w
          (λ devices v a. run_round-IsRealRound size batch_size n devices v a)

-- ===== src/Runner/Repeated.antt =====
-- The devices and the rounds of a comparison of relay_system/runner.py, on either blockchain: what holds
-- of a round holds of the comparison.
use post_quantum_iot_auth.Prelude.{
  Bool, ℕ, zero, suc, ◌+◌, ◌≤◌, ◌≡◌, refl, none, some, List, [], ◌∷◌, ◌++◌, codes, arith, Text,
  length, leb, All, Bool-cases, inl, inr, subst,
}
use post_quantum_iot_auth.Python.{ok, Exec, pure, lift, call, ◌>>=◌}
use post_quantum_iot_auth.Python.Loops.{
  Returns_then, Returns, Returns-bind, Returns-ok, Returns-weaken,
}
use post_quantum_iot_auth.Platform.{Platform, IsDocumented}
use post_quantum_iot_auth.Falcon.{Flags, simulation, get_backend, falcon_keygen}
use post_quantum_iot_auth.Falcon.Crypto.{Libraries, KeyPair, IsEd25519}
use post_quantum_iot_auth.Falcon.RoundTrip.{simulation_keygen-Carries}
use post_quantum_iot_auth.Did.{generate_did}
use post_quantum_iot_auth.Device.{IotDevice, new_device}
use post_quantum_iot_auth.Hardhat.Client.{Web3}
use post_quantum_iot_auth.Runner.Relayed.{IsSimulated}
use post_quantum_iot_auth.Runner.Comparison.{
  last_of, four_digits, devices_from, create_devices, Round, run_round, run_rounds, Comparison,
  compare, deviations_of, run_comparison, create_and_compare,
}

module _ {ℓ} {A : Type ℓ} (G : A → Type 0) where
  last_of_lem : (xs : List A) → All G xs → 1 ≤ length xs → (x : A) × (last_of xs ≡ ok x) × G x
  last_of_lem [] a h = absurd (omega arith)
  last_of_lem (x ∷ []) a h = (x, refl, a.0)
  last_of_lem (x ∷ y ∷ xs) a h = last_of_lem (y ∷ xs) a.1 (omega arith)

module _ (P : Platform) (L : Libraries P) (f : Flags) where
  module _ (doc : IsDocumented P) (ed : IsEd25519 P L) (sim : get_backend f ≡ simulation) where
    pub new_device-IsSimulated :
        (id : Text) (w : P.World) → Returns (new_device P L f id w) (λ d _. IsSimulated P L f d)
    unfolding new_device falcon_keygen get_backend
    new_device-IsSimulated id w =
        let (k, keys, made, c) = simulation_keygen-Carries P L doc ed none w in
        let rest : KeyPair → Exec P.World IotDevice = λ keypair.
          call (generate_did P none none) >>= λ did.
          pure (record { device_id = id; keypair = keypair; did = did }) in
        Returns-ok (falcon_keygen P L f none) rest w (λ d _. IsSimulated P L f d)
          (ground (arith, made, sim)) (k, c)

module _ (P : Platform) (X : Web3 P) (L : Libraries P) (f : Flags) where
  run_rounds-All :
      (G : Round P X L f → Type 0) (k : ℕ) (m : Exec P.World (Round P X L f)) (w : P.World)
      → ((v : P.World) → Returns (m v) (λ p _. G p))
      → Returns (run_rounds P X L f k m w) (λ ps _. (length ps ≡ k) × All G ps)
  unfolding run_rounds
  run_rounds-All G zero m w good = (refl, tt)
  run_rounds-All G (suc k) m w good =
      let Q = λ (ps : List (Round P X L f)) (_ : P.World). (length ps ≡ suc k) × All G ps in
      let more = run_rounds P X L f k m in
      Returns-bind m (λ first. more >>= λ rest. pure (first ∷ rest)) w Q
        (Returns-weaken (m w).0 (m w).1 (λ p _. G p) _
          (λ p v g.
            Returns-bind more (λ rest. pure (p ∷ rest)) v Q
              (Returns-weaken (more v).0 (more v).1 (λ ps _. (length ps ≡ k) × All G ps) _
                (λ ps _ h. (omega (arith, h.0), (g, h.1))) (run_rounds-All G k m v good)))
          (good w))

  -- What holds of each round holds of the comparison.
  pub run_comparison-All :
      (stdev : List P.Float → P.Float) (G : Round P X L f → Type 0) (use_real : Bool)
      (size batch_size n rounds : ℕ) (devices : List IotDevice) (w : P.World)
      → ((v : P.World)
          → Returns (run_round P X L f use_real size batch_size n devices v) (λ p _. G p))
      → Returns
          (run_comparison P X L f stdev use_real size batch_size n rounds devices w)
          (λ c _. G (c.direct_ecdsa, c.relay_falcon))
  unfolding run_comparison compare
  run_comparison-All stdev G use_real size batch_size n rounds devices w good =
      let Q = λ (c : Comparison P X L f) (_ : P.World). G (c.direct_ecdsa, c.relay_falcon) in
      let m = run_round P X L f use_real size batch_size n devices in
      let many = run_rounds P X L f rounds m in
      let summary = λ (rs : List (Round P X L f)) (last : Round P X L f).
        pure {S = P.World} (compare P X L f (some (deviations_of P X L f stdev rounds rs)) last) in
      let finish = λ (rs : List (Round P X L f)). lift (last_of rs) >>= summary rs in
      elim (Bool-cases (leb rounds 1)) [
        | inl one ↦ rw one (Returns-bind m (λ last. pure (compare P X L f none last)) w Q (good w))
        | inr more ↦ rw more (
            Returns_then many finish w (λ rs _. (length rs ≡ rounds) × All G rs) Q
              (run_rounds-All G rounds m w good)
              (λ rs v h.
                let (last, is, g) = last_of_lem G rs h.1 (ground (arith, h.0)) in
                Returns-ok (lift (last_of rs)) (summary rs) v Q is g))
      ]

  module _ (doc : IsDocumented P) (ed : IsEd25519 P L) (sim : get_backend f ≡ simulation) where
    devices_from-IsSimulated :
        (i n : ℕ) (w : P.World)
        → Returns
            (devices_from P X L f i n w)
            (λ ds _. (length ds ≡ n) × All (IsSimulated P L f) ds)
    unfolding devices_from
    devices_from-IsSimulated i zero w = (refl, tt)
    devices_from-IsSimulated i (suc n) w =
        let G = IsSimulated P L f in
        let Q = λ (ds : List IotDevice) (_ : P.World). (length ds ≡ suc n) × All G ds in
        let m = new_device P L f (codes "device-" ++ four_digits i) in
        let more = devices_from P X L f (i + 1) n in
        Returns-bind m (λ d. more >>= λ ds. pure (d ∷ ds)) w Q
          (Returns-weaken (m w).0 (m w).1 (λ d _. G d) _
            (λ d v g.
              Returns-bind more (λ ds. pure (d ∷ ds)) v Q
                (Returns-weaken (more v).0 (more v).1 (λ ds _. (length ds ≡ n) × All G ds) _
                  (λ ds _ h. (omega (arith, h.0), (g, h.1)))
                  (devices_from-IsSimulated (i + 1) n v)))
            (new_device-IsSimulated P L f doc ed sim _ w))

    -- What holds of every comparison of `count` devices holds of one that creates them.
    pub create_and_compare-All :
        (stdev : List P.Float → P.Float) (G : ℕ → Round P X L f → Type 0) (use_real : Bool)
        (size batch_size n rounds count : ℕ) (w : P.World)
        → ((devices : List IotDevice) (v : P.World)
            → All (IsSimulated P L f) devices
            → Returns
                (run_round P X L f use_real size batch_size n devices v)
                (λ p _. G (length devices) p))
        → Returns
            (create_and_compare P X L f stdev use_real size batch_size n rounds count w)
            (λ c _. G count (c.direct_ecdsa, c.relay_falcon))
    unfolding create_and_compare create_devices
    create_and_compare-All stdev G use_real size batch_size n rounds count w good =
        let compared = run_comparison P X L f stdev use_real size batch_size n rounds in
        let Q =
          λ (k : ℕ) (c : Comparison P X L f) (_ : P.World). G k (c.direct_ecdsa, c.relay_falcon) in
        Returns_then (devices_from P X L f 0 count) compared w
          (λ ds _. (length ds ≡ count) × All (IsSimulated P L f) ds) (Q count)
          (devices_from-IsSimulated 0 count w)
          (λ ds v h.
            subst (λ k. Returns (compared ds v) (Q k)) h.0
              (run_comparison-All stdev (G (length ds)) use_real size batch_size n rounds ds v
                (λ u. good ds u h.1)))

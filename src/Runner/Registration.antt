-- ===== src/Runner/Registration.antt =====
-- `_register_device_dids` of relay_system/runner.py on a node that mines.
use post_quantum_iot_auth.Prelude.{
  ◌≡◌, refl, sym, ap, ◌∙◌, subst, true, List, [], ◌∷◌, Bytes, All, contains, beq_iff, arith,
  Bool-cases, inl, inr,
}
use post_quantum_iot_auth.Python.{attribute_error, ok, Exec, or_raise, on_second, ◌>>=◌}
use post_quantum_iot_auth.Python.Loops.{
  Returns, Returns-ok, Returns-run, Returns-weaken, Returns_then, for_each,
}
use post_quantum_iot_auth.Python.Text.{encode}
use post_quantum_iot_auth.Platform.{Platform}
use post_quantum_iot_auth.Device.{IotDevice}
use post_quantum_iot_auth.Hardhat.Client.{Web3, ContractCall}
use post_quantum_iot_auth.Hardhat.{
  Contracts, State, get_w3, deployed, add_did, register_new, ensure_did_registered,
}
use post_quantum_iot_auth.Hardhat.Recording.{
  Frames, Frames-pure, Frames-bind, ensure_did_registered-Frames,
}
use post_quantum_iot_auth.Hardhat.Mining.{IsMining, IsReady}
use post_quantum_iot_auth.Runner.Backend.{register_device_dids}

contains_first : (h : Bytes) (hs : List Bytes) → contains h (h ∷ hs) ≡ true
unfolding contains
contains_first h hs = ground (arith, beq_iff h h)

contains_later : (x h : Bytes) (hs : List Bytes) → contains x hs ≡ true → contains x (h ∷ hs) ≡ true
unfolding contains
contains_later x h hs e = ground arith

module _ (P : Platform) (X : Web3 P) where
  -- whether a DID with this hash is registered
  abbrev pub IsRegistered : State P X → Bytes → Type 0
  IsRegistered s h = contains h s.0.registered_dids ≡ true

  -- From `s` to `t` the contracts stay deployed and every registered DID stays registered.
  pub record Extends (s t : State P X) : Type 0 where
    pub ready : IsReady P X t
    pub keeps : (h : Bytes) → IsRegistered s h → IsRegistered t h

  module _ (mining : IsMining P X) where
    pub get_w3_run :
        (s : State P X)
        → (u : State P X) × (get_w3 P X s ≡ (ok tt, u))
          × (u.0.contracts ≡ s.0.contracts)
          × (u.0.registered_dids ≡ s.0.registered_dids)
    unfolding get_w3
    get_w3_run (b, w) = elim (Bool-cases b.has_w3) [
      | inl open_ ↦ ((b, w), rw open_ refl, refl, refl)
      | inr closed ↦ (
        (record b { has_w3 = true }, (X.is_connected w).1),
        rw (closed, mining.connected w) refl,
        refl,
        refl,
      )
    ]

    register_new_lem :
        (h k : Bytes) (s : State P X)
        → IsReady P X s
        → Returns
            (register_new P X h k s)
            (λ _ t. IsReady P X t × (t.0.registered_dids ≡ h ∷ s.0.registered_dids))
    unfolding register_new
    register_new_lem h k s (c, e) =
        let (u, opened, same, kept) = get_w3_run s in
        let Q = λ (_ : Unit {0}) (t : State P X).
          IsReady P X t × (t.0.registered_dids ≡ h ∷ s.0.registered_dids) in
        let call = on_second (X.transact c.did_registry (ContractCall.register_did h k) c.owner) in
        let send : Contracts P X → Exec (State P X) (Unit {0}) = λ c.
          on_second (X.transact c.did_registry (ContractCall.register_did h k) c.owner) >>= λ _.
          add_did P X h in
        let found : deployed P X u ≡ (ok c, u) =
          ap (λ o. or_raise {S = State P X} o attribute_error u) (same ∙ e) in
        Returns-run (get_w3 P X) (λ _. deployed P X >>= send) s Q opened
          (Returns-run (deployed P X) send u Q found (
            Returns-ok call (λ _. add_did P X h) u Q (mining.mines _ _ _ u.1).1
              ((c, same ∙ e), ap (λ ds. h ∷ ds) kept)))

    ensure_did_registered_lem :
        (h k : Bytes) (s : State P X)
        → IsReady P X s
        → Returns (ensure_did_registered P X h k s) (λ _ t. Extends s t × IsRegistered t h)
    unfolding ensure_did_registered
    ensure_did_registered_lem h k s ready = elim (Bool-cases (contains h s.0.registered_dids)) [
      | inl old ↦ rw old (record { ready = ready; keeps = λ x r. r }, old)
      | inr unknown ↦ rw unknown (
          Returns-weaken (register_new P X h k s).0 (register_new P X h k s).1
            (λ _ t. IsReady P X t × (t.0.registered_dids ≡ h ∷ s.0.registered_dids))
            (λ _ t. Extends s t × IsRegistered t h)
            (λ _ t (r, e). (
              record {
                ready = r;
                keeps = λ x g.
                    subst (λ ds. contains x ds ≡ true) (sym e)
                      (contains_later x h s.0.registered_dids g);
              },
              subst (λ ds. contains h ds ≡ true) (sym e) (contains_first h s.0.registered_dids),
            ))
            (register_new_lem h k s ready))
    ]

    pub register_device_dids_lem :
        (devices : List IotDevice) (s : State P X)
        → IsReady P X s
        → Returns
            (register_device_dids P X devices s)
            (λ _ t. Extends s t × All (λ d. IsRegistered t (P.sha256 (encode d.did))) devices)
    unfolding register_device_dids for_each
    register_device_dids_lem [] s ready = (record { ready = ready; keeps = λ x r. r }, tt)
    register_device_dids_lem (d ∷ ds) s ready =
        let h = P.sha256 (encode d.did) in
        Returns_then (ensure_did_registered P X h d.keypair.public_key)
          (λ _. register_device_dids P X ds) s (λ _ t. Extends s t × IsRegistered t h)
          (λ _ t. Extends s t × All (λ d. IsRegistered t (P.sha256 (encode d.did))) (d ∷ ds))
          (ensure_did_registered_lem h d.keypair.public_key s ready)
          (λ _ u (first, known).
            let out = register_device_dids P X ds u in
            Returns-weaken out.0 out.1
              (λ _ t. Extends u t × All (λ d. IsRegistered t (P.sha256 (encode d.did))) ds)
              (λ _ t. Extends s t × All (λ d. IsRegistered t (P.sha256 (encode d.did))) (d ∷ ds))
              (λ _ t (later, rest). (
                record { ready = later.ready; keeps = λ x r. later.keeps x (first.keeps x r) },
                (later.keeps h known, rest),
              ))
              (register_device_dids_lem ds u first.ready))

  pub register_device_dids-Frames :
      (devices : List IotDevice) → Frames P X (register_device_dids P X devices)
  unfolding register_device_dids for_each
  register_device_dids-Frames [] = Frames-pure P X tt
  register_device_dids-Frames (d ∷ ds) =
      Frames-bind P X _ _
        (ensure_did_registered-Frames P X (P.sha256 (encode d.did)) d.keypair.public_key)
        (λ _. register_device_dids-Frames ds)

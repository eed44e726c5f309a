-- ===== src/Falcon/RoundTrip.antt =====
-- The simulation backend of shared/falcon_utils.py signs what it verifies, at the sizes of
-- Falcon-512, and looks at no padding.
use post_quantum_iot_auth.Prelude.{
  ℕ, ◌≤◌, ◌≡◌, refl, ◌∙◌, true, Option, none, some, ◌++◌, arith, Bytes, codes, take, length,
  take-all, take-take,
}
use post_quantum_iot_auth.Python.{Result, ok}
use post_quantum_iot_auth.Platform.{Platform, IsDocumented}
use post_quantum_iot_auth.Falcon.Crypto.{Libraries, KeyPair, IsEd25519}
use post_quantum_iot_auth.Falcon.Simulation.{
  deterministic_pad, simulation_keygen, simulation_sign, simulation_verify,
}
use post_quantum_iot_auth.Falcon.Padding.{IsPadded, deterministic_pad-IsPadded}

module _ (P : Platform) (L : Libraries P) where
  -- A key pair of Falcon-512's sizes that carries the Ed25519 key `k`.
  pub record Carries (k : L.PrivateKey) (keys : KeyPair) : Type 0 where
    pub public_size : length keys.public_key ≡ 897
    pub private_size : length keys.private_key ≡ 1281
    pub private_start : take 32 keys.private_key ≡ L.private_bytes_raw k
    pub public_start : take 32 keys.public_key ≡ L.public_bytes_raw (L.public_key k)

  -- A signature beyond its first 64 bytes, and a public key beyond its first 32, are not looked at:
  -- a signature that is cut anywhere after 64 bytes verifies as the whole one does.
  pub simulation_verify-take :
      (m s key : Bytes) (n j : ℕ)
      → 64 ≤ n
      → 32 ≤ j
      → simulation_verify P L m (take n s) (take j key) ≡ simulation_verify P L m s key
  unfolding simulation_verify
  simulation_verify-take m s key n j h i = rw (take-take 64 n s h, take-take 32 j key i) refl

  module _ (doc : IsDocumented P) (ed : IsEd25519 P L) where
    pad_start :
        {raw : Bytes} {size n : ℕ} {r : Result Bytes} (p : IsPadded raw n r)
        → length raw ≡ size
        → size ≤ n
        → take size p.value ≡ raw
    pad_start {raw} {size} p h le = p.keeps size (omega arith) le ∙ take-all size raw h

    -- The padded keys of `k`.
    keys_of :
        (k : L.PrivateKey)
        → let raw = L.private_bytes_raw k in
          let raw_pub = L.public_bytes_raw (L.public_key k) in
          (keys : KeyPair) × (deterministic_pad P raw_pub (codes "pub_pad:" ++ raw_pub) 897
            ≡ ok keys.public_key)
          × (deterministic_pad P raw (codes "priv_pad:" ++ raw) 1281 ≡ ok keys.private_key)
          × Carries k keys
    keys_of k =
        let raw = L.private_bytes_raw k in
        let raw_pub = L.public_bytes_raw (L.public_key k) in
        let p =
          deterministic_pad-IsPadded P doc raw_pub (codes "pub_pad:" ++ raw_pub) 897
            (omega arith) in
        let q =
          deterministic_pad-IsPadded P doc raw (codes "priv_pad:" ++ raw) 1281 (omega arith) in
        (
          record { public_key = p.value; private_key = q.value },
          p.returned,
          q.returned,
          record {
            public_size = p.size;
            private_size = q.size;
            private_start = pad_start q (ed.private_size k) (omega arith);
            public_start = pad_start p (ed.public_size (L.public_key k)) (omega arith);
          },
        )

    -- Key generation returns, with or without a seed, and gives a key pair of the sizes 897 and 1281
    -- that carries an Ed25519 key.
    pub simulation_keygen-Carries :
        (seed : Option Bytes) (w : P.World)
        → (k : L.PrivateKey) × (keys : KeyPair) × ((simulation_keygen P L seed w).0 ≡ ok keys)
          × Carries k keys
    unfolding simulation_keygen
    simulation_keygen-Carries none w =
        let k = (L.generate w).0 in
        let (keys, public_ok, private_ok, c) = keys_of k in
        (k, keys, rw (public_ok, private_ok) refl, c)
    simulation_keygen-Carries (some seed) w =
        let (k, made) = ed.any_private _ (doc.sha256_size (codes "falcon-sim-seed" ++ seed)) in
        let (keys, public_ok, private_ok, c) = keys_of k in
        (k, keys, rw (made, public_ok, private_ok) refl, c)

    -- What the holder of a key pair signs is a signature of 752 bytes that verifies under it.
    pub simulation_verify-sign :
        (k : L.PrivateKey) (keys : KeyPair) (m : Bytes)
        → Carries k keys
        → (s : Bytes) × (simulation_sign P L m keys.private_key ≡ ok s)
          × (length s ≡ 752)
          × (simulation_verify P L m s keys.public_key ≡ true)
    unfolding simulation_sign simulation_verify
    simulation_verify-sign k keys m c =
        let raw = L.sign k m in
        let p = deterministic_pad-IsPadded P doc raw (codes "sig_pad:" ++ raw) 752 (omega arith) in
        let start = pad_start p (ed.signature_size k m) (omega arith) in
        (
          p.value,
          rw (c.private_start, ed.read_private k) p.returned,
          p.size,
          rw (c.public_start, ed.read_public (L.public_key k), start, ed.accepts k m) refl,
        )

-- ===== src/Security/ThreatModel/Table.antt =====
-- `THREAT_MODEL` of security/threat_model.py.
use post_quantum_iot_auth.Prelude.{true, false, none, some, [], ◌∷◌, ◌++◌, codes}
use post_quantum_iot_auth.Security.ThreatModel.{
  Actor, Guarantee, Limitation, ThisWork, Baseline, ThreatModel,
}

abbrev classical_adversary : Actor
classical_adversary = record {
  name = codes "Classical Adversary";
  capabilities =
      (codes "Classical computer, can intercept network traffic, observe public keys and "
        ++ (codes "blockchain data"));
  mitigated_by =
      (codes "Falcon-512 EU-CMA security (2^-128 forgery probability). Off-chain "
        ++ (codes "verification at gateway prevents invalid data from reaching blockchain."));
  limitations = none;
}

abbrev quantum_adversary : Actor
quantum_adversary = record {
  name = codes "Quantum Adversary";
  capabilities = codes "Quantum computer with Shor's algorithm and Grover's algorithm";
  mitigated_by =
      (codes "Falcon-512 is based on NTRU lattice problems (quantum-resistant). Shor's "
        ++ (codes "algorithm breaks ECDSA in polynomial time O(n^3) but does NOT break Falcon's "
            ++ (codes "lattice-based security. Grover's algorithm only provides quadratic speedup "
                ++ (codes
                    "against Falcon (reduces security from 2^128 to 2^64, still infeasible)."))));
  limitations = none;
}

abbrev malicious_relay : Actor
malicious_relay = record {
  name = codes "Malicious Relay";
  capabilities =
      (codes "Controls relay node, can read/modify relay traffic, refuse to forward "
        ++ (codes "transactions"));
  mitigated_by =
      (codes "Relay is trusted for AVAILABILITY only, not for INTEGRITY. Gateway performs "
        ++ (codes "Falcon verification BEFORE relay receives data. Relay cannot forge signatures "
            ++ (codes
                  "(no private key). Relay cannot modify payloads (signature bound to payload). "
                ++ (codes "Relay can censor/reorder/refuse (availability attack only)."))));
  limitations = some (
      (codes "A compromised relay can mount a denial-of-service by refusing to forward "
        ++ (codes "transactions. Multi-relay consensus (future work) would mitigate this.")));
}

abbrev compromised_iot_device : Actor
compromised_iot_device = record {
  name = codes "Compromised IoT Device";
  capabilities = codes "Attacker gains control of IoT device, extracts private key";
  mitigated_by =
      (codes "DID deactivation mechanism removes compromised identity. Key rotation "
        ++ (codes "generates new independent key pair. Old signatures are invalidated after "
            ++ (codes "deactivation.")));
  limitations = some (
      (codes "Detection of compromise depends on out-of-band monitoring. There is a window "
        ++ (codes "between compromise and deactivation.")));
}

abbrev replay_attacker : Actor
replay_attacker = record {
  name = codes "Replay Attacker";
  capabilities = codes "Captures valid transactions and resubmits them";
  mitigated_by =
      (codes "On-chain commitment tracking in MetaTxRelay.sol: keccak256(dataHash || didHash"
        ++ (codes " || signature) is stored and checked for each submission. Duplicate "
            ++ (codes "commitments are rejected.")));
  limitations = none;
}

abbrev unforgeability : Guarantee
unforgeability = record {
  property = codes "Existential Unforgeability under Chosen Message Attack (EU-CMA)";
  basis =
      (codes "Falcon-512 is provably EU-CMA secure under the NTRU assumption (NIST FIPS 205,"
        ++ (codes " IR 8413). Security level: 128 bits (AES-128 equivalent)."));
  scope =
      (codes "No adversary (classical or quantum) can forge a valid signature without the "
        ++ (codes "private key, except with negligible probability 2^(-128)."));
}

abbrev data_integrity : Guarantee
data_integrity = record {
  property = codes "Data Integrity";
  basis =
      (codes "Falcon signature binds the payload hash to the device's public key. Gateway "
        ++ (codes "verification ensures only signed data reaches the blockchain."));
  scope = codes "Data cannot be modified in transit without invalidating the signature.";
}

abbrev replay_resistance : Guarantee
replay_resistance = record {
  property = codes "Replay Resistance";
  basis =
      (codes "On-chain commitment tracking (MetaTxRelay.sol, line 77-79). Each (dataHash, "
        ++ (codes "didHash, signature) tuple can only be submitted once."));
  scope = codes "Exact replay of any previously submitted transaction is rejected.";
}

abbrev identity_revocation : Guarantee
identity_revocation = record {
  property = codes "Identity Revocation";
  basis =
      (codes "DIDRegistry.sol deactivateDID() function marks identity as inactive. "
        ++ (codes "MetaTxRelay.sol checks isActive() before accepting transactions."));
  scope = codes "Compromised identities can be disabled, preventing future transactions.";
}

abbrev key_independence : Guarantee
key_independence = record {
  property = codes "Key Independence";
  basis =
      (codes "Each Falcon key generation produces statistically independent keys. Compromise"
        ++ (codes " of one key does not affect others."));
  scope = codes "Key rotation produces a fully independent key pair.";
}

abbrev relay_availability_trust : Limitation
relay_availability_trust = record {
  limitation = codes "Relay Availability Trust";
  description =
      (codes "The relay node is trusted for availability. A compromised relay can censor "
        ++ (codes "transactions but cannot forge or modify them."));
  mitigation = codes "Future work: multi-relay consensus or BFT relay pool.";
}

abbrev no_confidentiality : Limitation
no_confidentiality = record {
  limitation = codes "No Confidentiality";
  description =
      (codes "The architecture does not provide data confidentiality. IoT sensor data is "
        ++ (codes "stored on-chain in plaintext via data hashes. Full payloads are stored off-"
            ++ (codes "chain at the gateway.")));
  mitigation = codes "Add encryption layer (e.g., ECIES-KEM) before gateway submission.";
}

abbrev no_forward_secrecy : Limitation
no_forward_secrecy = record {
  limitation = codes "No Forward Secrecy for Signatures";
  description =
      (codes "If a device's private key is compromised, all previously signed messages "
        ++ (codes "remain valid (Falcon signatures do not degrade)."));
  mitigation =
      (codes "This is inherent to all signature schemes. Mitigated by prompt key rotation "
        ++ (codes "upon compromise detection."));
}

abbrev gas_cost : Limitation
gas_cost = record {
  limitation = codes "Gas Cost of Relay Meta-Transactions";
  description =
      (codes "Meta-transactions cost ~820K gas per transaction (storing 752-byte Falcon "
        ++ (codes "signature on-chain). This is ~16x more expensive than ECDSA direct submission "
            ++ (codes "(~50K gas).")));
  mitigation =
      (codes "Acceptable trade-off for quantum security. Future: signature compression or ZK"
        ++ (codes " proofs to reduce on-chain storage."));
}

abbrev single_gateway : Limitation
single_gateway = record {
  limitation = codes "Single Gateway Verification";
  description =
      (codes "Current architecture uses a single gateway for off-chain verification. If the "
        ++ (codes "gateway is compromised, it could forward unverified data to the relay."));
  mitigation = codes "Gateway is assumed trusted. Multi-gateway redundancy is future work.";
}

abbrev this_work : ThisWork
this_work = record {
  pq_scheme = codes "Falcon-512";
  nist_level = 1;
  quantum_safe = true;
  did_integration = true;
  meta_transactions = true;
  replay_protection = codes "On-chain commitment tracking";
  key_recovery = codes "DID deactivation + key rotation";
  gas_per_tx = codes "~820K (Hardhat measured)";
}

abbrev ecdsa_baseline : Baseline
ecdsa_baseline = record {
  pq_scheme = codes "ECDSA (secp256k1)";
  nist_level = codes "N/A (classical only)";
  quantum_safe = false;
  vulnerability =
      (codes "Shor's algorithm: O(n^3) on quantum computer. Public key → private key "
        ++ (codes "recovery in polynomial time."));
  did_integration = false;
  meta_transactions = false;
  gas_per_tx = codes "~50K";
}

-- `THREAT_MODEL`
unfoldable pub threat_model : ThreatModel
threat_model = record {
  architecture = codes "Post-Quantum Secure Blockchain Edge Architecture for IoT";
  signature_scheme = codes "Falcon-512 (NIST FIPS 205, Level 1)";
  blockchain = codes "EVM-compatible (tested on Hardhat, Solidity 0.8.24)";
  threat_actors =
      classical_adversary ∷ quantum_adversary ∷ malicious_relay ∷ compromised_iot_device
      ∷ replay_attacker ∷ [];
  security_guarantees =
      unforgeability ∷ data_integrity ∷ replay_resistance ∷ identity_revocation ∷ key_independence
      ∷ [];
  known_limitations =
      relay_availability_trust ∷ no_confidentiality ∷ no_forward_secrecy ∷ gas_cost ∷ single_gateway
      ∷ [];
  this_work = this_work;
  ecdsa_baseline = ecdsa_baseline;
}

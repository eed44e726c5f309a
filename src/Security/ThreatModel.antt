-- ===== src/Security/ThreatModel.antt =====
-- The threat model of security/threat_model.py, and its summary.
pub mod Table
use post_quantum_iot_auth.Prelude.{
  ℕ, Bool, true, false, Option, List, [], ◌∷◌, ◌++◌, Text, codes, map, replicate,
}
use post_quantum_iot_auth.Python.Lines.{join}

-- An element of `threat_actors`; not every actor has limitations.
pub record Actor : Type 0 where
  pub name : Text
  pub capabilities : Text
  pub mitigated_by : Text
  pub limitations : Option Text

pub record Guarantee : Type 0 where
  pub property : Text
  pub basis : Text
  pub scope : Text

pub record Limitation : Type 0 where
  pub limitation : Text
  pub description : Text
  pub mitigation : Text

-- `security_comparison["this_work"]`
pub record ThisWork : Type 0 where
  pub pq_scheme : Text
  pub nist_level : ℕ
  pub quantum_safe : Bool
  pub did_integration : Bool
  pub meta_transactions : Bool
  pub replay_protection : Text
  pub key_recovery : Text
  pub gas_per_tx : Text

-- `security_comparison["ecdsa_baseline"]`
pub record Baseline : Type 0 where
  pub pq_scheme : Text
  pub nist_level : Text
  pub quantum_safe : Bool
  pub vulnerability : Text
  pub did_integration : Bool
  pub meta_transactions : Bool
  pub gas_per_tx : Text

pub record ThreatModel : Type 0 where
  pub architecture : Text
  pub signature_scheme : Text
  pub blockchain : Text
  pub threat_actors : List Actor
  pub security_guarantees : List Guarantee
  pub known_limitations : List Limitation
  pub this_work : ThisWork
  pub ecdsa_baseline : Baseline

-- `f"{b}"` of a Boolean
abbrev pub shown : Bool → Text
shown true = codes "True"
shown false = codes "False"

-- `"=" * 60`
abbrev rule : Text
rule = replicate 60 61

-- `f"  - {name}: {text}"`
abbrev pub entry : Text → Text → Text
entry name text = codes "  - " ++ (name ++ (codes ": " ++ text))

abbrev pub actor_lines : List Actor → List Text
actor_lines actors = map (λ (a : Actor). entry a.name a.mitigated_by) actors

abbrev pub guarantee_lines : List Guarantee → List Text
guarantee_lines guarantees = map (λ (g : Guarantee). entry g.property g.basis) guarantees

abbrev pub limitation_lines : List Limitation → List Text
limitation_lines limitations =
    map (λ (l : Limitation). entry l.limitation l.description) limitations

abbrev pub comparison_lines : ThisWork → Baseline → List Text
comparison_lines w b =
    (codes "  This work (" ++ (w.pq_scheme ++ (codes "): quantum-safe = " ++ shown w.quantum_safe)))
    ∷ (codes "  Baseline ("
        ++ (b.pq_scheme ++ (codes "): quantum-safe = " ++ shown b.quantum_safe)))
    ∷ (codes "    Vulnerability: " ++ b.vulnerability)
    ∷ []

-- `lines` of `get_threat_model_summary`
unfoldable pub summary_lines : ThreatModel → List Text
summary_lines tm =
    (rule
      ∷ codes "THREAT MODEL SUMMARY"
      ∷ rule
      ∷ (codes "Architecture: " ++ tm.architecture)
      ∷ (codes "Signature: " ++ tm.signature_scheme)
      ∷ []
      ∷ codes "THREAT ACTORS:"
      ∷ [])
    ++ (actor_lines tm.threat_actors
        ++ (([] ∷ codes "SECURITY GUARANTEES:" ∷ [])
            ++ (guarantee_lines tm.security_guarantees
                ++ (([] ∷ codes "KNOWN LIMITATIONS:" ∷ [])
                    ++ (limitation_lines tm.known_limitations
                        ++ (([] ∷ codes "QUANTUM SAFETY COMPARISON:" ∷ [])
                            ++ (comparison_lines tm.this_work tm.ecdsa_baseline ++ rule ∷ [])))))))

-- `get_threat_model_summary`, of any model
unfoldable pub get_threat_model_summary : ThreatModel → Text
get_threat_model_summary tm = join (10 ∷ []) (summary_lines tm)

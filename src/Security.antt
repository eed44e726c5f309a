-- ===== src/Security.antt =====
-- security/attack_simulation.py: the results of the tests and the checks that they share.
pub mod Forgery
pub mod Replay
pub mod Identity
pub mod Relay
pub mod Suite
pub mod ThreatModel
pub mod Commitments
pub mod Outcomes
use post_quantum_iot_auth.Prelude.{
  ℕ, Bool, true, false, ◌&&◌, List, [], ◌∷◌, ◌++◌, Bytes, Text, codes, contains, if◌then◌else◌,
}
use post_quantum_iot_auth.Python.{Result, ok, raised, Exec, pure, call, ◌>>=◌}
use post_quantum_iot_auth.Platform.{Platform}

-- One transaction of the replay check: the hashes of its data and of its DID, and its signature.
pub record Replayable : Type 0 where
  pub data_hash : Bytes
  pub did_hash : Bytes
  pub signature : Bytes

-- `compute_commitment`, with `Web3.keccak`
unfoldable pub compute_commitment : (Bytes → Bytes) → Replayable → Bytes
compute_commitment keccak t = keccak (t.data_hash ++ (t.did_hash ++ t.signature))

-- `check_transaction`, on `used_commitments`
unfoldable pub check_transaction : (Bytes → Bytes) → Replayable → List Bytes → Bool × List Bytes
check_transaction keccak t used =
    let commitment = compute_commitment keccak t in
    if contains commitment used then (false, used) else (true, commitment ∷ used)

-- `True` and `False` in an f-string
abbrev pub shown : Bool → Text
shown true = codes "True"
shown false = codes "False"

-- A name and the outcome of a check.
abbrev pub Check : Type 0
Check = Text × Bool

abbrev pub shown_check : Check → Text
shown_check (name, ok_) = name ++ (codes ": " ++ shown ok_)

-- the checks in the text `details`
abbrev pub details : Text → List Check → Text
details separator [] = []
details separator (c ∷ []) = shown_check c
details separator (c ∷ d ∷ cs) = shown_check c ++ (separator ++ details separator (d ∷ cs))

-- `all(c[1] for c in checks)`
abbrev pub all_pass : List Check → Bool
all_pass [] = true
all_pass (c ∷ cs) = c.1 && all_pass cs

module _ (P : Platform) where
  open P use {Float, World}

  pub record SecurityTestResult : Type 0 where
    pub test_name : Text
    pub category : Text
    pub passed : Bool
    pub description : Text
    pub details : Text
    pub execution_time_ms : Float

  -- `check_timestamp` with `current_time`; `max_age_seconds` is 300.
  unfoldable pub check_timestamp : Float → Float → Bool
  check_timestamp current_time tx_timestamp =
      let age = P.sub current_time tx_timestamp in P.le (P.float 0) age && P.le age (P.float 300)

  -- The end of a test: the clock is read, then the result is made.
  abbrev pub conclude : Text → Text → Text → Bool → Text → Float → Exec World SecurityTestResult
  conclude test_name category description passed text start = do
    stop ← call P.perf_counter
    pure (record {
      test_name = test_name;
      category = category;
      passed = passed;
      description = description;
      details = text;
      execution_time_ms = P.mul (P.sub stop start) (P.float 1000);
    })

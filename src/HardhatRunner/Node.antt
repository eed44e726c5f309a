-- ===== src/HardhatRunner/Node.antt =====
-- The start and the end of the node's process in relay_system/hardhat_runner.py.
pub mod Lifecycle
use post_quantum_iot_auth.Prelude.{
  ℕ, zero, suc, Bool, true, false, Option, none, some, if◌then◌else◌,
}
use post_quantum_iot_auth.Python.{Result, ok, raised, Exec, pure, lift, on_second, ◌>>=◌, ◌>>◌}
use post_quantum_iot_auth.Platform.{Platform}
use post_quantum_iot_auth.Hardhat.Client.{Web3}
use post_quantum_iot_auth.HardhatRunner.{HardhatRunner, get_w3}

-- What the code takes of `subprocess`, `time` and the file system: the process of `npx hardhat node`,
-- its `terminate` and `wait(timeout=10)`, `sleep(1)`, and whether `hardhat.config.js` is there.
pub record Processes (P : Platform) : Type 1 where
  pub Process : Type 0
  pub popen : Exec P.World Process
  pub terminate : Process → Exec P.World (Unit {0})
  pub wait : Process → Exec P.World (Unit {0})
  pub sleep : P.World → P.World
  pub config_exists : P.World → Bool

module _ (P : Platform) (X : Web3 P) (artifacts : Exec P.World (Unit {0})) (R : Processes P) where
  -- A runner with its `_hardhat_process`, and the world.
  pub record Node : Type 0 where
    pub runner : HardhatRunner P X artifacts
    pub process : Option R.Process
    pub world : P.World

  -- `w3 = self._get_w3()` and `w3.is_connected()`; an exception counts as a no.
  abbrev pub asked :
      Result (Unit {0}) × (HardhatRunner P X artifacts × P.World) → Node → Bool × Node
  asked (ok _, (r, w)) n =
      let (connected, w') = X.is_connected w in (connected, record n { runner = r; world = w' })
  asked (raised e, (r, w)) n = (false, record n { runner = r; world = w })

  -- a round of the loop
  unfoldable pub attempt : Node → Bool × Node
  attempt n = asked (get_w3 P X artifacts (n.runner, R.sleep n.world)) n

  -- The rounds that are left of the loop.
  unfoldable pub poll : ℕ → Node → Bool × Node
  poll zero n = (false, n)
  poll (suc rounds) n =
      let (connected, n') = attempt n in
      let later = poll rounds n' in if connected then (true, n') else later

  abbrev pub started : Result R.Process × P.World → Node → Bool × Node
  started (ok process, w) n = poll 30 (record n { process = some process; world = w })
  started (raised e, w) n = (false, record n { world = w })

  -- `start_hardhat`, which never raises
  unfoldable pub start_hardhat : Node → Bool × Node
  start_hardhat n = if R.config_exists n.world then started (R.popen n.world) n else (false, n)

  abbrev pub ended : Result (Unit {0}) × P.World → Node → Result (Unit {0}) × Node
  ended (ok _, w) n = (ok tt, record n { process = none; world = w })
  ended (raised e, w) n = (raised e, record n { world = w })

  abbrev pub end_process : Option R.Process → Node → Result (Unit {0}) × Node
  end_process none n = (ok tt, n)
  end_process (some process) n = ended ((R.terminate process >> R.wait process) n.world) n

  unfoldable pub stop_hardhat : Exec Node (Unit {0})
  stop_hardhat n = end_process n.process n

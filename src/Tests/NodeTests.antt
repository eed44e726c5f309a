-- ===== src/Tests/NodeTests.antt =====
-- The theorem on the node's process of relay_system/hardhat_runner.py, at a concrete input.
use post_quantum_iot_auth.Prelude.{ℕ, ◌+◌, ◌≡◌, refl, leb, true, none, some}
use post_quantum_iot_auth.Python.{ok}
use post_quantum_iot_auth.Python.Loops.{Returns}
use post_quantum_iot_auth.Hardhat.Client.{Web3}
use post_quantum_iot_auth.HardhatRunner.{new_runner, get_w3}
use post_quantum_iot_auth.HardhatRunner.Node.{
  Processes, Node, start_hardhat, stop_hardhat, poll, attempt,
}
use post_quantum_iot_auth.HardhatRunner.Node.Lifecycle.{Polled, start_hardhat_lem}
use post_quantum_iot_auth.Tests.Toy.{toy, toy_web3}

-- a node that answers from the time 5 on
abbrev slow : Web3 toy
slow = record toy_web3 { is_connected = λ w. (leb 5 w, w) }

-- a process is the time of its start
abbrev processes : Processes toy
processes = record {
  Process = ℕ;
  popen = λ w. (ok w, w + 1);
  terminate = λ process w. (ok tt, w);
  wait = λ process w. (ok tt, w + 1);
  sleep = λ w. w + 1;
  config_exists = λ w. true;
}

abbrev idle : Node toy slow (λ w. (ok tt, w)) processes
idle = record { runner = new_runner toy slow (λ w. (ok tt, w)); process = none; world = 0 }

-- the process starts at 0, and the fourth round, at the time 5, is answered
answered_at : (start_hardhat toy slow (λ w. (ok tt, w)) processes idle).1.world ≡ 5
unfolding start_hardhat poll attempt get_w3 new_runner
answered_at = refl

start_hardhat_lem_example :
    let r = start_hardhat toy slow (λ w. (ok tt, w)) processes idle in
    Polled toy slow (λ w. (ok tt, w)) processes 30 (record idle { process = some 0; world = 1 }) r
    × (r.1.process ≡ some 0)
    × Returns (stop_hardhat toy slow (λ w. (ok tt, w)) processes r.1) (λ _ m. m.process ≡ none)
start_hardhat_lem_example =
    start_hardhat_lem toy slow (λ w. (ok tt, w)) processes idle 0 1 refl refl (λ _ _. tt)

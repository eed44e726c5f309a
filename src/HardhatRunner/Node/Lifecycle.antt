-- ===== src/HardhatRunner/Node/Lifecycle.antt =====
-- What start_hardhat and stop_hardhat of relay_system/hardhat_runner.py leave behind.
use post_quantum_iot_auth.Prelude.{
  subst, sym, ℕ, zero, suc, ◌<◌, ◌≡◌, refl, ap, ◌∙◌, ◌⊎◌, inl, inr, Bool, true, false, Option, none,
  some, arith, Bool-cases,
}
use post_quantum_iot_auth.Python.{Result, ok, raised, Exec, ◌>>◌}
use post_quantum_iot_auth.Python.Loops.{Returns}
use post_quantum_iot_auth.Platform.{Platform}
use post_quantum_iot_auth.Hardhat.Client.{Web3}
use post_quantum_iot_auth.HardhatRunner.{HardhatRunner, get_w3}
use post_quantum_iot_auth.HardhatRunner.Node.{
  Processes, Node, asked, attempt, poll, start_hardhat, ended, end_process, stop_hardhat,
}

module _ (P : Platform) (X : Web3 P) (artifacts : Exec P.World (Unit {0})) (R : Processes P) where
  -- The node after `i` rounds.
  unfoldable pub after : ℕ → Node P X artifacts R → Node P X artifacts R
  after zero n = n
  after (suc i) n = after i (attempt P X artifacts R n).1

  -- The first round that is answered is number `i`, counted from 0.
  abbrev pub AnswersAt : ℕ → Node P X artifacts R → Type 0
  AnswersAt zero n = (attempt P X artifacts R n).0 ≡ true
  AnswersAt (suc i) n =
      ((attempt P X artifacts R n).0 ≡ false) × AnswersAt i (attempt P X artifacts R n).1

  -- None of the next `rounds` rounds is answered.
  abbrev pub Silent : ℕ → Node P X artifacts R → Type 0
  Silent zero n = Unit
  Silent (suc rounds) n =
      ((attempt P X artifacts R n).0 ≡ false) × Silent rounds (attempt P X artifacts R n).1

  -- `r` is what `rounds` rounds from `n` on come to: `true` after the first that is answered, `false`
  -- after all of them where none is.
  abbrev pub Polled : ℕ → Node P X artifacts R → Bool × Node P X artifacts R → Type 0
  Polled rounds n r =
      ((i : ℕ) × ((i < rounds) × AnswersAt i n × (r ≡ (true, after (suc i) n))))
      ⊎ (Silent rounds n × (r ≡ (false, after rounds n)))

  Polled-suc :
      (rounds : ℕ) (n : Node P X artifacts R) (r : Bool × Node P X artifacts R)
      → (attempt P X artifacts R n).0 ≡ false
      → Polled rounds (attempt P X artifacts R n).1 r
      → Polled (suc rounds) n r
  unfolding after
  Polled-suc rounds n r unanswered (inl (i, (h, a, e))) =
      inl (suc i, (omega arith, (unanswered, a), e))
  Polled-suc rounds n r unanswered (inr (silent, e)) = inr ((unanswered, silent), e)

  poll-Polled :
      (rounds : ℕ) (n : Node P X artifacts R) → Polled rounds n (poll P X artifacts R rounds n)
  unfolding poll after
  poll-Polled zero n = inr (tt, refl)
  poll-Polled (suc rounds) n = elim (Bool-cases (attempt P X artifacts R n).0) [
    | inl answered ↦ inl (0, (omega arith, answered, rw answered refl))
    | inr unanswered ↦
        Polled-suc rounds n (poll P X artifacts R (suc rounds) n) unanswered
          (rw unanswered (poll-Polled rounds (attempt P X artifacts R n).1))
  ]

  asked-process :
      (r : Result (Unit {0}) × (HardhatRunner P X artifacts × P.World)) (n : Node P X artifacts R)
      → (asked P X artifacts R r n).1.process ≡ n.process
  asked-process (ok _, (r, w)) n = refl
  asked-process (raised e, (r, w)) n = refl

  after-process : (rounds : ℕ) (n : Node P X artifacts R) → (after rounds n).process ≡ n.process
  unfolding after attempt
  after-process zero n = refl
  after-process (suc rounds) n =
      after-process rounds (attempt P X artifacts R n).1
      ∙ asked-process (get_w3 P X artifacts (n.runner, R.sleep n.world)) n

  Polled-process :
      (rounds : ℕ) (n : Node P X artifacts R) (r : Bool × Node P X artifacts R)
      → Polled rounds n r
      → r.1.process ≡ n.process
  Polled-process rounds n r (inl (i, (h, a, e))) = ap (λ r. r.1.process) e ∙ after-process (suc i) n
  Polled-process rounds n r (inr (silent, e)) = ap (λ r. r.1.process) e ∙ after-process rounds n

  -- `terminate` and `wait` return, for every process.
  abbrev pub IsEnding : Type 0
  IsEnding =
      (process : R.Process) (w : P.World)
      → Returns ((R.terminate process >> R.wait process) w) (λ _ _. Unit)

  ended-none :
      (r : Result (Unit {0}) × P.World) (n : Node P X artifacts R)
      → Returns r (λ _ _. Unit)
      → Returns (ended P X artifacts R r n) (λ _ m. m.process ≡ none)
  ended-none (ok _, w) n h = refl
  ended-none (raised e, w) n h = absurd h

  end_process-none :
      (process : Option R.Process) (n : Node P X artifacts R)
      → n.process ≡ process
      → IsEnding
      → Returns (end_process P X artifacts R process n) (λ _ m. m.process ≡ none)
  end_process-none none n e ending = e
  end_process-none (some process) n e ending =
      ended-none ((R.terminate process >> R.wait process) n.world) n (ending process n.world)

  stop_hardhat-none :
      (n : Node P X artifacts R)
      → IsEnding
      → Returns (stop_hardhat P X artifacts R n) (λ _ m. m.process ≡ none)
  unfolding stop_hardhat
  stop_hardhat-none n ending = end_process-none n.process n refl ending

  -- Where the configuration is there and the process starts, `start_hardhat` waits for the first of
  -- 30 rounds that is answered and returns `true`, or `false` after 30 rounds without an answer; both
  -- times it keeps the process, and where processes can be ended, `stop_hardhat` then leaves none.
  pub start_hardhat_lem :
      (n : Node P X artifacts R) (process : R.Process) (w : P.World)
      → R.config_exists n.world ≡ true
      → R.popen n.world ≡ (ok process, w)
      → IsEnding
      → let r = start_hardhat P X artifacts R n in
        Polled 30 (record n { process = some process; world = w }) r
        × (r.1.process ≡ some process)
        × Returns (stop_hardhat P X artifacts R r.1) (λ _ m. m.process ≡ none)
  unfolding start_hardhat
  start_hardhat_lem n process w present opened ending =
      let launched = record n { process = some process; world = w } in
      let e : start_hardhat P X artifacts R n ≡ poll P X artifacts R 30 launched =
        rw present (rw opened refl) in
      let polled = subst (Polled 30 launched) (sym e) (poll-Polled 30 launched) in
      (
        polled,
        Polled-process 30 launched (start_hardhat P X artifacts R n) polled,
        stop_hardhat-none (start_hardhat P X artifacts R n).1 ending,
      )

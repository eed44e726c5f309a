-- ===== src/Benchmark/Passes.antt =====
-- The loops and the measurements of crypto_benchmark/benchmark.py: what a pass over the iterations
-- collects.
use post_quantum_iot_auth.Prelude.{
  ℕ, zero, suc, ◌+◌, ◌-◌, ◌≡◌, refl, ap₂, List, [], ◌∷◌, map, ltb, Bool-cases, inl, inr,
}
use post_quantum_iot_auth.Python.{Result, ok, raised, Exec, pure, call, on_second, ◌>>=◌}
use post_quantum_iot_auth.Python.Loops.{Returns, Returns-bind, Returns_then, Returns-weaken}
use post_quantum_iot_auth.Platform.{Platform}
use post_quantum_iot_auth.Benchmark.Crypto.{Profiler}
use post_quantum_iot_auth.Benchmark.Run.{collect_range, new_message, measure_operation}

module _ {A : Type 0} where
  -- `[p i for i in range(start, start + n)]`
  abbrev pub planned : (ℕ → A) → ℕ → ℕ → List A
  planned p start zero = []
  planned p start (suc n) = p start ∷ planned p (start + 1) n

module _ {S T A B : Type 0} where
  run_value :
      (r : Result A) (t : T) (s : S) (f : A → Exec (S × T) B) (R : A → Type 0)
      (Q : B → S × T → Type 0)
      → Returns (r, t) (λ a _. R a)
      → ((a : A) → R a → Returns (f a (s, t)) Q)
      → Returns (((λ (u : S × T). (r, u)) >>= f) (s, t)) Q
  run_value (ok a) t s f R Q h k = k a h
  run_value (raised e) t s f R Q h k = absurd h

  -- A call on the second part of the state, and what follows it.
  pub run_second :
      (m : Exec T A) (f : A → Exec (S × T) B) (s : S) (w : T) (R : A → Type 0)
      (Q : B → S × T → Type 0)
      → Returns (m w) (λ a _. R a)
      → ((a : A) (v : T) → R a → Returns (f a (s, v)) Q)
      → Returns ((on_second m >>= f) (s, w)) Q
  run_second m f s w R Q h k = run_value (m w).0 (m w).1 s f R Q h (λ a. k a (m w).1)

module _ {S A B : Type 0} (q : A → B) (p : ℕ → B) (I : S → Type 0) (m : ℕ → Exec S A) where
  -- What a loop of `n` rounds gives.
  abbrev pub Collects : ℕ → ℕ → Result (List A) × S → Type 0
  Collects start n out = Returns out (λ xs u. (map q xs ≡ planned p start n) × I u)

  -- A first round, and the rounds after it.
  pub collect_first :
      (n start : ℕ) (s : S)
      → Returns (m start s) (λ a u. (q a ≡ p start) × I u)
      → ((u : S) → I u → Collects (start + 1) n (collect_range (start + 1) n m u))
      → Collects start (suc n) (collect_range start (suc n) m s)
  unfolding collect_range
  collect_first n start s first later =
      let Q = λ (xs : List A) (u : S). (map q xs ≡ planned p start (suc n)) × I u in
      let rest = collect_range (start + 1) n m in
      let add : A → Exec S (List A) = λ a. rest >>= λ xs. pure (a ∷ xs) in
      Returns_then (m start) add s (λ a u. (q a ≡ p start) × I u) Q first
        (λ a u (e, k).
          Returns_then rest (λ xs. pure (a ∷ xs)) u
            (λ xs v. (map q xs ≡ planned p (start + 1) n) × I v) Q (later u k)
            (λ xs v (es, j). (ap₂ (λ b (bs : List B). b ∷ bs) e es, j)))

  -- A loop of rounds that keep an invariant collects what each round gives.
  pub collect_range_lem :
      ((i : ℕ) (t : S) → I t → Returns (m i t) (λ a u. (q a ≡ p i) × I u))
      → (n start : ℕ) (s : S) → I s
      → Collects start n (collect_range start n m s)
  unfolding collect_range
  collect_range_lem step zero start s h = (refl, h)
  collect_range_lem step (suc n) start s h =
      collect_first n start s (step start s h) (collect_range_lem step n (start + 1))

module _ (P : Platform) where
  pub new_message_returns :
      (size : ℕ) (w : P.World) → Returns (new_message P size w) (λ _ _. Unit {0})
  new_message_returns size w = elim (Bool-cases (ltb 0 size)) [ inl e ↦ rw e tt | inr e ↦ rw e tt ]

  pub measure_returns :
      {A : Type 0} (T : Profiler P) (m : Exec P.World A) (R : A → Type 0)
      → ((w : P.World) → Returns (m w) (λ a _. R a))
      → (w : P.World) → Returns (measure_operation P T m w) (λ r _. R r.2)
  unfolding measure_operation
  measure_returns {A} T m R h w =
      let w₂ = (T.perf_counter_ns (T.start w)).1 in
      let start = (T.perf_counter_ns (T.start w)).0 in
      let finish : A → Exec P.World (ℕ × P.Float × A) = λ result. call T.perf_counter_ns >>= λ stop.
      call T.peak >>= λ peak. call (λ w. (tt {0}, T.stop w)) >>= λ _.
      pure (stop - start, P.div (P.float peak) (P.float 1024), result) in
      Returns-bind m finish w₂ (λ r _. R r.2)
        (Returns-weaken (m w₂).0 (m w₂).1 (λ a _. R a) (λ a v. Returns (finish a v) (λ r _. R r.2))
          (λ a v k. k) (h w₂))

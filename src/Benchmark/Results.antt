-- ===== src/Benchmark/Results.antt =====
-- What `run_benchmark` and `run_full_benchmark_suite` of crypto_benchmark/benchmark.py return.
use post_quantum_iot_auth.Prelude.{
  ℕ, zero, suc, ◌≡◌, refl, ap, ap₂, ◌∙◌, Bool, true, none, some, List, [], ◌∷◌, ◌++◌, Bytes, Text,
  codes, length, map,
}
use mathlib.Core.List.{map-append}
use post_quantum_iot_auth.Python.{ok, Exec, pure, lift, on_second, ◌>>=◌, ◌>>◌}
use post_quantum_iot_auth.Python.Loops.{
  Returns, Returns_then, Returns-weaken, repeat, repeat-Advances, Returns_move,
}
use post_quantum_iot_auth.Platform.{Platform}
use post_quantum_iot_auth.Falcon.{Flags}
use post_quantum_iot_auth.Falcon.Crypto.{Libraries}
use post_quantum_iot_auth.Ecdsa.{Ecdsa}
use post_quantum_iot_auth.Benchmark.Crypto.{Dilithium, Profiler}
use post_quantum_iot_auth.Benchmark.Scheme.{CryptoScheme, keygen, sign, verify}
use post_quantum_iot_auth.Benchmark.RoundTrip.{Works}
use post_quantum_iot_auth.Benchmark.Environment.{Host, detect_environment}
use post_quantum_iot_auth.Benchmark.Run.{
  collect_range, BenchmarkResult, Locals, bind_keys, bound_keys, new_message, measure_operation,
  entry, warmup_round, keygen_round, size_of, sign_round, verify_round, passes, run_benchmark,
}
use post_quantum_iot_auth.Benchmark.Passes.{
  planned, run_second, collect_first, collect_range_lem, new_message_returns, measure_returns,
}

module _ (P : Platform) where
  -- A result without the two measurements.
  abbrev pub untimed : BenchmarkResult P → BenchmarkResult P
  untimed r = record r { time_ns = 0; memory_kb = P.float 0 }

  -- The rows of three lists, one after the other.
  join_rows :
      (xs ys zs : List (BenchmarkResult P)) {xs' ys' zs' : List (BenchmarkResult P)}
      → map untimed xs ≡ xs'
      → map untimed ys ≡ ys'
      → map untimed zs ≡ zs'
      → map untimed (xs ++ (ys ++ zs)) ≡ xs' ++ (ys' ++ zs')
  join_rows xs ys zs e e' e'' =
      map-append untimed xs (ys ++ zs)
      ∙ ap₂ (λ a b. a ++ b) e (map-append untimed ys zs ∙ ap₂ (λ a b. a ++ b) e' e'')

  module _ (L : Libraries P) (f : Flags) (E : Ecdsa P) (D : Dilithium P) (T : Profiler P)
      (h : Host P) where
    -- The results that are due, without measurements: the operation's name in each, and the rounds of
    -- each operation in their order.
    abbrev pub due : CryptoScheme → ℕ → ℕ → List (BenchmarkResult P)
    due c n size =
        let environment = detect_environment P h L.is_linux in
        let row = entry P L f E D T h c 0 (P.float 0) environment in
        planned (row (codes "keygen") 0 0) 0 n
        ++ (planned (row (codes "sign") size c.signature_size) 0 n
            ++ planned (row (codes "verify") size c.signature_size) 0 n)

    module _ (c : CryptoScheme) (IsKey : Bytes → Bytes → Type 0)
        (works : Works P L f E D c IsKey) where
      -- The local variables hold a key pair of the scheme.
      abbrev HasKey : Locals P → Type 0
      HasKey (none, w) = ⊥
      HasKey (some kp, w) = IsKey kp.0 kp.1

      abbrev Due : (ℕ → BenchmarkResult P) → ℕ → BenchmarkResult P → Locals P → Type 0
      Due p i r t = (untimed r ≡ p i) × HasKey t

      keygen_round_lem :
          (environment : Text) (i : ℕ) (s : Locals P)
          → Returns
              (keygen_round P L f E D T h c environment i s)
              (Due (entry P L f E D T h c 0 (P.float 0) environment (codes "keygen") 0 0) i)
      keygen_round_lem environment i (o, w) =
          let make = keygen P L f E D c.name in
          run_second (measure_operation P T make)
            (λ (a : ℕ × P.Float × (Bytes × Bytes)). bind_keys P a.2 >>= λ _.
              pure (entry P L f E D T h c a.0 a.1 environment (codes "keygen") 0 0 i))
            o w (λ a. IsKey a.2.0 a.2.1) _
            (measure_returns P T make (λ kp. IsKey kp.0 kp.1) works.makes w) (λ a v k. (refl, k))

      size_of_lem :
          (b : Bytes) → length b ≡ c.signature_size → size_of P L f E D T h c b ≡ c.signature_size
      size_of_lem [] e = refl
      size_of_lem (x ∷ b) e = e

      sign_round_lem :
          (size : ℕ) (environment : Text) (i : ℕ) (s : Locals P)
          → HasKey s
          → Returns (sign_round P L f E D T h c size environment i s) (
              Due
                (entry P L f E D T h c 0
                  (P.float 0)
                  environment
                  (codes "sign")
                  size
                  c.signature_size)
                i)
      sign_round_lem size environment i (none, w) k = absurd k
      sign_round_lem size environment i (some (pk, sk), w) k =
          let make = λ (msg : Bytes). sign P L f E D c.name msg sk in
          let note = λ (a : ℕ × P.Float × Bytes). pure {S = Locals P} (
            entry P L f E D T h c a.0 a.1 environment (codes "sign") size
              (size_of P L f E D T h c a.2) i) in
          run_second (new_message P size)
            (λ msg. bound_keys P >>= λ keys.
              on_second (measure_operation P T (sign P L f E D c.name msg keys.1)) >>= note)
            (some (pk, sk)) w (λ _. Unit {0}) _ (new_message_returns P size w)
            (λ msg v _.
              run_second (measure_operation P T (make msg)) note (some (pk, sk)) v
                (λ a. length a.2 ≡ c.signature_size) _
                (measure_returns P T (make msg) (λ b. length b ≡ c.signature_size)
                  (λ u.
                    Returns-weaken (make msg u).0 (make msg u).1 _
                      (λ b _. length b ≡ c.signature_size) (λ b _ g. g.0)
                      (works.signs pk sk msg u k))
                  v)
                (λ a u e. (
                  ap (λ z. entry P L f E D T h c 0 (P.float 0) environment (codes "sign") size z i)
                      (size_of_lem a.2 e),
                  k,
                )))

      verify_round_lem :
          (size : ℕ) (environment : Text) (i : ℕ) (s : Locals P)
          → HasKey s
          → Returns (verify_round P L f E D T h c size environment i s) (
              Due
                (entry P L f E D T h c 0
                  (P.float 0)
                  environment
                  (codes "verify")
                  size
                  c.signature_size)
                i)
      verify_round_lem size environment i (none, w) k = absurd k
      verify_round_lem size environment i (some (pk, sk), w) k =
          let check = λ (msg s : Bytes). lift {S = P.World} (verify P L f E D c.name msg s pk) in
          let note = λ (a : ℕ × P.Float × Bool).
            pure {S = Locals P} (
              entry P L f E D T h c a.0 a.1 environment (codes "verify") size c.signature_size i) in
          run_second (new_message P size)
            (λ msg. bound_keys P >>= λ keys. on_second (sign P L f E D c.name msg keys.1) >>= λ s.
              on_second (measure_operation P T (lift (verify P L f E D c.name msg s keys.0)))
              >>= note)
            (some (pk, sk)) w (λ _. Unit {0}) _ (new_message_returns P size w)
            (λ msg v _.
              run_second (sign P L f E D c.name msg sk)
                (λ s. on_second (measure_operation P T (check msg s)) >>= note) (some (pk, sk)) v
                (λ s. (length s ≡ c.signature_size) × (verify P L f E D c.name msg s pk ≡ ok true))
                _ (works.signs pk sk msg v k)
                (λ s u good.
                  run_second (measure_operation P T (check msg s)) note (some (pk, sk)) u
                    (λ _. Unit {0}) _
                    (measure_returns P T (check msg s) (λ _. Unit {0}) (λ x. rw good.1 tt) u)
                    (λ a x _. (refl, k))))

      warmup_round_lem :
          (msg : Bytes) (s : Locals P)
          → Returns (warmup_round P L f E D T h c msg s) (λ _ _. Unit {0})
      warmup_round_lem msg (o, w) =
          let finish : Bool → Exec (Locals P) (Unit {0}) = λ _. pure tt in
          run_second (keygen P L f E D c.name)
            (λ kp. bind_keys P (kp.0, kp.1) >>= λ _.
              on_second (sign P L f E D c.name msg kp.1) >>= λ s.
              on_second (lift (verify P L f E D c.name msg s kp.0)) >>= finish)
            o w (λ kp. IsKey kp.0 kp.1) _ (works.makes w)
            (λ kp v k.
              run_second (sign P L f E D c.name msg kp.1)
                (λ s. on_second (lift (verify P L f E D c.name msg s kp.0)) >>= finish) (some kp) v
                (λ s.
                  (length s ≡ c.signature_size) × (verify P L f E D c.name msg s kp.0 ≡ ok true))
                _ (works.signs kp.0 kp.1 msg v k)
                (λ s u good.
                  run_second (lift (verify P L f E D c.name msg s kp.0)) finish (some kp) u
                    (λ _. Unit {0}) _ (rw good.1 tt) (λ _ _ _. tt)))

      -- The same, once there has been a round of key generation.
      abbrev HasKeyAfter : ℕ → Locals P → Type 0
      HasKeyAfter zero s = Unit
      HasKeyAfter (suc n) s = HasKey s

      abbrev Passes : (ℕ → BenchmarkResult P) → ℕ → List (BenchmarkResult P) → Locals P → Type 0
      Passes p n xs u = (map untimed xs ≡ planned p 0 n) × HasKeyAfter n u

      keygen_pass :
          (environment : Text) (n : ℕ) (s : Locals P)
          → Returns
              (collect_range 0 n (keygen_round P L f E D T h c environment) s)
              (Passes (entry P L f E D T h c 0 (P.float 0) environment (codes "keygen") 0 0) n)
      unfolding collect_range
      keygen_pass environment zero s = (refl, tt)
      keygen_pass environment (suc n) s =
          let round = keygen_round P L f E D T h c environment in
          let p = entry P L f E D T h c 0 (P.float 0) environment (codes "keygen") 0 0 in
          collect_first untimed p HasKey round n 0 s (keygen_round_lem environment 0 s) (λ u k.
            collect_range_lem untimed p HasKey round (λ i t _. keygen_round_lem environment i t) n 1
              u k)

      -- A pass whose rounds need a key.
      keyed_pass :
          (p : ℕ → BenchmarkResult P) (m : ℕ → Exec (Locals P) (BenchmarkResult P))
          → ((i : ℕ) (s : Locals P) → HasKey s → Returns (m i s) (Due p i))
          → (n : ℕ) (s : Locals P) → HasKeyAfter n s
          → Returns (collect_range 0 n m s) (Passes p n)
      unfolding collect_range
      keyed_pass p m step zero s k = (refl, tt)
      keyed_pass p m step (suc n) s k = collect_range_lem untimed p HasKey m step (suc n) 0 s k

      passes_lem :
          (n size warmup : ℕ) (w : P.World)
          → Returns
              (passes P L f E D T h c n size warmup (detect_environment P h L.is_linux) (none, w))
              (λ xs _. map untimed xs ≡ due c n size)
      passes_lem n size warmup w =
          let environment = detect_environment P h L.is_linux in
          let Q = λ (xs : List (BenchmarkResult P)) (_ : Locals P). map untimed xs ≡ due c n size in
          let row = entry P L f E D T h c 0 (P.float 0) environment in
          let key_rows = row (codes "keygen") 0 0 in
          let sign_rows = row (codes "sign") size c.signature_size in
          let verify_rows = row (codes "verify") size c.signature_size in
          let keys = collect_range 0 n (keygen_round P L f E D T h c environment) in
          let signs = collect_range 0 n (sign_round P L f E D T h c size environment) in
          let verifies = collect_range 0 n (verify_round P L f E D T h c size environment) in
          let after_sign =
            λ (xs ys : List (BenchmarkResult P)). verifies >>= λ zs. pure (xs ++ (ys ++ zs)) in
          let after_keys = λ (xs : List (BenchmarkResult P)). signs >>= after_sign xs in
          let after_warmup = keys >>= after_keys in
          run_second (new_message P size)
            (λ msg. repeat warmup (warmup_round P L f E D T h c msg) >> after_warmup) none w
            (λ _. Unit {0}) Q (new_message_returns P size w)
            (λ msg v _.
              let rounds = repeat warmup (warmup_round P L f E D T h c msg) in
              Returns_then rounds (λ _. after_warmup) (none, v) (λ _ _. Unit {0}) Q
                (repeat-Advances (λ _ _. Unit {0}) warmup (warmup_round P L f E D T h c msg)
                  (λ _ t _. warmup_round_lem msg t) 0 (none, v) tt)
                (λ _ s _.
                  Returns_then keys after_keys s (Passes key_rows n) Q (keygen_pass environment n s)
                    (λ xs t (e, k).
                      Returns_then signs (after_sign xs) t (Passes sign_rows n) Q
                        (keyed_pass sign_rows _ (sign_round_lem size environment) n t k)
                        (λ ys u (e', k').
                          Returns_then verifies (λ zs. pure (xs ++ (ys ++ zs))) u
                            (Passes verify_rows n) Q
                            (keyed_pass verify_rows _ (verify_round_lem size environment) n u k')
                            (λ zs _ (e'', _). join_rows xs ys zs e e' e'')))))

      -- Where the scheme works, a benchmark of `n` iterations returns; apart from times and memory its
      -- results are, in this order, `n` for key generation, `n` for signing and `n` for verification,
      -- each numbered from 0, with the scheme's sizes and the environment that is detected.
      pub run_benchmark_lem :
          (n size warmup : ℕ) (w : P.World)
          → Returns
              (run_benchmark P L f E D T h c n size warmup w)
              (λ xs _. map untimed xs ≡ due c n size)
      unfolding run_benchmark
      run_benchmark_lem n size warmup w =
          let out =
            passes P L f E D T h c n size warmup (detect_environment P h L.is_linux) (none, w) in
          Returns_move out.0 out.1 out.1.1 (λ xs. map untimed xs ≡ due c n size)
            (passes_lem n size warmup w)

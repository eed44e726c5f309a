-- ===== src/Benchmark/Suite.antt =====
-- What `run_full_benchmark_suite` of crypto_benchmark/benchmark.py returns, and when it raises.
use post_quantum_iot_auth.Prelude.{
  ℕ, ◌/◌, ◌≡◌, refl, ap, ap₂, ◌∙◌, Option, none, some, List, [], ◌∷◌, ◌++◌, Bytes, Text, map, min,
  All,
}
use mathlib.Core.List.{map-append}
use post_quantum_iot_auth.Python.{
  Error, value_error, Result, ok, raised, Exec, pure, lift, bind-ok, ◌>>=◌,
}
use post_quantum_iot_auth.Python.Loops.{Returns, Returns_then, Returns-ok, Returns-weaken}
use post_quantum_iot_auth.Platform.{Platform}
use post_quantum_iot_auth.Falcon.{Flags}
use post_quantum_iot_auth.Falcon.Crypto.{Libraries}
use post_quantum_iot_auth.Ecdsa.{Ecdsa}
use post_quantum_iot_auth.Benchmark.Crypto.{Dilithium, Profiler}
use post_quantum_iot_auth.Benchmark.Scheme.{CryptoScheme, scheme_sizes, new_scheme}
use post_quantum_iot_auth.Benchmark.RoundTrip.{Works}
use post_quantum_iot_auth.Benchmark.Environment.{Host}
use post_quantum_iot_auth.Benchmark.Run.{
  BenchmarkResult, run_benchmark, run_schemes, chosen, run_full_benchmark_suite,
}
use post_quantum_iot_auth.Benchmark.Results.{untimed, due, run_benchmark_lem}

module _ {S A B : Type 0} where
  raises_value :
      (r : Result A) (s : S) (f : A → Exec S B) (e : Error)
      → Returns (r, s) (λ _ _. Unit {0})
      → ((a : A) → (f a s).0 ≡ raised e)
      → (((λ (u : S). (r, u)) >>= f) s).0 ≡ raised e
  raises_value (ok a) s f e h k = k a
  raises_value (raised x) s f e h k = absurd h

  -- A sequence whose first part returns raises what the rest raises.
  raises_after :
      (m : Exec S A) (f : A → Exec S B) (s : S) (e : Error)
      → Returns (m s) (λ _ _. Unit {0})
      → ((a : A) (t : S) → (f a t).0 ≡ raised e)
      → ((m >>= f) s).0 ≡ raised e
  raises_after m f s e h k = raises_value (m s).0 (m s).1 f e h (λ a. k a (m s).1)

  raises_first :
      (m : Exec S A) (f : A → Exec S B) (s : S) (e : Error)
      → (m s).0 ≡ raised e
      → ((m >>= f) s).0 ≡ raised e
  raises_first m f s e h =
      ap
        (λ (r : Result A).
          let o : Result B × S = elim r [ ok a ↦ f a (m s).1 | raised x ↦ (raised x, (m s).1) ] in
          o.0)
        h

module _ (P : Platform) (L : Libraries P) (f : Flags) (E : Ecdsa P) (D : Dilithium P)
    (T : Profiler P) (h : Host P) where
  -- A name in the table, whose scheme works.
  abbrev pub IsSupported : Text → Type 1
  IsSupported name =
      (c : CryptoScheme) × (new_scheme name ≡ ok c)
      × (IsKey : Bytes → Bytes → Type 0) × Works P L f E D c IsKey

  abbrev pub due_of : Result CryptoScheme → ℕ → ℕ → List (BenchmarkResult P)
  due_of (ok c) n size = due P L f E D T h c n size
  due_of (raised e) n size = []

  -- The results that are due of several schemes.
  abbrev pub due_all : List Text → ℕ → ℕ → List (BenchmarkResult P)
  due_all [] n size = []
  due_all (name ∷ names) n size = due_of (new_scheme name) n size ++ due_all names n size

  abbrev schemes : List Text → ℕ → ℕ → Exec P.World (List (BenchmarkResult P))
  schemes names n size = run_schemes P L f E D T h names n size

  -- One scheme that works, and what follows it.
  schemes_first :
      (name : Text) (names : List Text) (n size : ℕ) (w : P.World)
      (Q : List (BenchmarkResult P) → P.World → Type 0)
      → IsSupported name
      → ((xs : List (BenchmarkResult P)) (v : P.World)
          → map (untimed P) xs ≡ due_of (new_scheme name) n size
          → Returns ((schemes names n size >>= λ rest. pure (xs ++ rest)) v) Q)
      → Returns (schemes (name ∷ names) n size w) Q
  unfolding run_schemes
  schemes_first name names n size w Q (c, made, IsKey, works) k =
      let bench = λ (c : CryptoScheme). run_benchmark P L f E D T h c n size (min 10 (n / 10)) in
      let add =
        λ (xs : List (BenchmarkResult P)). schemes names n size >>= λ rest. pure (xs ++ rest) in
      Returns-ok (lift (new_scheme name)) (λ c. bench c >>= add) w Q made
        (Returns_then (bench c) add w (λ xs _. map (untimed P) xs ≡ due P L f E D T h c n size) Q
          (run_benchmark_lem P L f E D T h c IsKey works n size (min 10 (n / 10)) w)
          (λ xs v e. k xs v (rw made e)))

  run_schemes_lem :
      (names : List Text) (n size : ℕ) (w : P.World)
      → All IsSupported names
      → Returns
          (run_schemes P L f E D T h names n size w)
          (λ xs _. map (untimed P) xs ≡ due_all names n size)
  unfolding run_schemes
  run_schemes_lem [] n size w a = refl
  run_schemes_lem (name ∷ names) n size w (s, a) =
      let Q = λ (xs : List (BenchmarkResult P)) (_ : P.World).
        map (untimed P) xs ≡ due_all (name ∷ names) n size in
      schemes_first name names n size w Q s (λ xs v e.
        Returns_then (schemes names n size) (λ rest. pure (xs ++ rest)) v
          (λ ys _. map (untimed P) ys ≡ due_all names n size) Q (run_schemes_lem names n size v a)
          (λ ys _ e'. map-append (untimed P) xs ys ∙ ap₂ (λ a b. a ++ b) e e'))

  -- Where every scheme that is asked for, or every default scheme, is in the table and works, the
  -- suite returns, and apart from times and memory its results are those of the schemes, one scheme
  -- after the other.
  pub run_full_benchmark_suite_lem :
      (names : Option (List Text)) (n size : ℕ) (w : P.World)
      → All IsSupported (chosen P L f E D T h names)
      → Returns
          (run_full_benchmark_suite P L f E D T h names n size w)
          (λ xs _. map (untimed P) xs ≡ due_all (chosen P L f E D T h names) n size)
  unfolding run_full_benchmark_suite
  run_full_benchmark_suite_lem names n size w a =
      run_schemes_lem (chosen P L f E D T h names) n size w a

  unsupported : (name : Text) → scheme_sizes name ≡ none → new_scheme name ≡ raised value_error
  unfolding new_scheme
  unsupported name e = rw (e, new_scheme) refl

  schemes_unsupported :
      (front back : List Text) (name : Text) (n size : ℕ) (w : P.World)
      → All IsSupported front
      → scheme_sizes name ≡ none
      → (schemes (front ++ name ∷ back) n size w).0 ≡ raised value_error
  unfolding run_schemes
  schemes_unsupported [] back name n size w a e = rw (unsupported name e) refl
  schemes_unsupported (first ∷ front) back name n size w ((c, made, IsKey, works), a) e =
      let bench = λ (c : CryptoScheme). run_benchmark P L f E D T h c n size (min 10 (n / 10)) in
      let rest = schemes (front ++ name ∷ back) n size in
      let add = λ (xs : List (BenchmarkResult P)). rest >>= λ ys. pure (xs ++ ys) in
      let out = bench c w in
      let later =
        raises_after (bench c) add w value_error
          (Returns-weaken out.0 out.1 _ (λ _ _. Unit {0}) (λ _ _ _. tt)
            (run_benchmark_lem P L f E D T h c IsKey works n size (min 10 (n / 10)) w))
          (λ xs v.
            raises_first rest (λ ys. pure (xs ++ ys)) v value_error
              (schemes_unsupported front back name n size v a e)) in
      ap (λ (o : Result (List (BenchmarkResult P)) × P.World). o.0)
        (bind-ok (lift (new_scheme first)) (λ c. bench c >>= add) w made)
      ∙ later

  -- A name that is not in the table makes the suite raise a `ValueError` when its turn comes, even
  -- though the schemes before it returned results.
  pub run_full_benchmark_suite_unsupported :
      (front back : List Text) (name : Text) (n size : ℕ) (w : P.World)
      → All IsSupported front
      → scheme_sizes name ≡ none
      → (run_full_benchmark_suite P L f E D T h (some (front ++ name ∷ back)) n size w).0
        ≡ raised value_error
  unfolding run_full_benchmark_suite
  run_full_benchmark_suite_unsupported front back name n size w a e =
      schemes_unsupported front back name n size w a e

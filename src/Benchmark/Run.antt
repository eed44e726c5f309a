-- ===== src/Benchmark/Run.antt =====
-- The measurements of crypto_benchmark/benchmark.py, for one scheme and for several.
use post_quantum_iot_auth.Prelude.{
  ℕ, zero, suc, ◌+◌, ◌-◌, ◌/◌, Option, none, some, List, [], ◌∷◌, ◌++◌, Bytes, Text, codes, length,
  ltb, min, if◌then◌else◌,
}
use post_quantum_iot_auth.Python.{
  unbound_local, ok, Exec, pure, lift, call, or_raise, on_second, ◌>>=◌, ◌>>◌,
}
use post_quantum_iot_auth.Python.Loops.{repeat}
use post_quantum_iot_auth.Platform.{Platform}
use post_quantum_iot_auth.Falcon.{Flags, Backend, get_backend}
use post_quantum_iot_auth.Falcon.Crypto.{Libraries}
use post_quantum_iot_auth.Ecdsa.{Ecdsa}
use post_quantum_iot_auth.Benchmark.Crypto.{Dilithium, Profiler}
use post_quantum_iot_auth.Benchmark.Scheme.{CryptoScheme, new_scheme, keygen, sign, verify}
use post_quantum_iot_auth.Benchmark.Environment.{Host, detect_environment}

module _ {S A : Type 0} where
  -- `for i in range(start, start + n): results.append(m i)`
  unfoldable pub collect_range : ℕ → ℕ → (ℕ → Exec S A) → Exec S (List A)
  collect_range start zero m = pure []
  collect_range start (suc n) m = do
    a ← m start
    rest ← collect_range (start + 1) n m
    pure (a ∷ rest)

module _ (P : Platform) where
  open P use {Float, World}

  pub record BenchmarkResult : Type 0 where
    pub scheme : Text
    pub operation : Text
    pub time_ns : ℕ
    pub memory_kb : Float
    pub message_size : ℕ
    pub key_size : ℕ
    pub signature_size : ℕ
    pub iteration : ℕ
    pub backend : Backend
    pub environment : Text

  -- The local variables `pub` and `priv`, and the world.
  abbrev pub Locals : Type 0
  Locals = Option (Bytes × Bytes) × World

  abbrev pub bind_keys : Bytes × Bytes → Exec Locals (Unit {0})
  bind_keys kp (_, w) = (ok tt, (some kp, w))

  abbrev pub bound_keys : Exec Locals (Bytes × Bytes)
  bound_keys s = or_raise s.0 unbound_local s

  -- `os.urandom(message_size) if message_size > 0 else b""`
  abbrev pub new_message : ℕ → Exec World Bytes
  new_message message_size = if ltb 0 message_size then call (P.urandom message_size) else pure []

  module _ (T : Profiler P) where
    -- `_measure_operation`; the clock does not run backwards
    unfoldable pub measure_operation : {A : Type 0} → Exec World A → Exec World (ℕ × Float × A)
    measure_operation func = do
      call (λ w. (tt {0}, T.start w))
      start ← call T.perf_counter_ns
      result ← func
      stop ← call T.perf_counter_ns
      peak ← call T.peak
      call (λ w. (tt {0}, T.stop w))
      pure (stop - start, P.div (P.float peak) (P.float 1024), result)

  module _ (L : Libraries P) (f : Flags) (E : Ecdsa P) (D : Dilithium P) (T : Profiler P)
      (h : Host P) (c : CryptoScheme) where
    -- A result of the scheme; the time and the memory come first.
    abbrev pub entry : ℕ → Float → Text → Text → ℕ → ℕ → ℕ → BenchmarkResult
    entry elapsed_ns mem_kb environment operation message_size signature_size i = record {
      scheme = c.name;
      operation = operation;
      time_ns = elapsed_ns;
      memory_kb = mem_kb;
      message_size = message_size;
      key_size = c.public_key_size;
      signature_size = signature_size;
      iteration = i;
      backend = get_backend f;
      environment = environment;
    }

    -- a warmup round
    abbrev pub warmup_round : Bytes → Exec Locals (Unit {0})
    warmup_round warmup_msg = do
      (pub_, priv) ← on_second (keygen P L f E D c.name)
      bind_keys (pub_, priv)
      sig ← on_second (sign P L f E D c.name warmup_msg priv)
      answer ← on_second (lift (verify P L f E D c.name warmup_msg sig pub_))
      pure tt

    abbrev pub keygen_round : Text → ℕ → Exec Locals BenchmarkResult
    keygen_round environment i = do
      (elapsed_ns, mem_kb, kp) ← on_second (measure_operation T (keygen P L f E D c.name))
      bind_keys kp
      pure (entry elapsed_ns mem_kb environment (codes "keygen") 0 0 i)

    -- `len(sig) if sig else scheme.signature_size`
    abbrev pub size_of : Bytes → ℕ
    size_of [] = c.signature_size
    size_of (b ∷ bs) = length (b ∷ bs)

    abbrev pub sign_round : ℕ → Text → ℕ → Exec Locals BenchmarkResult
    sign_round message_size environment i = do
      msg ← on_second (new_message message_size)
      (pub_, priv) ← bound_keys
      (elapsed_ns, mem_kb, sig) ← on_second (measure_operation T (sign P L f E D c.name msg priv))
      pure (entry elapsed_ns mem_kb environment (codes "sign") message_size (size_of sig) i)

    abbrev pub verify_round : ℕ → Text → ℕ → Exec Locals BenchmarkResult
    verify_round message_size environment i = do
      msg ← on_second (new_message message_size)
      (pub_, priv) ← bound_keys
      sig ← on_second (sign P L f E D c.name msg priv)
      (elapsed_ns, mem_kb, answer) ←
          on_second (measure_operation T (lift (verify P L f E D c.name msg sig pub_)))
      pure (entry elapsed_ns mem_kb environment (codes "verify") message_size c.signature_size i)

    -- The body of `run_benchmark`, from the warmup on.
    abbrev pub passes : ℕ → ℕ → ℕ → Text → Exec Locals (List BenchmarkResult)
    passes iterations message_size warmup environment = do
      warmup_msg ← on_second (new_message message_size)
      repeat warmup (warmup_round warmup_msg)
      made ← collect_range 0 iterations (keygen_round environment)
      signed ← collect_range 0 iterations (sign_round message_size environment)
      verified ← collect_range 0 iterations (verify_round message_size environment)
      pure (made ++ (signed ++ verified))

    unfoldable pub run_benchmark : ℕ → ℕ → ℕ → Exec World (List BenchmarkResult)
    run_benchmark iterations message_size warmup w =
        let environment = detect_environment P h L.is_linux in
        let (r, (_, w')) = passes iterations message_size warmup environment (none, w) in (r, w')

  module _ (L : Libraries P) (f : Flags) (E : Ecdsa P) (D : Dilithium P) (T : Profiler P)
      (h : Host P) where
    -- The loop over `schemes`.
    unfoldable pub run_schemes : List Text → ℕ → ℕ → Exec World (List BenchmarkResult)
    run_schemes [] iterations message_size = pure []
    run_schemes (name ∷ names) iterations message_size = do
      scheme ← lift (new_scheme name)
      results ← run_benchmark L f E D T h scheme iterations message_size (min 10 (iterations / 10))
      rest ← run_schemes names iterations message_size
      pure (results ++ rest)

    abbrev pub default_schemes : List Text
    default_schemes =
        codes "Falcon-512" ∷ codes "ECDSA" ∷ codes "Dilithium2" ∷ codes "Dilithium3" ∷ []

    abbrev pub chosen : Option (List Text) → List Text
    chosen none = default_schemes
    chosen (some names) = names

    unfoldable pub run_full_benchmark_suite :
        Option (List Text) → ℕ → ℕ → Exec World (List BenchmarkResult)
    run_full_benchmark_suite schemes iterations message_size =
        run_schemes (chosen schemes) iterations message_size

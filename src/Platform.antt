-- ===== src/Platform.antt =====
-- What the program takes from outside the repository: clocks, randomness, `hashlib` and floating
-- point numbers. They enter every definition as a parameter.
use post_quantum_iot_auth.Prelude.{ℕ, ◌≡◌, Bool, Bytes, Text, length}

-- `World` is what clocks and random sources read; each reading gives the world that follows it.
pub record Platform : Type 1 where
  pub Float : Type 0
  pub float : ℕ → Float
  pub add : Float → Float → Float
  pub sub : Float → Float → Float
  pub mul : Float → Float → Float
  pub div : Float → Float → Float
  pub lt : Float → Float → Bool
  pub le : Float → Float → Bool
  pub trunc : Float → ℕ
  pub show_float : Float → Text
  pub World : Type 0
  -- `time.perf_counter()` and `time.time()`
  pub perf_counter : World → Float × World
  pub time : World → Float × World
  -- `str(uuid.uuid4())`
  pub uuid4 : World → Text × World
  -- `os.urandom(n)`
  pub urandom : ℕ → World → Bytes × World
  -- `random.Random(seed)` and its method `uniform(a, b)`
  pub Rng : Type 0
  pub seeded : ℕ → Rng
  pub uniform : Float → Float → Rng → Float × Rng
  -- `hashlib.sha256(b).digest()`
  pub sha256 : Bytes → Bytes

-- What is documented of them: a SHA-256 digest has 32 bytes, and `os.urandom(n)` returns n bytes.
pub record IsDocumented (P : Platform) : Type 0 where
  pub sha256_size : (b : Bytes) → length (P.sha256 b) ≡ 32
  pub urandom_size : (n : ℕ) (w : P.World) → length (P.urandom n w).0 ≡ n

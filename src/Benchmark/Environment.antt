-- ===== src/Benchmark/Environment.antt =====
-- `detect_environment` of crypto_benchmark/benchmark.py.
use post_quantum_iot_auth.Prelude.{
  ℕ, zero, suc, Bool, false, ◌&&◌, Option, none, some, List, [], ◌∷◌, Text, codes, beq, not, ltb,
  if◌then◌else◌,
}
use post_quantum_iot_auth.Python.{index_error, Result, ok, raised, catch_all}
use post_quantum_iot_auth.Python.Numerals.{Integer, natural, negative, strip, split, parse_int}
use post_quantum_iot_auth.Platform.{Platform}

-- The files of the machine, `os.cpu_count()`, and the division `/` of two integers, which raises where
-- the quotient is not a float.
pub record Host (P : Platform) : Type 0 where
  pub exists : Text → Bool
  pub read : Text → Result Text
  pub cpu_count : Option ℕ
  pub true_div : Integer → Integer → Result P.Float

infixl 5 ◌>>=◌
abbrev ◌>>=◌ : {A B : Type 0} → Result A → (A → Result B) → Result B
ok a >>= f = f a
raised e >>= f = raised e

-- `words[n]`
abbrev word : ℕ → List Text → Result Text
word n [] = raised index_error
word zero (w ∷ ws) = ok w
word (suc n) (w ∷ ws) = word n ws

abbrev positive : Integer → Bool
positive (natural n) = ltb 0 n
positive (negative n) = false

abbrev pub cpu_max_path : Text
cpu_max_path = codes "/sys/fs/cgroup/cpu.max"

abbrev pub memory_max_path : Text
memory_max_path = codes "/sys/fs/cgroup/memory.max"

abbrev cpu_quota_path : Text
cpu_quota_path = codes "/sys/fs/cgroup/cpu/cpu.cfs_quota_us"

abbrev cpu_period_path : Text
cpu_period_path = codes "/sys/fs/cgroup/cpu/cpu.cfs_period_us"

abbrev memory_limit_path : Text
memory_limit_path = codes "/sys/fs/cgroup/memory/memory.limit_in_bytes"

module _ (P : Platform) (h : Host P) where
  open P use {Float}

  -- `os.cpu_count() or 4`
  abbrev all_cpus : Result Float
  all_cpus = elim h.cpu_count [
    | none ↦ ok (P.float 4)
    | some n ↦ elim n [ zero ↦ ok (P.float 4) | suc k ↦ ok (P.float (suc k)) ]
  ]

  -- the branch of cgroup v2, where `split` skips what `strip` would remove
  unfoldable pub cpu_of_v2 : Result Float
  cpu_of_v2 = do
    content ← h.read cpu_max_path
    quota_str ← word 0 (split content)
    if beq quota_str (codes "max") then all_cpus else do
      quota ← parse_int quota_str
      again ← h.read cpu_max_path
      period_str ← word 1 (split again)
      period ← parse_int period_str
      h.true_div quota period

  -- the branch of cgroup v1
  unfoldable pub cpu_of_v1 : Result Float
  cpu_of_v1 =
      if h.exists cpu_quota_path && h.exists cpu_period_path
      then (do
        quota_str ← h.read cpu_quota_path
        quota ← parse_int quota_str
        period_str ← h.read cpu_period_path
        period ← parse_int period_str
        if positive quota && positive period then h.true_div quota period else all_cpus)
      else all_cpus

  -- `mem_mb`, where infinity is `none`
  unfoldable pub memory : Result (Option Float)
  memory =
      let mem_path = if h.exists memory_max_path then memory_max_path else memory_limit_path in
      if h.exists mem_path
      then (do
        content ← h.read mem_path
        if beq (strip content) (codes "max") then ok none else do
          mem_bytes ← parse_int content
          mem_mb ← h.true_div mem_bytes (natural 1048576)
          ok (some mem_mb))
      else ok none

  abbrev at_most : Option Float → ℕ → Bool
  at_most none n = false
  at_most (some m) n = P.le m (P.float n)

  -- the last test, on `cpu_count` and `mem_mb`
  unfoldable pub classify : Float → Option Float → Text
  classify cpu_count mem_mb =
      if P.le cpu_count (P.float 1) && at_most mem_mb 600
      then codes "iot"
      else if P.le cpu_count (P.div (P.float 5) (P.float 2)) && at_most mem_mb 2500
      then codes "gateway"
      else codes "validator"

  abbrev detected : Result Text
  detected = do
    cpu_count ← if h.exists cpu_max_path then cpu_of_v2 else cpu_of_v1
    mem_mb ← memory
    ok (classify cpu_count mem_mb)

  unfoldable pub detect_environment : Bool → Text
  detect_environment is_linux =
      if not is_linux then codes "default" else catch_all detected (codes "default")

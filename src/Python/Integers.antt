-- ===== src/Python/Integers.antt =====
-- `n.to_bytes(32, "big")` and `int.from_bytes(b, "big")` of Python's standard library.
use post_quantum_iot_auth.Prelude.{
  ℕ, zero, suc, ◌+◌, ◌*◌, ◌/◌, ◌%◌, ◌^◌, ◌<◌, ◌≡◌, refl, ◌∙◌, ap, [], ◌∷◌, arith, ltb,
  if◌then◌else◌, Bytes, length,
}
use post_quantum_iot_auth.Python.{overflow_error, Result, ok, raised}

-- the last `k` bytes of `n`, the most significant first, before `acc`
abbrev pub big_endian : ℕ → ℕ → Bytes → Bytes
big_endian zero n acc = acc
big_endian (suc k) n acc = big_endian k (n / 256) ((n % 256) ∷ acc)

unfoldable pub to_bytes32 : ℕ → Result Bytes
to_bytes32 n = if ltb n (2 ^ 256) then ok (big_endian 32 n []) else raised overflow_error

abbrev from_bytes_after : ℕ → Bytes → ℕ
from_bytes_after acc [] = acc
from_bytes_after acc (b ∷ bs) = from_bytes_after (acc * 256 + b) bs

unfoldable pub from_bytes : Bytes → ℕ
from_bytes b = from_bytes_after 0 b

from_bytes-big_endian :
    (k n : ℕ) (acc : Bytes)
    → n < 256 ^ k
    → from_bytes_after 0 (big_endian k n acc) ≡ from_bytes_after n acc
from_bytes-big_endian zero n acc h = let e : n ≡ 0 = grind arith in rw e refl
from_bytes-big_endian (suc k) n acc h =
    from_bytes-big_endian k (n / 256) ((n % 256) ∷ acc) (grind arith)
    ∙ ap (λ a. from_bytes_after a acc) (omega arith)

length-big_endian : (k n : ℕ) (acc : Bytes) → length (big_endian k n acc) ≡ k + length acc
length-big_endian zero n acc = omega arith
length-big_endian (suc k) n acc = omega (arith, length-big_endian k (n / 256) ((n % 256) ∷ acc))

-- What is written with 32 bytes is read back.
pub to_bytes32-from_bytes :
    (n : ℕ)
    → n < 2 ^ 256
    → (b : Bytes) × (to_bytes32 n ≡ ok b) × (length b ≡ 32) × (from_bytes b ≡ n)
unfolding to_bytes32 from_bytes
to_bytes32-from_bytes n h = (
  big_endian 32 n [],
  ground arith,
  omega (arith, length-big_endian 32 n []),
  from_bytes-big_endian 32 n [] (omega arith),
)

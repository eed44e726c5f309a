-- ===== src/Prelude/Octets.antt =====
-- Python's `bytes` and `str`, as the lists of their byte values and code points.
use Prim.Native.Nat.{ℕ}
use Prim.Native.Char.{code}
use Prim.Native.String.{String}
use mathlib.Core.Path.{◌≡◌, refl}
use mathlib.Core.Logic.{◌↔◌}
use mathlib.Core.Bool.{Bool, true, false, ◌&&◌, ◌||◌}
use mathlib.Core.List.{List, [], ◌∷◌, ◌++◌}
use native.Mathlib.Omega.{arith}
use post_quantum_iot_auth.Prelude.Tests.{◌==◌}

abbrev pub Bytes : Type 0
Bytes = List ℕ

abbrev pub Text : Type 0
Text = List ℕ

-- The code points of a literal.
abbrev pub codes : String → Text
codes String.[] = []
codes (String.◌∷◌ c s) = code c ∷ codes s

-- `a == b` on bytes or text.
unfoldable pub beq : Bytes → Bytes → Bool
beq [] [] = true
beq [] (y ∷ ys) = false
beq (x ∷ xs) [] = false
beq (x ∷ xs) (y ∷ ys) = x == y && beq xs ys

pub beq_iff : (a b : Bytes) → (beq a b ≡ true) ↔ (a ≡ b)
unfolding beq
beq_iff [] [] = (λ _. refl, λ _. refl)
beq_iff [] (y ∷ ys) = (λ h. cc, λ h. cc)
beq_iff (x ∷ xs) [] = (λ h. cc, λ h. cc)
beq_iff (x ∷ xs) (y ∷ ys) = (λ h. ground (arith, beq_iff xs ys), λ h. ground (arith, beq_iff xs ys))

-- `s.startswith(p)`.
unfoldable pub starts_with : Text → Text → Bool
starts_with [] s = true
starts_with (p ∷ ps) [] = false
starts_with (p ∷ ps) (c ∷ cs) = p == c && starts_with ps cs

-- `k in xs`, for a list or a set of byte strings.
unfoldable pub contains : Bytes → List Bytes → Bool
unfolding beq
contains k [] = false
contains k (x ∷ xs) = beq x k || contains k xs

pub contains-append_one :
    (k x : Bytes) (xs : List Bytes) → contains k (xs ++ x ∷ []) ≡ (contains k xs || beq x k)
unfolding contains
contains-append_one k x [] = ground arith
contains-append_one k x (y ∷ xs) = ground (arith, contains-append_one k x xs)

-- No element stands twice.
abbrev pub Distinct : List Bytes → Type 0
Distinct [] = Unit
Distinct (x ∷ xs) = (contains x xs ≡ false) × Distinct xs

pub contains-append :
    (k : Bytes) (xs ys : List Bytes) → contains k (xs ++ ys) ≡ (contains k xs || contains k ys)
unfolding contains
contains-append k [] ys = refl
contains-append k (x ∷ xs) ys = ground (arith, contains-append k xs ys)

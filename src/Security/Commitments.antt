-- ===== src/Security/Commitments.antt =====
-- `check_transaction` of security/attack_simulation.py against its abstract view: a transaction is a
-- replay if it was submitted before.
use post_quantum_iot_auth.Prelude.{
  ◌≡◌, refl, ap₂, true, false, not, ◌&&◌, ◌||◌, Bool, List, [], ◌∷◌, ◌++◌, arith, Bytes, length,
  beq, beq_iff, contains, All,
}
use mathlib.Core.List.{head-eq_of_cons-eq, tail-eq_of_cons-eq}
use post_quantum_iot_auth.Security.{Replayable, compute_commitment, check_transaction}

append_split : (a b c d : Bytes) → length a ≡ length b → a ++ c ≡ b ++ d → (a ≡ b) × (c ≡ d)
append_split [] [] c d h e = (refl, e)
append_split [] (y ∷ b) c d h e = absurd (omega (arith, h))
append_split (x ∷ a) [] c d h e = absurd (omega (arith, h))
append_split (x ∷ a) (y ∷ b) c d h e =
    let (front, rest) = append_split a b c d (omega (arith, h)) (tail-eq_of_cons-eq e) in
    let first : x ≡ y = head-eq_of_cons-eq e in (ap₂ (λ z (zs : Bytes). z ∷ zs) first front, rest)

-- The bytes that are hashed.
abbrev packed : Replayable → Bytes
packed t = t.data_hash ++ (t.did_hash ++ t.signature)

-- Both hashes have 32 bytes.
pub record IsWide (t : Replayable) : Type 0 where
  pub wide_data : length t.data_hash ≡ 32
  pub wide_did : length t.did_hash ≡ 32

abbrev same : Replayable → Replayable → Bool
same t x = beq t.data_hash x.data_hash && (beq t.did_hash x.did_hash && beq t.signature x.signature)

-- The abstract view: whether the transaction is among the submissions.
unfoldable pub submitted : Replayable → List Replayable → Bool
submitted x [] = false
submitted x (t ∷ ts) = same t x || submitted x ts

-- What is packed says which transaction it is: the two hashes have a fixed width.
same-packed : (t x : Replayable) → IsWide t → IsWide x → packed t ≡ packed x → same t x ≡ true
same-packed t x w v e =
    let (first, rest) =
      append_split t.data_hash x.data_hash _ _ (omega (arith, w.wide_data, v.wide_data)) e in
    let (second, third) =
      append_split t.did_hash x.did_hash _ _ (omega (arith, w.wide_did, v.wide_did)) rest in
    ground (
      arith,
      beq_iff t.data_hash x.data_hash,
      beq_iff t.did_hash x.did_hash,
      beq_iff t.signature x.signature,
      first,
      second,
      third,
    )

packed-same : (t x : Replayable) → same t x ≡ true → packed t ≡ packed x
packed-same t x h = ground (
  arith,
  beq_iff t.data_hash x.data_hash,
  beq_iff t.did_hash x.did_hash,
  beq_iff t.signature x.signature,
)

module _ (keccak : Bytes → Bytes) where
  -- The used commitments after some submissions.
  unfoldable pub after : List Replayable → List Bytes → List Bytes
  after [] used = used
  after (t ∷ ts) used = after ts (check_transaction keccak t used).1

  -- A submission with the commitment of `x` hashes the same bytes as `x`.
  pub record Avoids (x t : Replayable) : Type 0 where
    pub wide : IsWide t
    pub no_collision :
        compute_commitment keccak t ≡ compute_commitment keccak x
        → t.data_hash ++ (t.did_hash ++ t.signature) ≡ x.data_hash ++ (x.did_hash ++ x.signature)

  contains-step :
      (x t : Replayable) (used : List Bytes)
      → IsWide x
      → Avoids x t
      → contains (compute_commitment keccak x) (check_transaction keccak t used).1
        ≡ (same t x || contains (compute_commitment keccak x) used)
  unfolding check_transaction compute_commitment contains
  contains-step x t used w a = ground (
    arith,
    beq_iff (compute_commitment keccak t) (compute_commitment keccak x),
    same-packed t x a.wide w,
    packed-same t x,
    a.no_collision,
  )

  contains-after :
      (x : Replayable) (ts : List Replayable) (used : List Bytes)
      → IsWide x
      → All (Avoids x) ts
      → contains (compute_commitment keccak x) (after ts used)
        ≡ (submitted x ts || contains (compute_commitment keccak x) used)
  unfolding after submitted
  contains-after x [] used w a = refl
  contains-after x (t ∷ ts) used w (h, a) =
      let step = contains-step x t used w h in
      let rest = contains-after x ts (check_transaction keccak t used).1 w a in
      ground (arith, step, rest)

  -- After any submissions to an empty set of commitments, whose hashes have 32 bytes and none of
  -- which collides with `x`, a transaction `x` is accepted exactly if it was not submitted before;
  -- and right after that it is refused.
  pub check_transaction-submitted :
      (x : Replayable) (ts : List Replayable)
      → IsWide x
      → All (Avoids x) ts
      → let (accepted, used) = check_transaction keccak x (after ts []) in
        (accepted ≡ not (submitted x ts)) × ((check_transaction keccak x used).0 ≡ false)
  unfolding check_transaction contains
  check_transaction-submitted x ts w a =
      let known = contains-after x ts [] w a in
      ground (arith, known, beq_iff (compute_commitment keccak x) (compute_commitment keccak x))

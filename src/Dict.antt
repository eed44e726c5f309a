-- ===== src/Dict.antt =====
-- Python's `dict` with keys of type `bytes` or `str`, in insertion order. The representation is
-- private: clients have `dict_laws`.
use post_quantum_iot_auth.Prelude.{
  ℕ, ◌+◌, ◌≡◌, refl, ◌≢◌, Option, none, some, List, [], ◌∷◌, arith, if◌then◌else◌, Bytes, beq,
  beq_iff, length,
}

pub record Dict {ℓ} (V : Type ℓ) : Type ℓ where
  entries : List (Bytes × V)

module _ {ℓ} {V : Type ℓ} where
  find : Bytes → List (Bytes × V) → Option V
  find k [] = none
  find k ((j, v) ∷ d) = if beq j k then some v else find k d

  write : Bytes → V → List (Bytes × V) → List (Bytes × V)
  write k v [] = (k, v) ∷ []
  write k v ((j, w) ∷ d) = if beq j k then (k, v) ∷ d else (j, w) ∷ write k v d

  without : Bytes → List (Bytes × V) → List (Bytes × V)
  without k [] = []
  without k ((j, w) ∷ d) = let rest = without k d in if beq j k then rest else (j, w) ∷ rest

  -- `{}`
  unfoldable pub empty : Dict V
  empty = record { entries = [] }

  -- `d.get(k)`
  unfoldable pub lookup : Bytes → Dict V → Option V
  unfolding find
  lookup k d = find k d.entries

  -- `d[k] = v`
  unfoldable pub insert : Bytes → V → Dict V → Dict V
  unfolding write
  insert k v d = record { entries = write k v d.entries }

  -- `del d[k]`, where the key is there
  unfoldable pub erase : Bytes → Dict V → Dict V
  unfolding without
  erase k d = record { entries = without k d.entries }

  -- `len(d)`
  unfoldable pub size : Dict V → ℕ
  size d = length d.entries

  find-write :
      (k j : Bytes) (v : V) (d : List (Bytes × V))
      → find j (write k v d) ≡ (if beq k j then some v else find j d)
  unfolding find write
  find-write k j v [] = refl
  find-write k j v ((i, w) ∷ d) =
      ground (arith, beq_iff k j, beq_iff i k, beq_iff i j, find-write k j v d)

  find-without :
      (k j : Bytes) (d : List (Bytes × V))
      → find j (without k d) ≡ (if beq k j then none else find j d)
  unfolding find without
  find-without k j [] = ground arith
  find-without k j ((i, w) ∷ d) =
      ground (arith, beq_iff k j, beq_iff i k, beq_iff i j, find-without k j d)

  length-write :
      (k : Bytes) (v : V) (d : List (Bytes × V))
      → find k d ≡ none
      → length (write k v d) ≡ length d + 1
  unfolding find write
  length-write k v [] h = omega arith
  length-write k v ((i, w) ∷ d) h = ground (arith, length-write k v d)

  pub lookup-empty : (k : Bytes) → lookup k empty ≡ none
  unfolding lookup empty
  lookup-empty k = refl

  pub lookup-insert :
      (k j : Bytes) (v : V) (d : Dict V)
      → lookup j (insert k v d) ≡ (if beq k j then some v else lookup j d)
  unfolding lookup insert
  lookup-insert k j v d = find-write k j v d.entries

  pub lookup-insert_self : (k : Bytes) (v : V) (d : Dict V) → lookup k (insert k v d) ≡ some v
  lookup-insert_self k v d = ground (arith, lookup-insert k k v d, beq_iff k k)

  pub lookup-insert_ne :
      (k j : Bytes) (v : V) (d : Dict V) → k ≢ j → lookup j (insert k v d) ≡ lookup j d
  lookup-insert_ne k j v d h = ground (arith, lookup-insert k j v d, beq_iff k j)

  pub lookup-erase :
      (k j : Bytes) (d : Dict V) → lookup j (erase k d) ≡ (if beq k j then none else lookup j d)
  unfolding lookup erase
  lookup-erase k j d = find-without k j d.entries

  pub size-insert :
      (k : Bytes) (v : V) (d : Dict V) → lookup k d ≡ none → size (insert k v d) ≡ size d + 1
  unfolding lookup insert size
  size-insert k v d h = length-write k v d.entries h

pub ruleset dict_laws = (lookup-empty, lookup-insert, lookup-erase)

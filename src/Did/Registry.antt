-- ===== src/Did/Registry.antt =====
-- The registry of shared/did_utils.py against its abstract view: the set of the DIDs that are
-- registered.
use post_quantum_iot_auth.Prelude.{
  ◌≡◌, ◌↔◌, Bool, true, false, Option, none, some, List, [], ◌∷◌, arith, if◌then◌else◌, Bytes, Text,
  beq, beq_iff, All, refl,
}
use post_quantum_iot_auth.Python.{did_not_found, Result, ok, raised}
use post_quantum_iot_auth.Dict
use post_quantum_iot_auth.Dict.{lookup-empty, lookup-insert, lookup-insert_self, lookup-erase}
use post_quantum_iot_auth.Platform.{Platform}
use post_quantum_iot_auth.Did.{
  Registry, hash_did, did_to_bytes32, register_did, unregister_did, bytes32_to_did, clear_registry,
}

-- One call of a function of the module that changes the registry.
pub data Op : Type 0 where
  convert register unregister : Text → Op
  clear : Op

module _ (P : Platform) where
  -- The registry after a call, whether it returned or raised.
  unfoldable pub apply : Op → Registry → Registry
  apply (convert did) r = (did_to_bytes32 P did r).1
  apply (register did) r = (register_did P did r).1
  apply (unregister did) r = (unregister_did P did r).1
  apply clear r = clear_registry r

  unfoldable pub run : List Op → Registry → Registry
  run [] r = r
  run (op ∷ ops) r = run ops (apply op r)

-- The abstract view: whether `did` is registered after the calls, if it was before them as `was` says.
unfoldable pub is_registered : Text → List Op → Bool → Bool
is_registered did [] was = was
is_registered did (convert d ∷ ops) was = is_registered did ops (if beq d did then true else was)
is_registered did (register d ∷ ops) was = is_registered did ops (if beq d did then true else was)
is_registered did (unregister d ∷ ops) was =
    is_registered did ops (if beq d did then false else was)
is_registered did (clear ∷ ops) was = is_registered did ops false

abbrev pub answer : Text → Bool → Result Text
answer did true = ok did
answer did false = raised did_not_found

abbrev pub entry : Text → Bool → Option Text
entry did true = some did
entry did false = none

module _ (P : Platform) where
  -- No DID of the calls other than `did` has the hash of `did`.
  abbrev pub AvoidsHash : Text → Op → Type 0
  AvoidsHash did (convert d) = hash_did P d ≡ hash_did P did → d ≡ did
  AvoidsHash did (register d) = hash_did P d ≡ hash_did P did → d ≡ did
  AvoidsHash did (unregister d) = hash_did P d ≡ hash_did P did → d ≡ did
  AvoidsHash did clear = Unit

  -- Every entry stands under the hash of its DID.
  pub record IsSound (r : Registry) : Type 0 where
    pub at : (b : Bytes) (d : Text) → Dict.lookup b r ≡ some d → hash_did P d ≡ b

  pub insert-IsSound :
      (d : Text) (r : Registry) → IsSound r → IsSound (Dict.insert (hash_did P d) d r)
  insert-IsSound d r h = record {
    at = λ b e x.
        ground (arith, lookup-insert (hash_did P d) b d r, beq_iff (hash_did P d) b, h.at b e);
  }

  pub apply-IsSound : (op : Op) (r : Registry) → IsSound r → IsSound (apply P op r)
  unfolding apply did_to_bytes32 register_did unregister_did clear_registry
  apply-IsSound (convert d) r h = insert-IsSound d r h
  apply-IsSound (register d) r h = insert-IsSound d r h
  apply-IsSound (unregister d) r h = record {
    at = λ b e x. ground (arith, lookup-erase (hash_did P d) b r, h.at b e);
  }
  apply-IsSound clear r h = record { at = λ b e x. cc (lookup-empty {V = Text} b) }

  pub run-IsSound : (ops : List Op) (r : Registry) → IsSound r → IsSound (run P ops r)
  unfolding run
  run-IsSound [] r h = h
  run-IsSound (op ∷ ops) r h = run-IsSound ops (apply P op r) (apply-IsSound op r h)

  -- Whatever calls were made on an empty registry, a successful look-up of `b` gives a DID with hash `b`.
  pub bytes32_to_did_sound :
      (ops : List Op) (b : Bytes) (d : Text)
      → (bytes32_to_did b (run P ops Dict.empty)).0 ≡ ok d
      → hash_did P d ≡ b
  unfolding bytes32_to_did
  bytes32_to_did_sound ops b d h =
      (run-IsSound ops Dict.empty (record { at = λ c e x. cc (lookup-empty {V = Text} c) })).at b d
        (ground arith)

  lookup-apply :
      (did : Text) (op : Op) (r : Registry) (was : Bool)
      → AvoidsHash did op
      → Dict.lookup (hash_did P did) r ≡ entry did was
      → Dict.lookup (hash_did P did) (apply P op r) ≡ entry did (is_registered did (op ∷ []) was)
  unfolding apply did_to_bytes32 register_did unregister_did clear_registry is_registered
  lookup-apply did (convert d) r was a h = ground (
    arith,
    lookup-insert (hash_did P d) (hash_did P did) d r,
    beq_iff (hash_did P d) (hash_did P did),
    beq_iff d did,
  )
  lookup-apply did (register d) r was a h = ground (
    arith,
    lookup-insert (hash_did P d) (hash_did P did) d r,
    beq_iff (hash_did P d) (hash_did P did),
    beq_iff d did,
  )
  lookup-apply did (unregister d) r was a h = ground (
    arith,
    lookup-erase (hash_did P d) (hash_did P did) r,
    beq_iff (hash_did P d) (hash_did P did),
    beq_iff d did,
  )
  lookup-apply did clear r was a h = lookup-empty {V = Text} (hash_did P did)

  is_registered-cons :
      (did : Text) (op : Op) (ops : List Op) (was : Bool)
      → is_registered did (op ∷ ops) was ≡ is_registered did ops (is_registered did (op ∷ []) was)
  unfolding is_registered
  is_registered-cons did (convert d) ops was = refl
  is_registered-cons did (register d) ops was = refl
  is_registered-cons did (unregister d) ops was = refl
  is_registered-cons did clear ops was = refl

  lookup-run :
      (did : Text) (ops : List Op) (r : Registry) (was : Bool)
      → All (AvoidsHash did) ops
      → Dict.lookup (hash_did P did) r ≡ entry did was
      → Dict.lookup (hash_did P did) (run P ops r) ≡ entry did (is_registered did ops was)
  unfolding run is_registered
  lookup-run did [] r was a h = h
  lookup-run did (op ∷ ops) r was a h =
      rw (is_registered-cons did op ops was)
        (lookup-run did ops (apply P op r) _ a.1 (lookup-apply did op r was a.0 h))

  -- After any calls on an empty registry, none of which is of another DID with the hash of `did`,
  -- the look-up of that hash returns `did` if the abstract view has it, and raises DIDNotFoundError
  -- if not; it changes nothing.
  pub bytes32_to_did-run :
      (did : Text) (ops : List Op)
      → All (AvoidsHash did) ops
      → bytes32_to_did (hash_did P did) (run P ops Dict.empty)
        ≡ (answer did (is_registered did ops false), run P ops Dict.empty)
  unfolding bytes32_to_did
  bytes32_to_did-run did ops a =
      let found = lookup-run did ops Dict.empty false a (lookup-empty {V = Text} _) in
      ground (arith, found)

  -- `unregister_did` raises DIDNotFoundError exactly where the look-up of the hash does, and after it
  -- the look-up raises.
  pub unregister_did-bytes32_to_did :
      (did : Text) (r : Registry)
      → ((unregister_did P did r).0 ≡ raised did_not_found
          ↔ (bytes32_to_did (hash_did P did) r).0 ≡ raised did_not_found)
        × ((bytes32_to_did (hash_did P did) (unregister_did P did r).1).0 ≡ raised did_not_found)
  unfolding unregister_did bytes32_to_did
  unregister_did-bytes32_to_did did r = ground (
    arith,
    lookup-erase (hash_did P did) (hash_did P did) r,
    beq_iff (hash_did P did) (hash_did P did),
  )

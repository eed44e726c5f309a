-- ===== src/Did.antt =====
-- shared/did_utils.py: DID documents, DID generation, and the registry that maps the 32-byte hash
-- of a DID back to it. The registry's lock makes each operation one step.
pub mod Registry
pub mod Document
use post_quantum_iot_auth.Prelude.{
  ℕ, Bool, true, false, not, ◌||◌, Option, none, some, [], ◌∷◌, ◌++◌, if◌then◌else◌, Bytes, Text,
  codes, starts_with, take,
}
use post_quantum_iot_auth.Python.{
  Error, did_not_found, Result, ok, raised, Exec, pure, raise, or_raise, ◌>>=◌,
}
use post_quantum_iot_auth.Python.Text.{hex, fromhex, encode}
use post_quantum_iot_auth.Dict
use post_quantum_iot_auth.Dict.{Dict}
use post_quantum_iot_auth.Platform.{Platform}

abbrev pub did_prefix : Text
did_prefix = codes "did:falconiot:"

abbrev pub did_identifier_length : ℕ
did_identifier_length = 32

abbrev pub is_empty : Text → Bool
is_empty [] = true
is_empty (c ∷ cs) = false

module _ (P : Platform) where
  open P use {Float, World, time, urandom, sha256}

  -- `DIDDocument`
  pub record DidDocument : Type 0 where
    pub did : Text
    pub public_key : Bytes
    pub created_at : Float
    pub active : Bool

  -- The dictionary that `to_dict` makes; its key is in hexadecimal.
  pub record DocumentDict : Type 0 where
    pub did : Text
    pub public_key : Text
    pub created_at : Float
    pub active : Bool

  unfoldable pub to_dict : DidDocument → DocumentDict
  to_dict d = record {
    did = d.did;
    public_key = hex d.public_key;
    created_at = d.created_at;
    active = d.active;
  }

  abbrev from_parts : DocumentDict → Result Bytes → Result DidDocument
  from_parts d (ok key) =
      ok (record { did = d.did; public_key = key; created_at = d.created_at; active = d.active })
  from_parts d (raised e) = raised e

  unfoldable pub from_dict : DocumentDict → Result DidDocument
  from_dict d = from_parts d (fromhex d.public_key)

  abbrev raw_identifier : Option Bytes → World → Text × World
  raw_identifier (some seed) w = (take did_identifier_length (hex (sha256 seed)), w)
  raw_identifier none w =
      let (bytes, w') = urandom 17 w in (take did_identifier_length (hex bytes), w')

  abbrev with_namespace : Option Text → Text → Text
  with_namespace (some namespace) raw = did_prefix ++ (namespace ++ (codes ":" ++ raw))
  with_namespace none raw = did_prefix ++ raw

  unfoldable pub generate_did : Option Text → Option Bytes → World → Text × World
  generate_did namespace seed w =
      let (raw, w') = raw_identifier seed w in (with_namespace namespace raw, w')

  unfoldable pub create_did_document : Text → Bytes → World → DidDocument × World
  create_did_document did public_key w =
      let (now, w') = time w in
      (record { did = did; public_key = public_key; created_at = now; active = true }, w')

  unfoldable pub verify_did_document : DidDocument → Bool
  verify_did_document doc =
      if is_empty doc.did || not (starts_with (codes "did:") doc.did)
      then false
      else if is_empty doc.public_key
      then false
      else if not doc.active
      then false
      else true

  -- `_hash_did`
  unfoldable pub hash_did : Text → Bytes
  hash_did did = sha256 (encode did)

-- `_did_registry`
abbrev pub Registry : Type 0
Registry = Dict Text

module _ (P : Platform) where
  unfoldable pub did_to_bytes32 : Text → Registry → Bytes × Registry
  did_to_bytes32 did registry = let b32 = hash_did P did in (b32, Dict.insert b32 did registry)

  unfoldable pub register_did : Text → Registry → Bytes × Registry
  register_did did registry = did_to_bytes32 did registry

  unfoldable pub unregister_did : Text → Exec Registry (Unit {0})
  unregister_did did registry =
      let b32 = hash_did P did in
      elim (Dict.lookup b32 registry) [
        | none ↦ (raised did_not_found, registry)
        | some _ ↦ (ok tt, Dict.erase b32 registry)
      ]

unfoldable pub bytes32_to_did : Bytes → Exec Registry Text
bytes32_to_did b32 registry = or_raise (Dict.lookup b32 registry) did_not_found registry

unfoldable pub clear_registry : Registry → Registry
clear_registry registry = Dict.empty

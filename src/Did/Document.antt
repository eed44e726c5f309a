-- ===== src/Did/Document.antt =====
-- DID documents of shared/did_utils.py: serialisation, validation, and the DIDs that are generated.
use post_quantum_iot_auth.Prelude.{
  ℕ, ◌+◌, ◌≡◌, ◌≢◌, ◌↔◌, refl, true, Option, none, some, [], ◌++◌, arith, Bytes, Text, codes,
  starts_with, All, length, take, length-take, length-append, not,
}
use post_quantum_iot_auth.Python.{ok}
use post_quantum_iot_auth.Python.Text.{hex, length-hex, fromhex-hex, IsByte}
use post_quantum_iot_auth.Platform.{Platform, IsDocumented}
use post_quantum_iot_auth.Did.{
  DidDocument, to_dict, from_dict, generate_did, create_did_document, verify_did_document,
  did_prefix, is_empty,
}

module _ (P : Platform) where
  -- Deserialising what `to_dict` made of a document, whose key consists of bytes, gives it back.
  pub from_dict-to_dict :
      (d : DidDocument P) → All IsByte d.public_key → from_dict P (to_dict P d) ≡ ok d
  unfolding from_dict to_dict
  from_dict-to_dict d h = rw (fromhex-hex d.public_key h) refl

  -- `verify_did_document` accepts exactly the active documents with a key whose DID starts with "did:".
  pub verify_did_document_iff :
      (d : DidDocument P)
      → (verify_did_document P d ≡ true)
        ↔ ((starts_with (codes "did:") d.did ≡ true) × (d.public_key ≢ []) × (d.active ≡ true))
  unfolding verify_did_document starts_with
  verify_did_document_iff d = ground arith

  -- A document made for a generated DID, with or without a namespace and a seed, is valid exactly if
  -- its key is not empty.
  pub verify_did_document-generate_did :
      (namespace : Option Text) (seed : Option Bytes) (key : Bytes) (w v : P.World)
      → verify_did_document P (create_did_document P (generate_did P namespace seed w).0 key v).0
        ≡ not (is_empty key)
  unfolding verify_did_document create_did_document generate_did starts_with
  verify_did_document-generate_did none none key w v = ground arith
  verify_did_document-generate_did none (some s) key w v = ground arith
  verify_did_document-generate_did (some n) none key w v = ground arith
  verify_did_document-generate_did (some n) (some s) key w v = ground arith

-- The characters that a namespace adds, its colon included.
unfoldable pub namespace_size : Option Text → ℕ
namespace_size none = 0
namespace_size (some n) = length n + 1

module _ (P : Platform) (doc : IsDocumented P) where
  raw_of_seed : (s : Bytes) → length (take 32 (hex (P.sha256 s))) ≡ 32
  raw_of_seed s =
      omega (arith, length-take 32 (hex (P.sha256 s)), length-hex (P.sha256 s), doc.sha256_size s)

  raw_of_random : (w : P.World) → length (take 32 (hex (P.urandom 17 w).0)) ≡ 32
  raw_of_random w = omega (
    arith,
    length-take 32 (hex (P.urandom 17 w).0),
    length-hex (P.urandom 17 w).0,
    doc.urandom_size 17 w,
  )

  -- With hashes of 32 bytes and `urandom(n)` of n, a generated DID has the 14 characters of the method's prefix, the namespace with its colon if
  -- there is one, and 32 more.
  pub length-generate_did :
      (namespace : Option Text) (seed : Option Bytes) (w : P.World)
      → (length (generate_did P namespace seed w).0 ≡ 46 + namespace_size namespace)
        × (starts_with did_prefix (generate_did P namespace seed w).0 ≡ true)
  unfolding generate_did namespace_size starts_with
  length-generate_did none none w = ground (arith, raw_of_random w)
  length-generate_did none (some s) w = ground (arith, raw_of_seed s)
  length-generate_did (some n) none w =
      ground
        (arith, length-append n (codes ":" ++ take 32 (hex (P.urandom 17 w).0)), raw_of_random w)
  length-generate_did (some n) (some s) w =
      ground (arith, length-append n (codes ":" ++ take 32 (hex (P.sha256 s))), raw_of_seed s)

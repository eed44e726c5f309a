-- ===== src/Tests/Toy.antt =====
-- A platform whose clock counts its readings and whose digest is a checksum, an Ed25519 whose keys are
-- numbers, and a web3 whose every
-- call is mined.
use post_quantum_iot_auth.Prelude.{
  ℕ, ◌+◌, ◌-◌, ◌*◌, ◌/◌, ◌%◌, ◌≡◌, refl, true, false, ◌&&◌, [], ◌∷◌, arith, Bytes, ltb, leb, ◌==◌,
  if◌then◌else◌, replicate, length-replicate,
}
use post_quantum_iot_auth.Python.{Result, ok, raised, library_error, import_error, value_error}
use post_quantum_iot_auth.Platform.{Platform, IsDocumented}
use post_quantum_iot_auth.Falcon.{Flags}
use post_quantum_iot_auth.Hardhat.Client.{Web3, raw}
use post_quantum_iot_auth.Falcon.Crypto.{Libraries, IsEd25519}

abbrev pub checksum : ℕ → Bytes → ℕ
checksum acc [] = acc
checksum acc (b ∷ bs) = checksum ((acc * 31 + b + 1) % 256) bs

abbrev pub toy : Platform
toy = record {
  Float = ℕ;
  float = λ n. n;
  add = λ a b. a + b;
  sub = λ a b. a - b;
  mul = λ a b. a * b;
  div = λ a b. a / b;
  lt = ltb;
  le = leb;
  trunc = λ n. n;
  show_float = λ n. n ∷ [];
  World = ℕ;
  perf_counter = λ w. (w, w + 1);
  time = λ w. (w, w + 1);
  uuid4 = λ w. (w ∷ [], w + 1);
  urandom = λ n w. (replicate n 7, w + 1);
  Rng = ℕ;
  seeded = λ n. n;
  uniform = λ a b r. (a, r + 1);
  sha256 = λ b. checksum 7 b ∷ replicate 31 0;
}

pub toy-IsDocumented : IsDocumented toy
toy-IsDocumented = record { sha256_size = λ b. refl; urandom_size = λ n w. length-replicate n 7 }

abbrev pub head_or_zero : Bytes → ℕ
head_or_zero [] = 0
head_or_zero (b ∷ bs) = b

abbrev pub second_or_zero : Bytes → ℕ
second_or_zero [] = 0
second_or_zero (b ∷ bs) = head_or_zero bs

abbrev pub toy_libraries : Libraries toy
toy_libraries = record {
  is_linux = true;
  import_oqs = raised library_error;
  import_pqcrypto = raised import_error;
  oqs_generate_keypair = λ seed w. (raised library_error, w);
  oqs_sign = λ key m w. (raised library_error, w);
  oqs_verify = λ m s key. raised library_error;
  pq_generate_keypair = λ w. (raised library_error, w);
  pq_sign = λ key m w. (raised library_error, w);
  pq_verify = λ key m s. raised library_error;
  PrivateKey = ℕ;
  PublicKey = ℕ;
  from_private_bytes = λ b. ok (head_or_zero b);
  generate = λ w. (w, w + 1);
  private_bytes_raw = λ k. k ∷ replicate 31 0;
  public_key = λ k. k;
  public_bytes_raw = λ k. k ∷ replicate 31 0;
  sign = λ k m. k ∷ checksum 0 m ∷ replicate 62 0;
  from_public_bytes = λ b. ok (head_or_zero b);
  verify = λ k s m.
      if head_or_zero s == k && second_or_zero s == checksum 0 m then ok tt else raised value_error;
}

toy_accepts :
    (k c : ℕ)
    → ◌≡◌ {A = Result (Unit {0})} (if k == k && c == c then ok tt else raised value_error) (ok tt)
toy_accepts k c = ground arith

pub toy-IsEd25519 : IsEd25519 toy toy_libraries
toy-IsEd25519 = record {
  private_size = λ k. refl;
  public_size = λ k. refl;
  signature_size = λ k m. refl;
  read_private = λ k. refl;
  read_public = λ k. refl;
  any_private = λ b h. (head_or_zero b, refl);
  accepts = λ k m. toy_accepts k (checksum 0 m);
}

-- the simulation backend
abbrev pub simulated : Flags
simulated = record { oqs_available = false; pqcrypto_available = false }

-- its one contract is every contract; a receipt's hash and block are the state of the clock
abbrev pub toy_web3 : Web3 toy
toy_web3 = record {
  Contract = Unit;
  is_connected = λ w. (true, w);
  accounts = λ w. ((0 ∷ []) ∷ (1 ∷ []) ∷ (2 ∷ []) ∷ [], w);
  load_artifact = λ name. ok tt;
  deploy = λ name arg sender w.
      (ok (record { contract = tt; address = w ∷ []; gas_used = 500000 }), w + 1);
  transact = λ contract call sender w.
      (ok (record { transaction_hash = w ∷ []; gas_used = 70000; block_number = w }), w + 1);
  keccak = λ b. checksum 9 b ∷ replicate 31 0;
  address_of = λ key. ok (head_or_zero key ∷ []);
  sign_hash = λ hash key. ok (record { v = 27; r = raw hash; s = raw key });
}

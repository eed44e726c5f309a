-- ===== src/Tests/ToyEcdsa.antt =====
-- An ECDSA with two keys, whose signature is the key's number with a checksum of the message; and what
-- the benchmark reads of a machine.
use post_quantum_iot_auth.Prelude.{
  ℕ, ◌+◌, ◌*◌, ◌%◌, ◌^◌, ◌<◌, ◌≡◌, refl, Bool, true, false, ◌&&◌, some, [], ◌∷◌, arith, Bytes, ltb,
  ◌==◌, if◌then◌else◌, replicate,
}
use post_quantum_iot_auth.Python.{Result, ok, raised, import_error, value_error}
use post_quantum_iot_auth.Ecdsa.{Ecdsa, IsEcdsa}
use post_quantum_iot_auth.Benchmark.Crypto.{MlDsa, Dilithium, Profiler}
use post_quantum_iot_auth.Benchmark.Environment.{Host}
use post_quantum_iot_auth.Tests.Toy.{toy, checksum, head_or_zero, second_or_zero}

abbrev key_number : Bool → ℕ
key_number false = 1
key_number true = 2

abbrev pub toy_ecdsa : Ecdsa toy
toy_ecdsa = record {
  PrivateKey = Bool;
  PublicKey = Bool;
  generate = λ w. (ltb 3 w, w + 1);
  derive = λ n. ok (n == 2);
  private_value = λ k. key_number k;
  public_key = λ k. k;
  public_bytes = λ k. 4 ∷ key_number k ∷ replicate 63 0;
  from_encoded_point = λ b. ok (second_or_zero b == 2);
  sign = λ k m w. (key_number k ∷ checksum 0 m ∷ [], w + 1);
  verify = λ k s m.
      if head_or_zero s == key_number k && second_or_zero s == checksum 0 m
      then ok tt
      else raised value_error;
  encode_dss = λ r s. r ∷ s ∷ [];
  decode_dss = λ b. ok (head_or_zero b, second_or_zero b);
}

checksum-lt : (acc : ℕ) (m : Bytes) → acc < 256 → checksum acc m < 256
checksum-lt acc [] h = h
checksum-lt acc (b ∷ m) h = checksum-lt ((acc * 31 + b + 1) % 256) m (omega arith)

toy_accepts :
    (k c : ℕ)
    → ◌≡◌ {A = Result (Unit {0})} (if k == k && c == c then ok tt else raised value_error) (ok tt)
toy_accepts k c = ground arith

key_number_bound : (k : Bool) → key_number k < 2 ^ 256
key_number_bound true = omega arith
key_number_bound false = omega arith

read_number : (k : Bool) → ◌≡◌ {A = Result Bool} (ok (key_number k == 2)) (ok k)
read_number true = refl
read_number false = refl

pub toy-IsEcdsa : IsEcdsa toy toy_ecdsa
toy-IsEcdsa = record {
  value_bound = key_number_bound;
  derive_value = read_number;
  point = λ k. (key_number k ∷ replicate 63 0, refl, refl);
  read_point = read_number;
  numbers = λ k m w.
      (key_number k, checksum 0 m, refl, key_number_bound k, omega (arith, checksum-lt 0 m), refl);
  accepts = λ k m w. toy_accepts (key_number k) (checksum 0 m);
}

abbrev absent : MlDsa toy
absent = record {
  generate_keypair = λ w. (raised import_error, w);
  sign = λ key m w. (raised import_error, w);
  verify = λ key m s. raised import_error;
}

abbrev pub toy_dilithium : Dilithium toy
toy_dilithium = record {
  ml_dsa_44 = absent;
  ml_dsa_65 = absent;
  oqs_keypair = λ name w. (raised import_error, w);
  oqs_sign = λ name key m w. (raised import_error, w);
  oqs_verify = λ name m s key. raised import_error;
}

abbrev pub toy_profiler : Profiler toy
toy_profiler = record {
  start = λ w. w;
  stop = λ w. w;
  perf_counter_ns = λ w. (w, w + 1);
  peak = λ w. (2048, w);
}

-- a machine without control groups
abbrev pub toy_host : Host toy
toy_host = record {
  exists = λ path. false;
  read = λ path. raised import_error;
  cpu_count = some 8;
  true_div = λ a b. raised value_error;
}

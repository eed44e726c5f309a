-- ===== src/Falcon/Padding.antt =====
-- `_deterministic_pad` of shared/falcon_utils.py ends, and its result has the size that is asked for.
use post_quantum_iot_auth.Prelude.{
  ℕ, zero, suc, ◌+◌, ◌-◌, ◌^◌, ◌≤◌, ◌<◌, ◌≡◌, refl, ◌∙◌, true, ◌++◌, arith, ltb, Bytes, take,
  length, length-append, length-take, take-append, take-take, Bool-cases, inl, inr,
}
use post_quantum_iot_auth.Python.{Result, ok}
use post_quantum_iot_auth.Platform.{Platform, IsDocumented}
use post_quantum_iot_auth.Falcon.Simulation.{to_bytes, pad_loop, deterministic_pad}

below_limit :
    (counter target size : ℕ)
    → counter + target ≤ 2 ^ 32 + size
    → ltb size target ≡ true
    → ltb counter (2 ^ 32) ≡ true
below_limit counter target size small short = ground arith

-- What a padded byte string is: of the size `n`, with the bytes of `b` in front as far as they fit.
pub record IsPadded (b : Bytes) (n : ℕ) (r : Result Bytes) : Type 0 where
  pub value : Bytes
  pub returned : r ≡ ok value
  pub size : length value ≡ n
  pub keeps : (k : ℕ) → k ≤ length b → k ≤ n → take k value ≡ take k b

-- A longer start of the same bytes keeps what a shorter one has.
IsPadded-append : (b c : Bytes) (n : ℕ) (r : Result Bytes) → IsPadded (b ++ c) n r → IsPadded b n r
IsPadded-append b c n r p = record {
  value = p.value;
  returned = p.returned;
  size = p.size;
  keeps = λ k h j. p.keeps k (omega (arith, length-append b c)) j ∙ take-append k b c h;
}

module _ (P : Platform) (doc : IsDocumented P) where
  length-round :
      (label buf : Bytes) (counter : ℕ)
      → length (buf ++ P.sha256 (label ++ to_bytes counter)) ≡ length buf + 32
  length-round label buf counter = omega (
    arith,
    length-append buf (P.sha256 (label ++ to_bytes counter)),
    doc.sha256_size (label ++ to_bytes counter),
  )

  -- With the bytes that are missing below the fuel, the loop ends by its test.
  pad_loop-IsPadded :
      (fuel : ℕ) (label : Bytes) (target counter : ℕ) (buf : Bytes)
      → target - length buf < fuel
      → counter + target ≤ 2 ^ 32 + length buf
      → IsPadded buf target (pad_loop P fuel label target counter buf)
  unfolding pad_loop
  pad_loop-IsPadded zero label target counter buf enough small = absurd (omega arith)
  pad_loop-IsPadded (suc fuel) label target counter buf enough small =
      let more = P.sha256 (label ++ to_bytes counter) in
      let grown = length-round label buf counter in
      elim (Bool-cases (ltb (length buf) target)) [
        | inl short ↦
            rw (short, below_limit counter target (length buf) small short)
              (IsPadded-append buf more target _ (
                pad_loop-IsPadded fuel label target (counter + 1) (buf ++ more) (ground arith)
                  (omega arith)))
        | inr long ↦ rw long (record {
          value = take target buf;
          returned = refl;
          size = ground (arith, length-take target buf);
          keeps = λ k h j. take-take k target buf j;
        })
      ]

  -- With hashes of 32 bytes, for sizes up to 2 ^ 32 padding returns: exactly as many bytes as asked for, the data in front.
  pub deterministic_pad-IsPadded :
      (b label : Bytes) (n : ℕ) → n ≤ 2 ^ 32 → IsPadded b n (deterministic_pad P b label n)
  unfolding deterministic_pad
  deterministic_pad-IsPadded b label n h =
      pad_loop-IsPadded (suc n) label n 0 b (omega arith) (omega arith)

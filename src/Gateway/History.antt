-- ===== src/Gateway/History.antt =====
-- What a gateway has forwarded and what it has counted, after any deliveries and collections.
use post_quantum_iot_auth.Prelude.{
  ℕ, suc, ◌+◌, ◌≡◌, refl, ◌∙◌, sym, ap, Bool, true, false, List, [], ◌∷◌, ◌++◌, map, arith, Bytes,
  Text, length, length-append, inl, inr,
}
use mathlib.Core.List.{append_assoc, map-append, append-nil}
use post_quantum_iot_auth.Python.{Result, ok, Verdict-cases}
use post_quantum_iot_auth.Python.Text.{hex}
use post_quantum_iot_auth.Platform.{Platform}
use post_quantum_iot_auth.Falcon.{Flags, falcon_verify}
use post_quantum_iot_auth.Falcon.Crypto.{Libraries}
use post_quantum_iot_auth.Gateway.{Gateway, GatewayResult, get_batch, relay_data}

-- A delivery by a device (its DID and key, a payload and its signature), or a call of `get_batch`.
pub data Event : Type 0 where
  deliver : Text → Bytes → Bytes → Bytes → Event
  collect : Event

module _ (P : Platform) (L : Libraries P) (f : Flags) where
  abbrev State : Type 0
  State = Gateway P × P.World

  -- What an event hands to the caller of `get_batch`, and the state after it.
  unfoldable pub step : Event → State → List (GatewayResult P) × State
  step (deliver did key payload signature) s =
      ([], (relay_data P L f did key payload signature s).1)
  step collect (g, w) = let (batch, g') = get_batch P g in (batch, (g', w))

  -- All that `get_batch` has returned, and the last state.
  unfoldable pub run : List Event → State → List (GatewayResult P) × State
  run [] s = ([], s)
  run (e ∷ es) s = let (first, s₁) = step e s in let (rest, s₂) = run es s₁ in (first ++ rest, s₂)

  abbrev pub forward_if : Result Bool → Text × Text → List (Text × Text) → List (Text × Text)
  forward_if (ok true) item rest = item ∷ rest
  forward_if _ item rest = rest

  abbrev pub refuse_if : Result Bool → ℕ → ℕ
  refuse_if (ok false) rest = suc rest
  refuse_if _ rest = rest

  -- What the events should forward: the DID and the payload's hash of each delivery whose signature
  -- verifies, in order.
  unfoldable pub forwarded : List Event → List (Text × Text)
  forwarded [] = []
  forwarded (collect ∷ es) = forwarded es
  forwarded (deliver did key payload signature ∷ es) =
      forward_if (falcon_verify P L f payload signature key) (did, hex (P.sha256 payload))
        (forwarded es)

  -- The deliveries whose signature is refused.
  unfoldable pub refused : List Event → ℕ
  refused [] = 0
  refused (collect ∷ es) = refused es
  refused (deliver did key payload signature ∷ es) =
      refuse_if (falcon_verify P L f payload signature key) (refused es)

  abbrev pub named : GatewayResult P → Text × Text
  named r = (r.device_did, r.data_hash)

  -- one event
  abbrev IsStep : Event → State → List (GatewayResult P) × State → Type 0
  IsStep e s out =
      (map named (out.0 ++ out.1.0.batch) ≡ map named s.0.batch ++ forwarded (e ∷ []))
      × (out.1.0.relayed_count ≡ s.0.relayed_count + length (forwarded (e ∷ [])))
      × (out.1.0.failed_count ≡ s.0.failed_count + refused (e ∷ []))

  step-IsStep : (e : Event) (s : State) → IsStep e s (step e s)
  unfolding step relay_data get_batch forwarded refused
  step-IsStep (deliver did key payload signature) (g, w) =
      elim (Verdict-cases (falcon_verify P L f payload signature key)) [
        | inl good ↦ rw good (map-append named g.batch _, omega arith, omega arith)
        | inr (inl bad) ↦ rw bad (sym (append-nil _), omega arith, omega arith)
        | inr (inr (e, failed)) ↦ rw failed (sym (append-nil _), omega arith, omega arith)
      ]
  step-IsStep collect (g, w) =
      (ap (map named) (append-nil g.batch) ∙ sym (append-nil _), omega arith, omega arith)

  forwarded-cons :
      (e : Event) (es : List Event) → forwarded (e ∷ es) ≡ forwarded (e ∷ []) ++ forwarded es
  unfolding forwarded
  forwarded-cons (deliver did key payload signature) es =
      elim (Verdict-cases (falcon_verify P L f payload signature key)) [
        | inl good ↦ rw good refl
        | inr (inl bad) ↦ rw bad refl
        | inr (inr (e, failed)) ↦ rw failed refl
      ]
  forwarded-cons collect es = refl

  refused-cons : (e : Event) (es : List Event) → refused (e ∷ es) ≡ refused (e ∷ []) + refused es
  unfolding refused
  refused-cons (deliver did key payload signature) es =
      elim (Verdict-cases (falcon_verify P L f payload signature key)) [
        | inl good ↦ rw good (omega arith)
        | inr (inl bad) ↦ rw bad (omega arith)
        | inr (inr (e, failed)) ↦ rw failed (omega arith)
      ]
  refused-cons collect es = omega arith

  -- After any deliveries and collections, what `get_batch` has returned and what still waits is, in
  -- order, what waited before and then the DID and payload hash of exactly the deliveries whose
  -- signature verifies.
  pub forwarded-run :
      (es : List Event) (s : State)
      → map named ((run es s).0 ++ (run es s).1.0.batch) ≡ map named s.0.batch ++ forwarded es
  unfolding run forwarded
  forwarded-run [] s = sym (append-nil _)
  forwarded-run (e ∷ es) s =
      let (first, s₁) = step e s in
      let (rest, s₂) = run es s₁ in
      ap (map named) (append_assoc first rest s₂.0.batch)
      ∙ map-append named first (rest ++ s₂.0.batch)
      ∙ ap (λ t. map named first ++ t) (forwarded-run es s₁)
      ∙ sym (append_assoc (map named first) (map named s₁.0.batch) (forwarded es))
      ∙ ap (λ t. t ++ forwarded es) (sym (map-append named first s₁.0.batch) ∙ (step-IsStep e s).0)
      ∙ append_assoc (map named s.0.batch) (forwarded (e ∷ [])) (forwarded es)
      ∙ ap (λ t. map named s.0.batch ++ t) (sym (forwarded-cons e es))

  -- The two counters go up by one for each delivery that verifies and for each that is refused; a
  -- delivery whose verification raises counts as neither.
  pub counts-run :
      (es : List Event) (s : State)
      → ((run es s).1.0.relayed_count ≡ s.0.relayed_count + length (forwarded es))
        × ((run es s).1.0.failed_count ≡ s.0.failed_count + refused es)
  unfolding run
  counts-run [] s = unfold forwarded refused in (omega arith, omega arith)
  counts-run (e ∷ es) s =
      let s₁ = (step e s).1 in
      let (one, relayed, failed) = step-IsStep e s in
      let (more, others) = counts-run es s₁ in
      (
        omega (
          arith,
          relayed,
          more,
          ap (λ (l : List (Text × Text)). length l) (forwarded-cons e es),
          length-append (forwarded (e ∷ [])) (forwarded es),
        ),
        omega (arith, failed, others, refused-cons e es),
      )

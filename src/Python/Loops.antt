-- ===== src/Python/Loops.antt =====
-- `for` loops over methods that may raise, and the rules for their total correctness.
use post_quantum_iot_auth.Prelude.{
  ℕ, zero, suc, ◌+◌, ◌*◌, ◌≡◌, List, [], ◌∷◌, arith, length, All, subst, sym, refl,
}
use post_quantum_iot_auth.Python.{Result, ok, raised, Exec, pure, ◌>>=◌, ◌>>◌, bind-ok}

module _ {ℓ} {S : Type ℓ} where
  -- `for _ in range(n): m`
  unfoldable pub repeat : ℕ → Exec S Unit → Exec S Unit
  repeat zero m = pure tt
  repeat (suc n) m = m >> repeat n m

  -- `for x in xs: m x`
  unfoldable pub for_each : {A : Type ℓ} → List A → (A → Exec S Unit) → Exec S Unit
  for_each [] m = pure tt
  for_each (x ∷ xs) m = m x >> for_each xs m

module _ {ℓ} {S A : Type ℓ} where
  -- The call returned, with a value and a state that `Q` holds of.
  abbrev pub Returns : Result A × S → (A → S → Type 0) → Type 0
  Returns (ok a, s) Q = Q a s
  Returns (raised e, s) Q = ⊥

module _ {ℓ} {S A B : Type ℓ} where
  Returns-continue :
      (r : Result A) (s : S) (f : A → Exec S B) (Q : B → S → Type 0)
      → Returns (r, s) (λ a t. Returns (f a t) Q)
      → Returns (((λ (t : S). (r, t)) >>= f) s) Q
  Returns-continue (ok a) s f Q h = h
  Returns-continue (raised e) s f Q h = absurd h

  -- A sequence returns if its first part returns to a state from which the rest does.
  pub Returns-bind :
      (m : Exec S A) (f : A → Exec S B) (s : S) (Q : B → S → Type 0)
      → Returns (m s) (λ a t. Returns (f a t) Q)
      → Returns ((m >>= f) s) Q
  Returns-bind m f s Q h = Returns-continue (m s).0 (m s).1 f Q h

module _ {ℓ} {S A : Type ℓ} where
  pub Returns-weaken :
      (r : Result A) (s : S) (Q R : A → S → Type 0)
      → ((a : A) (t : S) → Q a t → R a t)
      → Returns (r, s) Q
      → Returns (r, s) R
  Returns-weaken (ok a) s Q R k h = k a s h
  Returns-weaken (raised e) s Q R k h = absurd h

module _ {ℓ} {S : Type ℓ} (I : ℕ → S → Type 0) where
  -- One round takes the invariant from its count to the next.
  abbrev pub Advances : ℕ → Exec S Unit → Type ℓ
  Advances n m = (k : ℕ) (s : S) → I k s → Returns (m s) (λ _ t. I (k + n) t)

  pub repeat-Advances : (n : ℕ) (m : Exec S Unit) → Advances 1 m → Advances n (repeat n m)
  unfolding repeat
  repeat-Advances zero m step k s h = let e : k ≡ k + 0 = omega arith in subst (λ j. I j s) e h
  repeat-Advances (suc n) m step k s h =
      Returns-bind m (λ _. repeat n m) s _
        (Returns-weaken (m s).0 (m s).1 (λ _ t. I (k + 1) t) _
          (λ _ t h'.
            let e : k + 1 + n ≡ k + suc n = omega arith in
            subst (λ j. Returns (repeat n m t) (λ _ u. I j u)) e
              (repeat-Advances n m step (k + 1) t h'))
          (step k s h))

  pub for_each-Advances :
      {A : Type ℓ} (xs : List A) (n : ℕ) (m : A → Exec S Unit)
      → All (λ x. Advances n (m x)) xs
      → Advances (length xs * n) (for_each xs m)
  unfolding for_each
  for_each-Advances [] n m a k s h = let e : k ≡ k + 0 * n = omega arith in subst (λ j. I j s) e h
  for_each-Advances (x ∷ xs) n m (first, rest) k s h =
      Returns-bind (m x) (λ _. for_each xs m) s _
        (Returns-weaken (m x s).0 (m x s).1 (λ _ t. I (k + n) t) _
          (λ _ t h'.
            let e : k + n + length xs * n ≡ k + suc (length xs) * n = omega arith in
            subst (λ j. Returns (for_each xs m t) (λ _ u. I j u)) e
              (for_each-Advances xs n m rest (k + n) t h'))
          (first k s h))

module _ {ℓ} {S A B : Type ℓ} where
  -- The same where the first value is known.
  pub Returns-ok :
      (m : Exec S A) (f : A → Exec S B) (s : S) (Q : B → S → Type 0) {a : A}
      → (m s).0 ≡ ok a
      → Returns (f a (m s).1) Q
      → Returns ((m >>= f) s) Q
  Returns-ok m f s Q e h = subst (λ (o : Result B × S). Returns o Q) (sym (bind-ok m f s e)) h

  -- The same where the state after the first part is known too.
  pub Returns-run :
      (m : Exec S A) (f : A → Exec S B) (s : S) (Q : B → S → Type 0) {a : A} {t : S}
      → m s ≡ (ok a, t)
      → Returns (f a t) Q
      → Returns ((m >>= f) s) Q
  Returns-run m f s Q {a} {t} e h =
      Returns-bind m f s Q
        (subst (λ (o : Result A × S). Returns o (λ b u. Returns (f b u) Q)) (sym e) h)

module _ {ℓ} {S A : Type ℓ} where
  -- What is known of the state, whether the call returned or not, is added.
  pub Returns_state :
      (r : Result A) (s : S) (Q : A → S → Type 0) (R : S → Type 0)
      → R s
      → Returns (r, s) Q
      → Returns (r, s) (λ a t. Q a t × R t)
  Returns_state (ok a) s Q R k h = (h, k)
  Returns_state (raised e) s Q R k h = absurd h

  pub Returns_value :
      (r : Result A) (s : S) (Q : A → S → Type 0) → Returns (r, s) Q → (a : A) × (r ≡ ok a) × Q a s
  Returns_value (ok a) s Q h = (a, refl, h)
  Returns_value (raised e) s Q h = absurd h

  pub Returns_of :
      (r : Result A) (s : S) (Q : A → S → Type 0) {a : A} → r ≡ ok a → Q a s → Returns (r, s) Q
  Returns_of r s Q e h = subst (λ (o : Result A). Returns (o, s) Q) (sym e) h

module _ {ℓ} {S T A : Type ℓ} where
  -- A property of the value alone does not depend on the state.
  pub Returns_move :
      (r : Result A) (s : S) (t : T) (R : A → Type 0)
      → Returns (r, s) (λ a _. R a)
      → Returns (r, t) (λ a _. R a)
  Returns_move (ok a) s t R h = h
  Returns_move (raised e) s t R h = absurd h

module _ {ℓ} {S A B : Type ℓ} where
  -- A sequence whose first part returns, with what is known of its value and state.
  pub Returns_then :
      (m : Exec S A) (f : A → Exec S B) (s : S) (R : A → S → Type 0) (Q : B → S → Type 0)
      → Returns (m s) R
      → ((a : A) (t : S) → R a t → Returns (f a t) Q)
      → Returns ((m >>= f) s) Q
  Returns_then m f s R Q h k =
      Returns-bind m f s Q (Returns-weaken (m s).0 (m s).1 R (λ a t. Returns (f a t) Q) k h)

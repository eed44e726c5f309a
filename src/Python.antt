-- ===== src/Python.antt =====
-- Methods that change state and may raise, as the Python files of the repository write them. What
-- was written before an exception stays written, so the state comes back beside the error too.
pub mod Text
pub mod Loops
pub mod Integers
pub mod Numerals
pub mod Lines
use post_quantum_iot_auth.Prelude.{
  Option, none, some, Bool, true, false, ◌≡◌, ◌⊎◌, inl, inr, refl, ap, ◌∙◌,
}

-- The exceptions that the modelled code raises or lets through. `library_error` is one that comes
-- out of a third-party package, `out_of_fuel` is that of a loop of the model which ran out of rounds.
pub data Error : Type 0 where
  did_not_found type_error attribute_error value_error overflow_error connection_error
        library_error :
      Error
  index_error import_error unbound_local out_of_fuel assertion_error key_error zero_division_error :
      Error

pub data Result {ℓ} (A : Type ℓ) : Type ℓ where
  ok : A → Result A
  raised : Error → Result A

abbrev pub Exec {ℓ} : Type ℓ → Type ℓ → Type ℓ
Exec S A = S → Result A × S

module _ {ℓ} {S A : Type ℓ} where
  abbrev pub pure : A → Exec S A
  pure a s = (ok a, s)

  abbrev pub raise : Error → Exec S A
  raise e s = (raised e, s)

  abbrev pub lift : Result A → Exec S A
  lift r s = (r, s)

  -- A call that cannot raise.
  abbrev pub call : (S → A × S) → Exec S A
  call f s = let (a, s') = f s in (ok a, s')

  -- `d[k]`, `x.f` and the like where the value is missing.
  abbrev pub or_raise : Option A → Error → Exec S A
  or_raise none e s = (raised e, s)
  or_raise (some a) e s = (ok a, s)

-- `try: m  except Exception: h`.
abbrev pub catch_all {ℓ} : {A : Type ℓ} → Result A → A → A
catch_all (ok a) h = a
catch_all (raised e) h = h

infixl 5 ◌>>=◌ ◌>>◌
abbrev pub ◌>>=◌ {ℓ} : {S A B : Type ℓ} → Exec S A → (A → Exec S B) → Exec S B
◌>>=◌ m f s = let (r, s') = m s in elim r [ ok a ↦ f a s' | raised e ↦ (raised e, s') ]

abbrev pub ◌>>◌ {ℓ} : {S A B : Type ℓ} → Exec S A → Exec S B → Exec S B
m >> k = m >>= λ _. k

-- Whether a call returned.
abbrev pub IsOk {ℓ} : {A : Type ℓ} → Result A → Type 0
IsOk (ok a) = Unit
IsOk (raised e) = ⊥

-- The three outcomes of a test that may raise.
pub Verdict-cases :
    (r : Result Bool) → (r ≡ ok true) ⊎ ((r ≡ ok false) ⊎ ((e : Error) × (r ≡ raised e)))
Verdict-cases (ok true) = inl refl
Verdict-cases (ok false) = inr (inl refl)
Verdict-cases (raised e) = inr (inr (e, refl))

-- A call that returned goes on with its value.
pub bind-ok {ℓ} :
    {S A B : Type ℓ} (m : Exec S A) (f : A → Exec S B) (s : S) {a : A}
    → (m s).0 ≡ ok a
    → (m >>= f) s ≡ f a (m s).1
bind-ok {S} {A} {B} m f s e =
    ap (λ (r : Result A). elim r [ ok a ↦ f a (m s).1 | raised x ↦ (raised x, (m s).1) ]) e

abbrev continue {ℓ} : {S A B : Type ℓ} → Result A → (A → Exec S B) → S → Result B
continue (ok a) f s = (f a s).0
continue (raised e) f s = raised e

continue-bind {ℓ} :
    {S A B : Type ℓ} (r : Result A) (f : A → Exec S B) (s : S)
    → ((lift r >>= f) s).0 ≡ continue r f s
continue-bind (ok a) f s = refl
continue-bind (raised e) f s = refl

-- A sequence raises what its first part raises.
pub bind-raised {ℓ} :
    {S A B : Type ℓ} (m : Exec S A) (f : A → Exec S B) (s : S) {e : Error}
    → (m s).0 ≡ raised e
    → ((m >>= f) s).0 ≡ raised e
bind-raised {S} {A} {B} m f s h =
    continue-bind (m s).0 f (m s).1 ∙ ap (λ (r : Result A). continue r f (m s).1) h

-- An action on the second part of a state.
abbrev pub on_second {ℓ} : {S T A : Type ℓ} → Exec T A → Exec (S × T) A
on_second m (s, t) = let (r, t') = m t in (r, (s, t'))

-- `x if x is not None else …`, where the default is made by a call.
abbrev pub or_call {ℓ} : {S A : Type ℓ} → Option A → Exec S A → Exec S A
or_call none m = m
or_call (some a) m = pure a

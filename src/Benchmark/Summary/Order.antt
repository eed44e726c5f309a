-- ===== src/Benchmark/Summary/Order.antt =====
-- The order of the lines of the summary of crypto_benchmark/benchmark.py.
use post_quantum_iot_auth.Prelude.{
  ℕ, ◌<◌, ◌≡◌, ◌≢◌, refl, subst, ap, ◌∙◌, ◌⊎◌, inl, inr, ◌↔◌, List, [], ◌∷◌, ◌++◌, Option, none,
  some, Bool, true, false, Text, beq, beq_iff, if◌then◌else◌, arith, ltb, Bool-cases,
}
use post_quantum_iot_auth.Benchmark.Summary.{Key, same, text_le, key_le, put, sorted_items}

text_le_refl : (a : Text) → text_le a a ≡ true
unfolding text_le
text_le_refl [] = refl
text_le_refl (x ∷ a) = ground (arith, text_le_refl a)

text_le_total : (a b : Text) → text_le a b ≡ false → text_le b a ≡ true
unfolding text_le
text_le_total [] b h = ground arith
text_le_total (x ∷ a) [] h = refl
text_le_total (x ∷ a) (y ∷ b) h = ground (arith, text_le_total a b)

key_le_total : (j k : Key) → key_le j k ≡ false → key_le k j ≡ true
unfolding key_le
key_le_total (s, o) (t, p) h =
    ground (arith, beq_iff s t, beq_iff t s, text_le_total s t, text_le_total o p)

same-key_le : (j k : Key) → same j k ≡ true → key_le j k ≡ true
unfolding key_le same
same-key_le (s, o) (t, p) h = ground (arith, beq_iff s t, beq_iff o p, text_le_refl p)

pub same_iff : (j k : Key) → (same j k ≡ true) ↔ (j ≡ k)
unfolding same
same_iff (s, o) (t, p) = (
  λ h. ground (arith, beq_iff s t, beq_iff o p),
  λ h. ground (arith, beq_iff s t, beq_iff o p, ap (λ k. k.0) h, ap (λ k. k.1) h),
)

apart : (k i j : Key) → key_le j i ≡ false → same i k ≡ true → same j k ≡ true → ⊥
apart k i j gt h h' = ground (arith, same_iff i k, same_iff j k, same_iff j i, same-key_le j i)

either :
    {A : Type 0} (a b : Bool) (x y z : A)
    → (a ≡ true → b ≡ true → ⊥)
    → (if a then x else if b then y else z) ≡ (if b then y else if a then x else z)
either true true x y z h = absurd (h refl refl)
either true false x y z h = refl
either false b x y z h = refl

-- `a` is a prefix of `b`, or a smaller character comes first where they differ.
abbrev pub IsBefore : Text → Text → Type 0
IsBefore a b =
    ((c : Text) × (a ++ c ≡ b))
    ⊎ ((p a' b' : Text) × (x y : ℕ) × (x < y) × (a ≡ p ++ x ∷ a') × (b ≡ p ++ y ∷ b'))

-- The scheme comes first, and for the same scheme the operation.
abbrev pub Precedes : Key → Key → Type 0
Precedes (s, o) (t, p) = ((s ≡ t) × IsBefore o p) ⊎ ((s ≢ t) × IsBefore s t)

IsBefore-next : (x : ℕ) (a b : Text) → IsBefore a b → IsBefore (x ∷ a) (x ∷ b)
IsBefore-next x a b (inl (c, e)) = inl (c, ap (λ t. x ∷ t) e)
IsBefore-next x a b (inr (p, a', b', y, z, h, e, e')) =
    inr (x ∷ p, a', b', y, z, h, ap (λ t. x ∷ t) e, ap (λ t. x ∷ t) e')

text_le-IsBefore : (a b : Text) → text_le a b ≡ true → IsBefore a b
unfolding text_le
text_le-IsBefore [] b h = inl (b, refl)
text_le-IsBefore (x ∷ a) [] h = absurd (cc)
text_le-IsBefore (x ∷ a) (y ∷ b) h = elim (Bool-cases (ltb x y)) [
  | inl lt ↦ inr ([], a, b, x, y, ground arith, refl, refl)
  | inr ge ↦
      let e : x ≡ y = ground arith in
      subst (λ z. IsBefore (x ∷ a) (z ∷ b)) e
        (IsBefore-next x a b (text_le-IsBefore a b (ground arith)))
]

key_le-Precedes : (j k : Key) → key_le j k ≡ true → Precedes j k
unfolding key_le
key_le-Precedes (s, o) (t, p) h = elim (Bool-cases (beq s t)) [
  | inl e ↦ inl ((beq_iff s t).0 e, text_le-IsBefore o p (ground arith))
  | inr e ↦ inr ((λ q. ground (arith, beq_iff s t)), text_le-IsBefore s t (ground arith))
]

module _ {V : Type 0} where
  -- The value of the first entry with the key.
  abbrev pub find : Key → List (Key × V) → Option V
  find k [] = none
  find k ((j, v) ∷ d) = if same j k then some v else find k d

  -- The first key of `d`, if any, does not come before `k`.
  abbrev pub Follows : Key → List (Key × V) → Type 0
  Follows k [] = Unit
  Follows k ((j, v) ∷ d) = Precedes k j

  abbrev pub Ascending : List (Key × V) → Type 0
  Ascending [] = Unit
  Ascending ((k, v) ∷ d) = Follows k d × Ascending d

  find-put :
      (k j : Key) (v : V) (d : List (Key × V))
      → find k (put j v d) ≡ (if same j k then some v else find k d)
  unfolding put
  find-put k j v [] = refl
  find-put k j v ((i, u) ∷ d) = elim (Bool-cases (key_le j i)) [
    | inl le ↦ rw le refl
    | inr gt ↦
        rw (gt, find-put k j v d)
          (either (same i k) (same j k) (some u) (some v) (find k d) (apart k i j gt))
  ]

  pub find-sorted_items : (k : Key) (d : List (Key × V)) → find k (sorted_items d) ≡ find k d
  unfolding sorted_items
  find-sorted_items k [] = refl
  find-sorted_items k ((j, v) ∷ d) =
      find-put k j v (sorted_items d)
      ∙ ap (λ o. if same j k then some v else o) (find-sorted_items k d)

  Follows-put :
      (k j : Key) (v : V) (d : List (Key × V)) → Precedes k j → Follows k d → Follows k (put j v d)
  unfolding put
  Follows-put k j v [] h f = h
  Follows-put k j v ((i, u) ∷ d) h f = elim (Bool-cases (key_le j i)) [
    | inl le ↦ rw le h
    | inr gt ↦ rw gt f
  ]

  put-Ascending : (j : Key) (v : V) (d : List (Key × V)) → Ascending d → Ascending (put j v d)
  unfolding put
  put-Ascending j v [] a = (tt, tt)
  put-Ascending j v ((k, u) ∷ d) (f, a) = elim (Bool-cases (key_le j k)) [
    | inl le ↦ rw le (key_le-Precedes j k le, (f, a))
    | inr gt ↦
        rw gt
          (Follows-put k j v d (key_le-Precedes k j (key_le_total j k gt)) f, put-Ascending j v d a)
  ]

  pub sorted_items-Ascending : (d : List (Key × V)) → Ascending (sorted_items d)
  unfolding sorted_items
  sorted_items-Ascending [] = tt
  sorted_items-Ascending ((j, v) ∷ d) =
      put-Ascending j v (sorted_items d) (sorted_items-Ascending d)

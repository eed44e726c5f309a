-- ===== src/Python/Lines.antt =====
-- `sep.join(lines)` of Python's standard library, and that splitting gives the lines back.
use post_quantum_iot_auth.Prelude.{
  ℕ, ◌≡◌, refl, ap, ◌∙◌, Bool, ◌&&◌, true, false, List, [], ◌∷◌, ◌++◌, arith, ◌==◌, if◌then◌else◌,
  Text, All, All-append, Bool-cases, inl, inr,
}

-- `sep.join(xs)`
unfoldable pub join : Text → List Text → Text
join sep [] = []
join sep (x ∷ []) = x
join sep (x ∷ y ∷ xs) = x ++ (sep ++ join sep (y ∷ xs))

-- `s.split(c)`, with one character as the separator.
abbrev pub add_first : ℕ → List Text → List Text
add_first x [] = (x ∷ []) ∷ []
add_first x (l ∷ ls) = (x ∷ l) ∷ ls

unfoldable pub split : ℕ → Text → List Text
split c [] = [] ∷ []
split c (x ∷ xs) = let rest = split c xs in if x == c then [] ∷ rest else add_first x rest

-- The character does not occur.
abbrev pub Lacks : ℕ → Text → Type 0
Lacks c t = All (λ x. (x == c) ≡ false) t

split_last : (c : ℕ) (x : Text) → Lacks c x → split c x ≡ x ∷ []
unfolding split
split_last c [] a = refl
split_last c (d ∷ x) (other, a) = rw (other, split_last c x a) refl

split_first : (c : ℕ) (x r : Text) → Lacks c x → split c (x ++ (c ∷ r)) ≡ x ∷ split c r
unfolding split
split_first c [] r a = ground arith
split_first c (d ∷ x) r (other, a) = rw (other, split_first c x r a) refl

-- Lines without the separator come back from their join.
pub split-join :
    (c : ℕ) (x : Text) (xs : List Text)
    → All (Lacks c) (x ∷ xs)
    → split c (join (c ∷ []) (x ∷ xs)) ≡ x ∷ xs
unfolding join
split-join c x [] (a, _) = split_last c x a
split-join c x (y ∷ xs) (a, rest) =
    split_first c x (join (c ∷ []) (y ∷ xs)) a ∙ ap (λ ls. x ∷ ls) (split-join c y xs rest)

pub join-Lacks :
    (c : ℕ) (sep : Text) (xs : List Text) → Lacks c sep → All (Lacks c) xs → Lacks c (join sep xs)
unfolding join
join-Lacks c sep [] s a = tt
join-Lacks c sep (x ∷ []) s (a, _) = a
join-Lacks c sep (x ∷ y ∷ xs) s (a, rest) =
    All-append _ x (sep ++ join sep (y ∷ xs)) a
      (All-append _ sep (join sep (y ∷ xs)) s (join-Lacks c sep (y ∷ xs) s rest))

-- The same as a test, which computes.
abbrev pub lacks : ℕ → Text → Bool
lacks c [] = true
lacks c (x ∷ xs) = if x == c then false else lacks c xs

abbrev pub all_lack : ℕ → List Text → Bool
all_lack c [] = true
all_lack c (t ∷ ts) = lacks c t && all_lack c ts

pub lacks-Lacks : (c : ℕ) (t : Text) → lacks c t ≡ true → Lacks c t
lacks-Lacks c [] h = tt
lacks-Lacks c (x ∷ xs) h = elim (Bool-cases (x == c)) [
  | inl same ↦ absurd (ground (arith, h, same))
  | inr other ↦ (other, lacks-Lacks c xs (ground (arith, h, other)))
]

pub all_lack-Lacks : (c : ℕ) (ts : List Text) → all_lack c ts ≡ true → All (Lacks c) ts
all_lack-Lacks c [] h = tt
all_lack-Lacks c (t ∷ ts) h =
    (lacks-Lacks c t (ground (arith, h)), all_lack-Lacks c ts (ground (arith, h)))

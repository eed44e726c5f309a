-- ===== src/Benchmark/Summary/Printed.antt =====
-- The figures in the printed summary of crypto_benchmark/benchmark.py.
use post_quantum_iot_auth.Prelude.{
  Occurs, ℕ, zero, suc, ◌≤◌, ◌≡◌, refl, sym, subst, ap, ◌⊎◌, inl, inr, true, false, Option, none,
  some, List, [], ◌∷◌, ◌++◌, arith, length, All, if◌then◌else◌, Bool-cases,
}
use post_quantum_iot_auth.Python.{Result, ok, raised}
use post_quantum_iot_auth.Platform.{Platform}
use post_quantum_iot_auth.Benchmark.Run.{BenchmarkResult}
use post_quantum_iot_auth.Scalability.Report.{Statistics, item_at, rank}
use post_quantum_iot_auth.Scalability.Phases.{IsRanking}
use post_quantum_iot_auth.Benchmark.Summary.{
  Key, Figures, least_time, std_of, with_p99, figures, print_summary,
}
use post_quantum_iot_auth.Benchmark.Summary.Order.{find, Ascending}
use post_quantum_iot_auth.Benchmark.Summary.Grouped.{times_of, listed, Shows, print_summary-Shows}

-- What the comparison of floats is, even where some of them are not numbers.
pub record IsStrict (P : Platform) : Type 0 where
  pub irreflexive : (x : P.Float) → P.lt x x ≡ false
  pub transitive : (x y z : P.Float) → P.lt x y ≡ true → P.lt y z ≡ true → P.lt x z ≡ true

item_at-split :
    {A : Type 0} (n : ℕ) (xs : List A) (x : A)
    → item_at n xs ≡ ok x
    → (front back : List A) × (xs ≡ front ++ x ∷ back) × (length front ≡ n)
item_at-split n [] x e = absurd cc
item_at-split zero (y ∷ ys) x e = let same : y ≡ x = cc in ([], ys, ap (λ z. z ∷ ys) same, refl)
item_at-split (suc n) (y ∷ ys) x e =
    let (front, back, split, size) = item_at-split n ys x e in
    (y ∷ front, back, ap (λ zs. y ∷ zs) split, ap suc size)

module _ (P : Platform) where
  least_time-first :
      (t u : P.Float) (us : List P.Float)
      → P.lt u t ≡ true
      → least_time P u us ≡ least_time P t (u ∷ us)
  least_time-first t u us less = ap (λ b. least_time P (if b then u else t) us) (sym less)

  least_time-kept :
      (t u : P.Float) (us : List P.Float)
      → P.lt u t ≡ false
      → least_time P t us ≡ least_time P t (u ∷ us)
  least_time-kept t u us more = ap (λ b. least_time P (if b then u else t) us) (sym more)

  least_time-Occurs : (t : P.Float) (us : List P.Float) → Occurs (least_time P t us) (t ∷ us)
  least_time-Occurs t [] = inl refl
  least_time-Occurs t (u ∷ us) = elim (Bool-cases (P.lt u t)) [
    | inl less ↦
        subst (λ l. Occurs l (t ∷ u ∷ us)) (least_time-first t u us less)
          (inr (least_time-Occurs u us))
    | inr more ↦
        subst (λ l. Occurs l (t ∷ u ∷ us)) (least_time-kept t u us more)
          (elim (least_time-Occurs t us) [ inl e ↦ inl e | inr later ↦ inr (inr later) ])
  ]

  module _ (strict : IsStrict P) where
    never : (x y z : P.Float) → P.lt x z ≡ false → P.lt y z ≡ true → P.lt x y ≡ false
    never x y z h h' = ground (arith, strict.transitive x y z)

    least_time-below :
        (t : P.Float) (us : List P.Float)
        → (least_time P t us ≡ t) ⊎ (P.lt (least_time P t us) t ≡ true)
    least_time-below t [] = inl refl
    least_time-below t (u ∷ us) = elim (Bool-cases (P.lt u t)) [
      | inl less ↦ rw less (elim (least_time-below u us) [
        | inl e ↦ inr (subst (λ l. P.lt l t ≡ true) (sym e) less)
        | inr below ↦ inr (strict.transitive (least_time P u us) u t below less)
      ])
      | inr more ↦ rw more (least_time-below t us)
    ]

    -- What is not less than `t` is not less than the least time either.
    keeps_least :
        (u t : P.Float) (us : List P.Float) → P.lt u t ≡ false → P.lt u (least_time P t us) ≡ false
    keeps_least u t us more = elim (least_time-below t us) [
      | inl e ↦ subst (λ l. P.lt u l ≡ false) (sym e) more
      | inr below ↦ never u (least_time P t us) t more below
    ]

    least_time-All :
        (t : P.Float) (us : List P.Float) → All (λ v. P.lt v (least_time P t us) ≡ false) (t ∷ us)
    least_time-All t [] = (strict.irreflexive t, tt)
    least_time-All t (u ∷ us) = elim (Bool-cases (P.lt u t)) [
      | inl less ↦
          subst (λ l. All (λ v. P.lt v l ≡ false) (t ∷ u ∷ us)) (least_time-first t u us less)
            (keeps_least t u us (never t u t (strict.irreflexive t) less), least_time-All u us)
      | inr more ↦
          let (first, rest) = least_time-All t us in
          subst (λ l. All (λ v. P.lt v l ≡ false) (t ∷ u ∷ us)) (least_time-kept t u us more)
            (first, (keeps_least u t us more, rest))
    ]

  module _ (T : Statistics P) (stdev : List P.Float → P.Float) where
    -- The figures of some times: their mean; no deviation of one time, and `statistics.stdev` of more;
    -- one of the times, that none of them is less than; and the one of them, sorted, that 99 percent
    -- of their number come before.
    pub record IsFigured (ts : List P.Float) (f : Figures P) : Type 0 where
      pub mean : f.mean ≡ T.mean ts
      pub std : ((length ts ≤ 1) × (f.std ≡ P.float 0)) ⊎ ((2 ≤ length ts) × (f.std ≡ stdev ts))
      pub is_time : Occurs f.min ts
      pub is_least : All (λ t. P.lt t f.min ≡ false) ts
      pub p99 :
          (front back : List P.Float) × (T.sorted ts ≡ front ++ f.p99 ∷ back)
          × (length front
              ≡ P.trunc (P.mul (P.float (length ts)) (P.div (P.float 99) (P.float 100))))

    -- The figures of the times, if there are any.
    abbrev pub Prints : List P.Float → Option (Figures P) → Type 0
    Prints [] o = o ≡ none
    Prints (t ∷ ts) o = (f : Figures P) × (o ≡ some f) × IsFigured (t ∷ ts) f

    std_of_cases :
        (t : P.Float) (ts : List P.Float)
        → ((length (t ∷ ts) ≤ 1) × (std_of P T stdev (t ∷ ts) ≡ P.float 0))
          ⊎ ((2 ≤ length (t ∷ ts)) × (std_of P T stdev (t ∷ ts) ≡ stdev (t ∷ ts)))
    std_of_cases t [] = inl (omega arith, refl)
    std_of_cases t (u ∷ us) = inr (omega arith, refl)

    module _ (strict : IsStrict P) where
      with_p99-IsFigured :
          (t : P.Float) (ts : List P.Float) (r : Result P.Float) (f : Figures P)
          → item_at (rank P T 99 (length (t ∷ ts))) (T.sorted (t ∷ ts)) ≡ r
          → with_p99 P T stdev t ts r ≡ ok f
          → IsFigured (t ∷ ts) f
      with_p99-IsFigured t ts (raised x) f e h = absurd cc
      with_p99-IsFigured t ts (ok p) f e h =
          let made : Figures P = record {
            mean = T.mean (t ∷ ts);
            std = std_of P T stdev (t ∷ ts);
            min = least_time P t ts;
            p99 = p;
          } in
          let same : made ≡ f = cc in
          subst (IsFigured (t ∷ ts)) same (record {
            mean = refl;
            std = std_of_cases t ts;
            is_time = least_time-Occurs t ts;
            is_least = least_time-All strict t ts;
            p99 = item_at-split (rank P T 99 (length (t ∷ ts))) (T.sorted (t ∷ ts)) p e;
          })

      figures-IsFigured :
          (t : P.Float) (ts : List P.Float) (f : Figures P)
          → figures P T stdev (t ∷ ts) ≡ ok f
          → IsFigured (t ∷ ts) f
      unfolding figures
      figures-IsFigured t ts f h =
          with_p99-IsFigured t ts (item_at (rank P T 99 (length (t ∷ ts))) (T.sorted (t ∷ ts))) f
            refl h

      module _ (ranking : IsRanking P T) where
        Shows-Prints :
            (ts : List P.Float) (o : Option (Figures P))
            → Shows P T stdev ranking (listed P ts) o
            → Prints ts o
        Shows-Prints [] o h = h
        Shows-Prints (t ∷ ts) o (f, made, shown) = (f, shown, figures-IsFigured t ts f made)

        -- If comparing floats is irreflexive and transitive, sorting keeps the length and a
        -- percentile's rank is below it, the summary of any results is printed: each line's scheme and
        -- operation is lexicographically at or before the next line's, and the line of a scheme and an
        -- operation is about the times of exactly those results, in their order. It has their mean; 0
        -- for one time and the standard deviation of more; the time that none is less than; and the
        -- one of them, sorted, that 99 percent of their number come before. There is no such line
        -- where there is no such result.
        pub print_summary_lem :
            (rs : List (BenchmarkResult P))
            → (rows : List (Key × Figures P)) × (print_summary P T stdev rs ≡ ok rows)
              × Ascending rows
              × ((k : Key) → Prints (times_of P k rs) (find k rows))
        print_summary_lem rs =
            let (rows, e, ascending, shows) = print_summary-Shows P T stdev ranking rs in
            (rows, e, ascending, λ k. Shows-Prints (times_of P k rs) (find k rows) (shows k))

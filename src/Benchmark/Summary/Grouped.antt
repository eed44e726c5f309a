-- ===== src/Benchmark/Summary/Grouped.antt =====
-- What the printed summary of crypto_benchmark/benchmark.py says of the results.
use post_quantum_iot_auth.Prelude.{
  suc, ◌<◌, ◌≡◌, ◌≢◌, refl, sym, subst, ap, ◌∙◌, List, [], ◌∷◌, ◌++◌, Option, none, some, length,
  if◌then◌else◌, arith, All, Bool-cases, inl, inr,
}
use mathlib.Core.List.{append_assoc, append-nil}
use post_quantum_iot_auth.Python.{ok}
use post_quantum_iot_auth.Platform.{Platform}
use post_quantum_iot_auth.Benchmark.Run.{BenchmarkResult}
use post_quantum_iot_auth.Scalability.Report.{Statistics, rank}
use post_quantum_iot_auth.Scalability.Phases.{IsRanking, item_at_lem}
use post_quantum_iot_auth.Benchmark.Summary.Order.{
  same_iff, find, Follows, Ascending, find-sorted_items, sorted_items-Ascending,
}
use post_quantum_iot_auth.Benchmark.Summary.{
  Key, same, key_le, put, sorted_items, time_ms, key_of, add_time, group, Figures, with_p99,
  figures, lines_of, print_summary,
}

module _ (P : Platform) where
  -- The times of the results with the key, in their order.
  abbrev pub times_of : Key → List (BenchmarkResult P) → List P.Float
  times_of k [] = []
  times_of k (r ∷ rs) =
      let rest = times_of k rs in if same (key_of P r) k then time_ms P r ∷ rest else rest

  -- What a dictionary of lists has of a key: nothing, or times.
  abbrev pub listed : List P.Float → Option (List P.Float)
  listed [] = none
  listed (t ∷ ts) = some (t ∷ ts)

  abbrev IsFilled : List (Key × List P.Float) → Type 0
  IsFilled d = All (λ (g : Key × List P.Float). g.1 ≢ []) d

  abbrev with_time : P.Float → Option (List P.Float) → List P.Float
  with_time t none = t ∷ []
  with_time t (some ts) = ts ++ t ∷ []

  find-add_time :
      (k j : Key) (t : P.Float) (d : List (Key × List P.Float))
      → find k (add_time P j t d) ≡ (if same j k then some (with_time t (find k d)) else find k d)
  unfolding add_time
  find-add_time k j t [] = refl
  find-add_time k j t ((i, ts) ∷ d) =
      ground (arith, same_iff i j, same_iff i k, same_iff j k, find-add_time k j t d)

  with_time-listed :
      (t : P.Float) (xs : List P.Float) → some (with_time t (listed xs)) ≡ listed (xs ++ t ∷ [])
  with_time-listed t [] = refl
  with_time-listed t (x ∷ xs) = refl

  find-group :
      (k : Key) (xs : List P.Float) (d : List (Key × List P.Float)) (rs : List (BenchmarkResult P))
      → find k d ≡ listed xs
      → find k (group P d rs) ≡ listed (xs ++ times_of k rs)
  unfolding group
  find-group k xs d [] h = subst (λ ys. find k d ≡ listed ys) (sym (append-nil xs)) h
  find-group k xs d (r ∷ rs) h =
      let j = key_of P r in
      let t = time_ms P r in
      let e = find-add_time k j t d in
      elim (Bool-cases (same j k)) [
        | inl shown ↦
            rw (shown, sym (append_assoc xs (t ∷ []) (times_of k rs)))
              (find-group k (xs ++ t ∷ []) (add_time P j t d) rs
                (e ∙ rw (shown, h) (with_time-listed t xs)))
        | inr other ↦ rw other (find-group k xs (add_time P j t d) rs (e ∙ rw other h))
      ]

  filled-append : (ts : List P.Float) (t : P.Float) → ts ++ t ∷ [] ≢ []
  filled-append [] t h = cc
  filled-append (x ∷ ts) t h = cc

  add_time-IsFilled :
      (j : Key) (t : P.Float) (d : List (Key × List P.Float))
      → IsFilled d
      → IsFilled (add_time P j t d)
  unfolding add_time
  add_time-IsFilled j t [] a = ((λ h. cc), tt)
  add_time-IsFilled j t ((i, ts) ∷ d) (h, a) = elim (Bool-cases (same i j)) [
    | inl e ↦ rw e (filled-append ts t, a)
    | inr e ↦ rw e (h, add_time-IsFilled j t d a)
  ]

  group-IsFilled :
      (d : List (Key × List P.Float)) (rs : List (BenchmarkResult P))
      → IsFilled d
      → IsFilled (group P d rs)
  unfolding group
  group-IsFilled d [] a = a
  group-IsFilled d (r ∷ rs) a =
      group-IsFilled (add_time P (key_of P r) (time_ms P r) d) rs
        (add_time-IsFilled (key_of P r) (time_ms P r) d a)

  put-IsFilled :
      (j : Key) (ts : List P.Float) (d : List (Key × List P.Float))
      → ts ≢ []
      → IsFilled d
      → IsFilled (put j ts d)
  unfolding put
  put-IsFilled j ts [] h a = (h, tt)
  put-IsFilled j ts ((i, us) ∷ d) h (h', a) = elim (Bool-cases (key_le j i)) [
    | inl e ↦ rw e (h, (h', a))
    | inr e ↦ rw e (h', put-IsFilled j ts d h a)
  ]

  sorted_items-IsFilled : (d : List (Key × List P.Float)) → IsFilled d → IsFilled (sorted_items d)
  unfolding sorted_items
  sorted_items-IsFilled [] a = tt
  sorted_items-IsFilled ((j, ts) ∷ d) (h, a) =
      put-IsFilled j ts (sorted_items d) h (sorted_items-IsFilled d a)

  module _ (T : Statistics P) (stdev : List P.Float → P.Float) (ranking : IsRanking P T) where
    figures_lem : (ts : List P.Float) → ts ≢ [] → (f : Figures P) × (figures P T stdev ts ≡ ok f)
    unfolding figures
    figures_lem [] h = absurd (h refl)
    figures_lem (t ∷ ts) h =
        let (p99, e) = item_at_lem (rank P T 99 (length (t ∷ ts))) (T.sorted (t ∷ ts)) (
          subst (λ n. rank P T 99 (suc (length ts)) < n) (sym (ranking.sorted_size (t ∷ ts)))
            (ranking.most (length ts))) in
        (_, ap (with_p99 P T stdev t ts) e)

    -- What the lines show of a key whose times are these.
    abbrev pub Shows : Option (List P.Float) → Option (Figures P) → Type 0
    Shows none o = o ≡ none
    Shows (some ts) o = (f : Figures P) × (figures P T stdev ts ≡ ok f) × (o ≡ some f)

    abbrev Lines : List (Key × List P.Float) → List (Key × Figures P) → Type 0
    Lines d rows =
        ((k : Key) → Shows (find k d) (find k rows))
        × ((k : Key) → Follows k d → Follows k rows)
        × (Ascending d → Ascending rows)

    lines_of-Lines :
        (d : List (Key × List P.Float))
        → IsFilled d
        → (rows : List (Key × Figures P)) × (lines_of P T stdev d ≡ ok rows) × Lines d rows
    unfolding lines_of
    lines_of-Lines [] a = ([], refl, ((λ k. refl), (λ k f. f), λ a. a))
    lines_of-Lines ((j, ts) ∷ d) (h, a) =
        let (f, e) = figures_lem ts h in
        let (rows, e', (shows, follows, ascending)) = lines_of-Lines d a in
        (
          (j, f) ∷ rows,
          rw (e, e') refl,
          (
            λ k. elim (Bool-cases (same j k)) [
              | inl shown ↦ rw shown (f, e, refl)
              | inr other ↦ rw other (shows k)
            ],
            (λ k f. f),
            λ (f, a). (follows j f, ascending a),
          ),
        )

    -- The summary of any results is printed, its lines in their order, each with the figures that the
    -- code has for the times of its results.
    pub print_summary-Shows :
        (rs : List (BenchmarkResult P))
        → (rows : List (Key × Figures P)) × (print_summary P T stdev rs ≡ ok rows)
          × Ascending rows
          × ((k : Key) → Shows (listed (times_of k rs)) (find k rows))
    unfolding print_summary
    print_summary-Shows rs =
        let d = group P [] rs in
        let filled = sorted_items-IsFilled d (group-IsFilled [] rs tt) in
        let (rows, e, (shows, follows, ascending)) = lines_of-Lines (sorted_items d) filled in
        (
          rows,
          e,
          ascending (sorted_items-Ascending d),
          λ k.
              subst (λ o. Shows o (find k rows))
                (find-sorted_items k d ∙ find-group k [] [] rs refl) (shows k),
        )

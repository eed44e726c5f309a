-- ===== src/Benchmark/Summary/Counted.antt =====
-- What the summary of crypto_benchmark/benchmark.py says of the results of the suite.
use post_quantum_iot_auth.Prelude.{
  ℕ, zero, suc, ◌+◌, ◌*◌, ◌≡◌, refl, sym, subst, ap, ap₂, ◌∙◌, List, [], ◌∷◌, ◌++◌, Option, none,
  some, Bool, true, false, Text, codes, beq, length, map, if◌then◌else◌, arith, All,
}
use post_quantum_iot_auth.Python.{value_error, Result, ok, raised}
use post_quantum_iot_auth.Python.Loops.{Returns, Returns-weaken}
use post_quantum_iot_auth.Platform.{Platform}
use post_quantum_iot_auth.Falcon.{Flags}
use post_quantum_iot_auth.Falcon.Crypto.{Libraries}
use post_quantum_iot_auth.Ecdsa.{Ecdsa}
use post_quantum_iot_auth.Benchmark.Crypto.{Dilithium, Profiler}
use post_quantum_iot_auth.Benchmark.Scheme.{CryptoScheme, scheme_sizes, new_scheme}
use post_quantum_iot_auth.Benchmark.Environment.{Host, detect_environment}
use post_quantum_iot_auth.Benchmark.Run.{BenchmarkResult, entry, chosen, run_full_benchmark_suite}
use post_quantum_iot_auth.Benchmark.Passes.{planned}
use post_quantum_iot_auth.Benchmark.Results.{untimed, due}
use post_quantum_iot_auth.Benchmark.Suite.{
  IsSupported, due_of, due_all, run_full_benchmark_suite_lem,
}
use post_quantum_iot_auth.Scalability.Report.{Statistics}
use post_quantum_iot_auth.Scalability.Phases.{IsRanking}
use post_quantum_iot_auth.Benchmark.Summary.{Key, same, key_of, Figures, print_summary}
use post_quantum_iot_auth.Benchmark.Summary.Order.{find, Ascending}
use post_quantum_iot_auth.Benchmark.Summary.Grouped.{times_of, listed, Shows, print_summary-Shows}

-- How often a scheme is asked for.
abbrev pub times_asked : Text → List Text → ℕ
times_asked s [] = 0
times_asked s (name ∷ names) =
    let rest = times_asked s names in if beq name s then rest + 1 else rest

abbrev pub operations : List Text
operations = codes "keygen" ∷ codes "sign" ∷ codes "verify" ∷ []

one_more : (b : Bool) (m n : ℕ) → (if b then n else 0) + m * n ≡ (if b then m + 1 else m) * n
one_more true m n = omega arith
one_more false m n = omega arith

abbrev name_of : Text → Result CryptoScheme → Text
name_of name (ok c) = c.name
name_of name (raised e) = name

name_of-new_scheme : (name : Text) → name_of name (new_scheme name) ≡ name
unfolding new_scheme
name_of-new_scheme name =
    elim (scheme_sizes name)
      as (λ o.
        name_of name (elim o [
          | none ↦ raised value_error
          | some (key, sig) ↦
              ok (record { name = name; public_key_size = key; signature_size = sig })
        ])
        ≡ name) [ none ↦ refl | some (key, sig) ↦ refl ]

module _ (P : Platform) where
  count : Key → List (BenchmarkResult P) → ℕ
  count k rs = length (times_of P k rs)

  count-append :
      (k : Key) (xs ys : List (BenchmarkResult P)) → count k (xs ++ ys) ≡ count k xs + count k ys
  unfolding count
  count-append k [] ys = omega arith
  count-append k (x ∷ xs) ys = ground (arith, count-append k xs ys)

  count-untimed :
      (k : Key) (xs : List (BenchmarkResult P)) → count k (map (untimed P) xs) ≡ count k xs
  unfolding count
  count-untimed k [] = refl
  count-untimed k (x ∷ xs) = ground (arith, count-untimed k xs)

  -- Rows that all have the key `j`.
  count-planned :
      (j k : Key) (row : ℕ → BenchmarkResult P) (i n : ℕ)
      → ((m : ℕ) → key_of P (row m) ≡ j)
      → count k (planned row i n) ≡ (if same j k then n else 0)
  unfolding count
  count-planned j k row i zero h = ground arith
  count-planned j k row i (suc n) h = rw (h i) (ground (arith, count-planned j k row (i + 1) n h))

  module _ (L : Libraries P) (f : Flags) (E : Ecdsa P) (D : Dilithium P) (T : Profiler P)
      (h : Host P) where
    count-passes :
        (c : CryptoScheme) (n size : ℕ) (k : Key)
        → count k (due P L f E D T h c n size)
          ≡ (if same (c.name, codes "keygen") k then n else 0)
            + ((if same (c.name, codes "sign") k then n else 0)
                + (if same (c.name, codes "verify") k then n else 0))
    count-passes c n size k =
        let row = entry P L f E D T h c 0 (P.float 0) (detect_environment P h L.is_linux) in
        let keys = row (codes "keygen") 0 0 in
        let signs = row (codes "sign") size c.signature_size in
        let verifies = row (codes "verify") size c.signature_size in
        count-append k (planned keys 0 n) (planned signs 0 n ++ planned verifies 0 n)
        ∙ ap₂ (λ a b. a + b) (count-planned (c.name, codes "keygen") k keys 0 n (λ _. refl))
            (count-append k (planned signs 0 n) (planned verifies 0 n)
              ∙ ap₂ (λ a b. a + b) (count-planned (c.name, codes "sign") k signs 0 n (λ _. refl))
                  (count-planned (c.name, codes "verify") k verifies 0 n (λ _. refl)))

    -- A scheme has `n` results of the operation.
    abbrev Counts : Text → ℕ → ℕ → Type 0
    Counts op n size =
        (c : CryptoScheme) (s : Text)
        → count (s, op) (due P L f E D T h c n size) ≡ (if beq c.name s then n else 0)

    keygen-Counts : (n size : ℕ) → Counts (codes "keygen") n size
    unfolding same beq
    keygen-Counts n size c s = ground (arith, count-passes c n size (s, codes "keygen"))

    sign-Counts : (n size : ℕ) → Counts (codes "sign") n size
    unfolding same beq
    sign-Counts n size c s = ground (arith, count-passes c n size (s, codes "sign"))

    verify-Counts : (n size : ℕ) → Counts (codes "verify") n size
    unfolding same beq
    verify-Counts n size c s = ground (arith, count-passes c n size (s, codes "verify"))

    count-due_of :
        (op name s : Text) (n size : ℕ) (c : CryptoScheme)
        → Counts op n size
        → new_scheme name ≡ ok c
        → count (s, op) (due_of P L f E D T h (new_scheme name) n size)
          ≡ (if beq name s then n else 0)
    count-due_of op name s n size c counts made =
        let e : c.name ≡ name = sym (ap (name_of name) made) ∙ name_of-new_scheme name in
        rw made (
          subst (λ d. count (s, op) (due P L f E D T h c n size) ≡ (if beq d s then n else 0)) e
            (counts c s))

    count-due_all :
        (op s : Text) (names : List Text) (n size : ℕ)
        → Counts op n size
        → All (IsSupported P L f E D T h) names
        → count (s, op) (due_all P L f E D T h names n size) ≡ times_asked s names * n
    unfolding count
    count-due_all op s [] n size counts a = omega arith
    count-due_all op s (name ∷ names) n size counts ((c, made, IsKey, works), a) =
        count-append (s, op) (due_of P L f E D T h (new_scheme name) n size)
          (due_all P L f E D T h names n size)
        ∙ ap₂ (λ x y. x + y) (count-due_of op name s n size c counts made)
            (count-due_all op s names n size counts a)
        ∙ one_more (beq name s) (times_asked s names) n

    module _ (S : Statistics P) (stdev : List P.Float → P.Float) (ranking : IsRanking P S) where
      -- Where every scheme that is asked for, or every default scheme, is in the table and works, if
      -- sorting keeps the length and a percentile's rank is below it, the suite returns and its summary
      -- is printed: the lines are in lexicographic order, the line of a scheme and an operation has the
      -- figures of the times of exactly those results, and each operation of a scheme has `n` times for
      -- every time that the scheme is asked for.
      pub suite-print_summary :
          (names : Option (List Text)) (n size : ℕ) (w : P.World)
          → All (IsSupported P L f E D T h) (chosen P L f E D T h names)
          → Returns (run_full_benchmark_suite P L f E D T h names n size w) (λ rs _.
            (rows : List (Key × Figures P)) × (print_summary P S stdev rs ≡ ok rows)
            × Ascending rows
            × ((k : Key) → Shows P S stdev ranking (listed P (times_of P k rs)) (find k rows))
            × ((s : Text)
                → All
                    (λ op.
                      length (times_of P (s, op) rs)
                      ≡ times_asked s (chosen P L f E D T h names) * n)
                    operations))
      unfolding count
      suite-print_summary names n size w a =
          let out = run_full_benchmark_suite P L f E D T h names n size w in
          let asked = chosen P L f E D T h names in
          Returns-weaken out.0 out.1 _ _
            (λ rs v e.
              let (rows, e', ascending, shows) = print_summary-Shows P S stdev ranking rs in
              let at = λ (s op : Text) (counts : Counts op n size).
                sym (count-untimed (s, op) rs)
                ∙ ap (count (s, op)) e
                ∙ count-due_all op s asked n size counts a in
              (
                rows,
                e',
                ascending,
                shows,
                λ s. (
                  at s (codes "keygen") (keygen-Counts n size),
                  (
                    at s (codes "sign") (sign-Counts n size),
                    (at s (codes "verify") (verify-Counts n size), tt),
                  ),
                ),
              ))
            (run_full_benchmark_suite_lem P L f E D T h names n size w a)

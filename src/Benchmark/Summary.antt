-- ===== src/Benchmark/Summary.antt =====
-- The table that crypto_benchmark/benchmark.py prints of its results, and the fields of a result.
pub mod Order
pub mod Grouped
pub mod Printed
pub mod Counted
use post_quantum_iot_auth.Prelude.{
  ℕ, List, [], ◌∷◌, ◌++◌, Bool, true, false, Text, codes, beq, ltb, length, ◌&&◌, if◌then◌else◌,
}
use post_quantum_iot_auth.Python.{value_error, Result, ok, raised}
use post_quantum_iot_auth.Platform.{Platform}
use post_quantum_iot_auth.Benchmark.Run.{BenchmarkResult}
use post_quantum_iot_auth.Scalability.Report.{Statistics, item_at, rank}

-- `(r.scheme, r.operation)`
abbrev pub Key : Type 0
Key = Text × Text

unfoldable pub same : Key → Key → Bool
same j k = beq j.0 k.0 && beq j.1 k.1

-- `a <= b` for strings and for keys
unfoldable pub text_le : Text → Text → Bool
text_le [] b = true
text_le (x ∷ a) [] = false
text_le (x ∷ a) (y ∷ b) =
    let rest = text_le a b in if ltb x y then true else if ltb y x then false else rest

unfoldable pub key_le : Key → Key → Bool
key_le j k = if beq j.0 k.0 then text_le j.1 k.1 else text_le j.0 k.0

-- `defaultdict(list)` has its entries in the order of insertion.
module _ {V : Type 0} where
  -- `sorted(d.items())`; the keys of a dictionary differ, so the values are never compared
  unfoldable pub put : Key → V → List (Key × V) → List (Key × V)
  put k v [] = (k, v) ∷ []
  put k v ((j, u) ∷ d) = if key_le k j then (k, v) ∷ (j, u) ∷ d else (j, u) ∷ put k v d

  unfoldable pub sorted_items : List (Key × V) → List (Key × V)
  sorted_items [] = []
  sorted_items ((k, v) ∷ d) = put k v (sorted_items d)

module _ (P : Platform) where
  open P use {Float}

  unfoldable pub time_ms : BenchmarkResult P → Float
  time_ms r = P.div (P.float r.time_ns) (P.float 1000000)

  abbrev pub key_of : BenchmarkResult P → Key
  key_of r = (r.scheme, r.operation)

  -- `summary[key].append(t)`
  unfoldable pub add_time : Key → Float → List (Key × List Float) → List (Key × List Float)
  add_time key t [] = (key, t ∷ []) ∷ []
  add_time key t ((j, times) ∷ d) =
      if same j key then (j, times ++ t ∷ []) ∷ d else (j, times) ∷ add_time key t d

  -- The loop over the results.
  unfoldable pub group :
      List (Key × List Float) → List (BenchmarkResult P) → List (Key × List Float)
  group summary [] = summary
  group summary (r ∷ rs) = group (add_time (key_of r) (time_ms r) summary) rs

  -- What a line shows behind the scheme and the operation.
  pub record Figures : Type 0 where
    pub mean : Float
    pub std : Float
    pub min : Float
    pub p99 : Float

  -- `min` of a list that begins with `t`
  abbrev pub least_time : Float → List Float → Float
  least_time t [] = t
  least_time t (u ∷ us) = least_time (if P.lt u t then u else t) us

  -- `stdev` is `statistics.stdev`.
  module _ (T : Statistics P) (stdev : List Float → Float) where
    abbrev pub std_of : List Float → Float
    std_of [] = P.float 0
    std_of (t ∷ []) = P.float 0
    std_of (t ∷ u ∷ us) = stdev (t ∷ u ∷ us)

    abbrev pub with_p99 : Float → List Float → Result Float → Result Figures
    with_p99 t ts (raised e) = raised e
    with_p99 t ts (ok p99) =
        ok (record {
          mean = T.mean (t ∷ ts);
          std = std_of (t ∷ ts);
          min = least_time t ts;
          p99 = p99;
        })

    -- `statistics.mean` and `min` of no times raise a `ValueError`.
    unfoldable pub figures : List Float → Result Figures
    figures [] = raised value_error
    figures (t ∷ ts) = with_p99 t ts (item_at (rank P T 99 (length (t ∷ ts))) (T.sorted (t ∷ ts)))

    abbrev pub add_line :
        Key → Result Figures → Result (List (Key × Figures)) → Result (List (Key × Figures))
    add_line k (raised e) lines = raised e
    add_line k (ok f) (raised e) = raised e
    add_line k (ok f) (ok lines) = ok ((k, f) ∷ lines)

    -- The lines, one for each entry.
    unfoldable pub lines_of : List (Key × List Float) → Result (List (Key × Figures))
    lines_of [] = ok []
    lines_of ((k, times) ∷ d) = add_line k (figures times) (lines_of d)

    -- The summary of the results.
    unfoldable pub print_summary : List (BenchmarkResult P) → Result (List (Key × Figures))
    print_summary results = lines_of (sorted_items (group [] results))

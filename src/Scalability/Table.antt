-- ===== src/Scalability/Table.antt =====
-- `ScalabilityResult.to_dict` and the CSV file of `save_scalability_results` in
-- scalability/scalability_runner.py.
use post_quantum_iot_auth.Prelude.{
  ℕ, Option, none, some, List, [], ◌∷◌, Text, codes, beq, if◌then◌else◌,
}
use post_quantum_iot_auth.Python.{key_error, Result, ok, raised}
use post_quantum_iot_auth.Python.Text.{decimal}
use post_quantum_iot_auth.Python.Lines.{join}
use post_quantum_iot_auth.Platform.{Platform}
use post_quantum_iot_auth.Scalability.Report.{ScalabilityResult}

module _ (P : Platform) where
  -- A value of the dictionary.
  pub data Value : Type 0 where
    whole : ℕ → Value
    float : P.Float → Value
    text : Text → Value

  -- `str(value)`
  abbrev pub str : Value → Text
  str (whole n) = decimal n
  str (float x) = P.show_float x
  str (text t) = t

  abbrev pub Entries : Type 0
  Entries = List (Text × Value)

  unfoldable pub to_dict : ScalabilityResult P → Entries
  to_dict r =
      (codes "device_count", whole r.device_count)
      ∷ (codes "transactions_per_device", whole r.transactions_per_device)
      ∷ (codes "total_transactions", whole r.total_transactions)
      ∷ (codes "total_time_ms", float r.total_time_ms)
      ∷ (codes "throughput_tps", float r.throughput_tps)
      ∷ (codes "avg_latency_ms", float r.avg_latency_ms)
      ∷ (codes "p50_latency_ms", float r.p50_latency_ms)
      ∷ (codes "p99_latency_ms", float r.p99_latency_ms)
      ∷ (codes "total_gas", whole r.total_gas)
      ∷ (codes "avg_gas_per_tx", float r.avg_gas_per_tx)
      ∷ (codes "failed_transactions", whole r.failed_transactions)
      ∷ (codes "concurrent_threads", whole r.concurrent_threads)
      ∷ (codes "backend", text r.backend)
      ∷ (codes "gateway_verify_tps", float r.gateway_verify_tps)
      ∷ (codes "gateway_avg_latency_ms", float r.gateway_avg_latency_ms)
      ∷ (codes "gateway_p99_latency_ms", float r.gateway_p99_latency_ms)
      ∷ (codes "blockchain_submit_tps", float r.blockchain_submit_tps)
      ∷ (codes "blockchain_avg_latency_ms", float r.blockchain_avg_latency_ms)
      ∷ (codes "blockchain_p99_latency_ms", float r.blockchain_p99_latency_ms)
      ∷ []

  -- `list(d.keys())`
  abbrev pub keys : Entries → List Text
  keys [] = []
  keys ((k, v) ∷ d) = k ∷ keys d

  -- `d[h]`
  abbrev pub value_at : Text → Entries → Result Value
  value_at h [] = raised key_error
  value_at h ((k, v) ∷ d) = let rest = value_at h d in if beq k h then ok v else rest

  abbrev pub add_field : Result Value → Result (List Text) → Result (List Text)
  add_field (raised e) fields = raised e
  add_field (ok v) (raised e) = raised e
  add_field (ok v) (ok fields) = ok (str v ∷ fields)

  -- `[str(r.to_dict()[h]) for h in headers]`
  unfoldable pub row : List Text → Entries → Result (List Text)
  row [] d = ok []
  row (h ∷ headers) d = add_field (value_at h d) (row headers d)

  abbrev pub add_line : Result (List Text) → Result (List Text) → Result (List Text)
  add_line (raised e) lines = raised e
  add_line (ok fields) (raised e) = raised e
  add_line (ok fields) (ok lines) = ok (join (codes ",") fields ∷ lines)

  -- The loop over the results.
  unfoldable pub rows : List Text → List (ScalabilityResult P) → Result (List Text)
  rows headers [] = ok []
  rows headers (r ∷ rs) = add_line (row headers (to_dict r)) (rows headers rs)

  abbrev pub with_header : List Text → Result (List Text) → Result (Option Text)
  with_header headers (raised e) = raised e
  with_header headers (ok lines) = ok (some (join (10 ∷ []) (join (codes ",") headers ∷ lines)))

  -- The text of the CSV file, which is only written where there are results.
  unfoldable pub csv_text : List (ScalabilityResult P) → Result (Option Text)
  csv_text [] = ok none
  csv_text (r ∷ rs) = let headers = keys (to_dict r) in with_header headers (rows headers (r ∷ rs))

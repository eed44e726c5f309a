-- ===== src/HardhatRunner/Summary.antt =====
-- The result of `run_gas_comparison` of relay_system/hardhat_runner.py.
use post_quantum_iot_auth.Prelude.{
  Occurs, ◌⊎◌, inl, inr, subst, sym, leb, Bool-cases, ℕ, suc, ◌≤◌, ◌≡◌, refl, ap, List, [], ◌∷◌,
  length, sum, map, All, All-map, min, max, arith,
}
use post_quantum_iot_auth.Python.{ok, Exec}
use post_quantum_iot_auth.Platform.{Platform}
use post_quantum_iot_auth.Hardhat.Client.{Web3}
use post_quantum_iot_auth.HardhatRunner.{
  DeployInfo, RelayMetrics, GasComparison, least, greatest, summary,
}

least-le : (g : ℕ) (gs : List ℕ) → All (λ h. least g gs ≤ h) (g ∷ gs)
least-le g [] = (omega arith, tt)
least-le g (h ∷ gs) =
    let rest = least-le h gs in
    let m = least h gs in
    (omega arith, All-map (λ k. m ≤ k) (λ k. min g m ≤ k) (h ∷ gs) (λ k e. omega arith) rest)

le-greatest : (g : ℕ) (gs : List ℕ) → All (λ h. h ≤ greatest g gs) (g ∷ gs)
le-greatest g [] = (omega arith, tt)
le-greatest g (h ∷ gs) =
    let rest = le-greatest h gs in
    let m = greatest h gs in
    (omega arith, All-map (λ k. k ≤ m) (λ k. k ≤ max g m) (h ∷ gs) (λ k e. omega arith) rest)

All-both :
    (low high : ℕ) (gs : List ℕ)
    → All (λ g. low ≤ g) gs
    → All (λ g. g ≤ high) gs
    → All (λ g. (low ≤ g) × (g ≤ high)) gs
All-both low high [] a b = tt
All-both low high (g ∷ gs) (x, a) (y, b) = ((x, y), All-both low high gs a b)

le_cases : (m n : ℕ) → (m ≤ n) ⊎ (n ≤ m)
le_cases m n = elim (Bool-cases (leb m n)) [
  | inl le ↦ inl (ground arith)
  | inr gt ↦ inr (ground arith)
]

least-Occurs : (g : ℕ) (gs : List ℕ) → Occurs (least g gs) (g ∷ gs)
least-Occurs g [] = inl refl
least-Occurs g (h ∷ gs) = elim (le_cases g (least h gs)) [
  | inl le ↦ inl (omega (arith, le))
  | inr ge ↦ subst (λ m. Occurs m (g ∷ h ∷ gs)) (omega (arith, ge)) (inr (least-Occurs h gs))
]

greatest-Occurs : (g : ℕ) (gs : List ℕ) → Occurs (greatest g gs) (g ∷ gs)
greatest-Occurs g [] = inl refl
greatest-Occurs g (h ∷ gs) = elim (le_cases g (greatest h gs)) [
  | inl le ↦ subst (λ m. Occurs m (g ∷ h ∷ gs)) (omega (arith, le)) (inr (greatest-Occurs h gs))
  | inr ge ↦ inl (omega (arith, ge))
]

module _ (P : Platform) (X : Web3 P) (artifacts : Exec P.World (Unit {0})) where
  -- The report is about these costs: their number, their mean, and the least and the greatest of them.
  pub record IsSummary (costs : List ℕ) (c : GasComparison P X artifacts) : Type 0 where
    pub size : c.transactions ≡ length costs
    pub mean : c.relay_avg_gas ≡ P.div (P.float (sum costs)) (P.float (length costs))
    pub least_is : Occurs c.relay_min_gas costs
    pub greatest_is : Occurs c.relay_max_gas costs
    pub within : All (λ g. (c.relay_min_gas ≤ g) × (g ≤ c.relay_max_gas)) costs

  abbrev pub costs_of : List (RelayMetrics P X artifacts) → List ℕ
  costs_of ms = map (λ (m : RelayMetrics P X artifacts). m.gas_used) ms

  length-costs_of : (ms : List (RelayMetrics P X artifacts)) → length (costs_of ms) ≡ length ms
  length-costs_of [] = refl
  length-costs_of (m ∷ ms) = ap suc (length-costs_of ms)

  pub summary-IsSummary :
      (n reg_gas : ℕ) (info : DeployInfo P X artifacts) (ms : List (RelayMetrics P X artifacts))
      → length (costs_of ms) ≡ suc n
      → (c : GasComparison P X artifacts) × (summary P X artifacts (suc n) info reg_gas ms ≡ ok c)
        × IsSummary (costs_of ms) c
  unfolding summary
  summary-IsSummary n reg_gas info [] e = absurd (omega (arith, e))
  summary-IsSummary n reg_gas info (m ∷ ms) e =
      let gs = costs_of ms in
      (
        _,
        refl,
        record {
          size = sym e;
          mean =
              ap (λ (k : ℕ). P.div (P.float (sum (m.gas_used ∷ gs))) (P.float k))
                (sym (length-costs_of (m ∷ ms)));
          least_is = least-Occurs m.gas_used gs;
          greatest_is = greatest-Occurs m.gas_used gs;
          within =
              All-both (least m.gas_used gs) (greatest m.gas_used gs) (m.gas_used ∷ gs)
                (least-le m.gas_used gs) (le-greatest m.gas_used gs);
        },
      )

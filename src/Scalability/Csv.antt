-- ===== src/Scalability/Csv.antt =====
-- The CSV file of `save_scalability_results` in scalability/scalability_runner.py reads back.
use post_quantum_iot_auth.Prelude.{
  ℕ, ◌<◌, ◌≡◌, refl, ap, ap₂, ◌∙◌, some, List, [], ◌∷◌, Text, codes, beq, map, arith, All, All-map,
  ◌==◌, false,
}
use post_quantum_iot_auth.Python.{ok}
use post_quantum_iot_auth.Python.Text.{decimal}
use post_quantum_iot_auth.Python.Numerals.Decimal.{decimal-IsDigits}
use post_quantum_iot_auth.Python.Lines.{join, split, Lacks, split-join, join-Lacks, all_lack-Lacks}
use post_quantum_iot_auth.Platform.{Platform}
use post_quantum_iot_auth.Scalability.Report.{ScalabilityResult}
use post_quantum_iot_auth.Scalability.Table.{
  whole, float, text, str, Entries, to_dict, keys, row, rows, with_header, csv_text, add_line,
}

module _ (P : Platform) where
  -- The texts of the values of a result.
  abbrev pub fields : Entries P → List Text
  fields [] = []
  fields ((k, v) ∷ d) = str P v ∷ fields d

  -- No number and no name of a backend is printed with the character.
  pub record IsPlain (c : ℕ) (rs : List (ScalabilityResult P)) : Type 0 where
    pub below : c < 48
    pub floats : (x : P.Float) → Lacks c (P.show_float x)
    pub names : All (λ r. Lacks c r.backend) rs

  pub decimal-Lacks : (c n : ℕ) → c < 48 → Lacks c (decimal n)
  decimal-Lacks c n h =
      All-map _ (λ x. (x == c) ≡ false) (decimal n) (λ x (low, high). ground arith)
        (decimal-IsDigits n)

  row-keys :
      (r q : ScalabilityResult P)
      → row P (keys P (to_dict P q)) (to_dict P r) ≡ ok (fields (to_dict P r))
  unfolding row to_dict beq
  row-keys r q = refl

  rows_lem :
      (q : ScalabilityResult P) (rs : List (ScalabilityResult P))
      → rows P (keys P (to_dict P q)) rs
        ≡ ok (map (λ r. join (codes ",") (fields (to_dict P r))) rs)
  unfolding rows
  rows_lem q [] = refl
  rows_lem q (r ∷ rs) = ap₂ (add_line P) (row-keys r q) (rows_lem q rs)

  -- The names among the values lack the character.
  abbrev AllPlain : ℕ → Entries P → Type 0
  AllPlain c [] = Unit
  AllPlain c ((k, whole n) ∷ d) = AllPlain c d
  AllPlain c ((k, float x) ∷ d) = AllPlain c d
  AllPlain c ((k, text t) ∷ d) = Lacks c t × AllPlain c d

  values-Lacks :
      (c : ℕ) (d : Entries P)
      → c < 48
      → ((x : P.Float) → Lacks c (P.show_float x))
      → AllPlain c d
      → All (Lacks c) (fields d)
  values-Lacks c [] h f a = tt
  values-Lacks c ((k, whole n) ∷ d) h f a = (decimal-Lacks c n h, values-Lacks c d h f a)
  values-Lacks c ((k, float x) ∷ d) h f a = (f x, values-Lacks c d h f a)
  values-Lacks c ((k, text t) ∷ d) h f (plain, a) = (plain, values-Lacks c d h f a)

  fields-Lacks :
      (c : ℕ) (r : ScalabilityResult P)
      → c < 48
      → ((x : P.Float) → Lacks c (P.show_float x))
      → Lacks c r.backend
      → All (Lacks c) (fields (to_dict P r))
  unfolding to_dict
  fields-Lacks c r h f name = values-Lacks c (to_dict P r) h f (name, tt)

  keys-Lacks :
      (r : ScalabilityResult P)
      → All (Lacks 44) (keys P (to_dict P r)) × All (Lacks 10) (keys P (to_dict P r))
  unfolding to_dict
  keys-Lacks r =
      (all_lack-Lacks 44 (keys P (to_dict P r)) refl, all_lack-Lacks 10 (keys P (to_dict P r)) refl)

  split-header :
      (r : ScalabilityResult P)
      → split 44 (join (codes ",") (keys P (to_dict P r))) ≡ keys P (to_dict P r)
  unfolding to_dict
  split-header r = split-join 44 _ _ (keys-Lacks r).0

  -- a line of the table
  abbrev line : ScalabilityResult P → Text
  line r = join (codes ",") (fields (to_dict P r))

  split-line :
      (r : ScalabilityResult P)
      → ((x : P.Float) → Lacks 44 (P.show_float x))
      → Lacks 44 r.backend
      → split 44 (line r) ≡ fields (to_dict P r)
  unfolding to_dict
  split-line r f name = split-join 44 _ _ (fields-Lacks 44 r (omega arith) f name)

  lines-read :
      (rs : List (ScalabilityResult P))
      → IsPlain 44 rs
      → IsPlain 10 rs
      → (map (split 44) (map line rs) ≡ map (λ r. fields (to_dict P r)) rs)
        × All (Lacks 10) (map line rs)
  lines-read [] p q = (refl, tt)
  lines-read (r ∷ rs) p q =
      let (read, plain) =
        lines-read rs (record { below = p.below; floats = p.floats; names = p.names.1 })
          (record { below = q.below; floats = q.floats; names = q.names.1 }) in
      (
        ap₂ (λ a b. a ∷ b) (split-line r p.floats p.names.0) read,
        (
          join-Lacks 10 (codes ",") (fields (to_dict P r)) (refl, tt)
              (fields-Lacks 10 r q.below q.floats q.names.0),
          plain,
        ),
      )

  -- Where no float and no name of a backend is printed with a comma or a line break, the CSV file of
  -- some results can be made, and reads back: its lines, split at the commas, are the keys of the
  -- results and then, for each result in order, the texts of its values.
  pub csv_text_reads_back :
      (r : ScalabilityResult P) (rs : List (ScalabilityResult P))
      → IsPlain 44 (r ∷ rs)
      → IsPlain 10 (r ∷ rs)
      → (t : Text) × (csv_text P (r ∷ rs) ≡ ok (some t))
        × (map (split 44) (split 10 t)
            ≡ keys P (to_dict P r) ∷ map (λ q. fields (to_dict P q)) (r ∷ rs))
  unfolding csv_text
  csv_text_reads_back r rs p q =
      let headers = keys P (to_dict P r) in
      let head = join (codes ",") headers in
      let (read, plain) = lines-read (r ∷ rs) p q in
      let (commas, breaks) = keys-Lacks r in
      let made : rows P headers (r ∷ rs) ≡ ok (map line (r ∷ rs)) = rows_lem r (r ∷ rs) in
      (
        join (10 ∷ []) (head ∷ map line (r ∷ rs)),
        ap (with_header P headers) made,
        ap (map (split 44)) (
              split-join 10 head (map line (r ∷ rs))
                (join-Lacks 10 (codes ",") headers (refl, tt) breaks, plain))
            ∙ ap₂ (λ a b. a ∷ b) (split-header r) read,
      )

-- ===== src/NqlParser/Segment/Total.antt =====
-- The scan of a filter expression ends for every text.
use nblex.Base.{ℕ, ◌≤◌, arith, Option, none, some, List, [], ◌∷◌, length, Bool-cases, inl, inr}
use nblex.Filter.{FilterNode}
use nblex.Filter.Parse.{skip_space, nblex_filter_new}
use nblex.NqlParser.Segment.{
  Mode, plain, scan, stops, next_mode, next_depth, trim_end, parse_segment, filter_of,
  filter_or_error,
}
use nblex.NqlParser.Total.{IsTotal, Leaves, skip-le}
use nblex.Runtime.{Runtime}
use nblex.Text.{Bytes}

length-scan-le :
    (input : Bytes) (ks : List Bytes) (m : Mode) (depth : ℕ) (s : Bytes)
    → length (scan input ks m depth s).1 ≤ length s
unfolding scan
length-scan-le input ks m depth [] = omega arith
length-scan-le input ks m depth (c ∷ s) = elim (Bool-cases (stops input ks m depth (c ∷ s))) [
  | inl e ↦ rw e (omega arith)
  | inr e ↦ rw e (omega (arith, length-scan-le input ks (next_mode m c) (next_depth m depth c) s))
]

module _ {J R X : Type 0} (rt : Runtime J R X) (input : Bytes) where
  filter_or_error-Leaves :
      (rest : Bytes) (o : Option (Option (FilterNode R X))) (n : ℕ)
      → length rest ≤ n
      → Leaves n (filter_or_error rt rest o)
  unfolding filter_or_error
  filter_or_error-Leaves rest none n h = tt
  filter_or_error-Leaves rest (some root) n h = h

  filter_of-Leaves :
      (text rest : Bytes) (n : ℕ) → length rest ≤ n → Leaves n (filter_of rt text rest)
  unfolding filter_of
  filter_of-Leaves [] rest n h = tt
  filter_of-Leaves (c ∷ text) rest n h =
      filter_or_error-Leaves rest (nblex_filter_new rt (some (c ∷ text))) n h

  pub parse_segment-IsTotal : (ks : List Bytes) → IsTotal (parse_segment rt input ks)
  unfolding parse_segment
  parse_segment-IsTotal ks pos n h =
      let found = scan input ks plain 0 (skip_space pos) in
      filter_of-Leaves (trim_end found.0) found.1 n
        (omega (arith, length-scan-le input ks plain 0 (skip_space pos), skip-le pos))

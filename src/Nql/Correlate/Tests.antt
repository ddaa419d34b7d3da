-- ===== src/Nql/Correlate/Tests.antt =====
-- Runs of a correlation query, and the theorems at them.
use nblex.Base.{ℕ, ◌≡◌, refl, Option, none, some, List, [], ◌∷◌, map}
use nblex.Base.Int.{ℤ}
use nblex.Correlation.{in_window}
use nblex.Filter.{
  FilterNode, expr_node, op_eq, string_val, nblex_filter_matches, evaluate_filter_node,
  evaluate_filter_expr,
}
use nblex.Nql.{Event}
use nblex.Nql.Correlate.{Correlate, new_corr_state, create_corr_result_event, is_left, is_right}
use nblex.Nql.Correlate.Stream.{
  execute_all, expected, results_of, as_left, as_right, within, correlated_events,
}
use nblex.Testing.{Sample, text, empty, field, sample}
use nblex.Text.{Bytes, codes, str_eq}

-- level == text
abbrev level_is : Bytes → Option (Option (FilterNode ℤ Bytes))
level_is s = some (
    some (
      expr_node (record { field = codes "level"; op = op_eq; value = string_val s; regex = none })))

abbrev query : Bytes → Bytes → Correlate ℤ Bytes
query l r = record { left_filter = level_is l; right_filter = level_is r; within_ms = 100 }

abbrev event : ℕ → Bytes → Event Sample
event ts level = record {
  timestamp_ns = ts;
  json = some (field (codes "level") (text level) empty);
}

abbrev stream : List (Event Sample)
stream =
    event 1_000_000_000 (codes "error")
    ∷ event 1_050_000_000 (codes "warn")
    ∷ event 1_080_000_000 (codes "error")
    ∷ event 3_000_000_000 (codes "warn")
    ∷ []

-- the first error with the first warning, and that with the second error
stream_times :
    map (λ r. r.timestamp_ns) (expected sample (query (codes "error") (codes "warn")) [] stream)
    ≡ 1_050_000_000 ∷ 1_080_000_000 ∷ []
unfolding expected results_of as_left as_right within in_window create_corr_result_event is_left
    is_right nblex_filter_matches evaluate_filter_node evaluate_filter_expr str_eq
stream_times = refl

correlated_events_example :
    (execute_all sample (query (codes "error") (codes "warn")) (new_corr_state 100) stream).1
    ≡ expected sample (query (codes "error") (codes "warn")) [] stream
correlated_events_example = correlated_events sample (query (codes "error") (codes "warn")) stream

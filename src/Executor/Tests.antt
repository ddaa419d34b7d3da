-- ===== src/Executor/Tests.antt =====
-- Runs of query strings, and the executor's theorems at them.
use nblex.Base.{
  ℕ, ◌≡◌, refl, arith, true, Option, none, some, List, [], ◌∷◌, keep, map, length, ◌||◌,
}
use nblex.Base.Int.{ℤ, pos}
use nblex.Executor.{
  World, Context, wrong_member, Run, ran, faulted, Executed, find_context, nql_execute,
  passes_where,
}
use nblex.Executor.Faults.{mixed_pipeline}
use nblex.Executor.Isolation.{execute, fire, Step, Entry, run_action, run_steps}
use nblex.Executor.Isolation.Interleaving.{is_own, run_steps-keep}
use nblex.Executor.Reachable.{Reached, start, step, Reached-runs, Reached-Fits, CanRun, Fits}
use nblex.Executor.Effects.{applied, effect_of}
use nblex.Executor.Refinement.{nql_execute-effect_of}
use nblex.Filter.{
  FilterNode, expr_node, op_eq, string_val, nblex_filter_matches, evaluate_filter_node,
  evaluate_filter_expr,
}
use nblex.Nql.{Event, agg_count}
use nblex.Nql.Correlate.{Correlate, is_left, is_right}
use nblex.Nql.Bucket.{get_or_create_buckets}
use nblex.NqlParser.{ok}
use nblex.NqlParser.Clauses.{tumbling_window, unwindowed}
use nblex.NqlParser.Query.{Aggregate, correlate, aggregate, single, pipeline, nql_parse_ex}
use nblex.NqlParser.Tests.{run}
use nblex.Testing.{Sample, text, empty, field, sample}
use nblex.Text.{Bytes, codes, str_eq}

abbrev one : World
one = record { id = 1; started = true }

abbrev two : World
two = record { id = 2; started = true }

abbrev event : ℕ → Bytes → Event Sample
event ts level = record {
  timestamp_ns = ts;
  json = some (field (codes "level") (text level) empty);
}

abbrev level_is : Bytes → Option (FilterNode ℤ Bytes)
level_is s =
    some
      (expr_node (record { field = codes "level"; op = op_eq; value = string_val s; regex = none }))

abbrev pairs_text : Bytes
pairs_text = codes "correlate level == \"a\" with level == \"b\" within 5ms"

abbrev counts_text : Bytes
counts_text = codes "aggregate count() window 5s"

abbrev mixed_text : Bytes
mixed_text = codes "correlate level == \"a\" with level == \"b\" | aggregate count()"

abbrev zero_text : Bytes
zero_text = codes "aggregate count() window tumbling(0s)"

abbrev pairs : ℕ → Correlate ℤ Bytes
pairs within = record {
  left_filter = some (level_is (codes "a"));
  right_filter = some (level_is (codes "b"));
  within_ms = within;
}

abbrev counts : ℕ → Aggregate ℤ Bytes
counts size = record {
  funcs = record { kind = agg_count; field = none; percentile = pos 0 } ∷ [];
  group_by_fields = [];
  where_filter = none;
  window = tumbling_window size;
}

mixed_parsed :
    nql_parse_ex sample (some mixed_text)
    ≡ ok (
      pipeline (correlate (pairs 100) ∷ aggregate (record (counts 0) { window = unwindowed }) ∷ []),
      [],
    )
unfolding run
mixed_parsed = refl

zero_parsed : nql_parse_ex sample (some zero_text) ≡ ok (single (aggregate (counts 0)), [])
unfolding run
zero_parsed = refl

counts_parsed : nql_parse_ex sample (some counts_text) ≡ ok (single (aggregate (counts 5000)), [])
unfolding run
counts_parsed = refl

left_matches : is_left sample (pairs 100) (event 7 (codes "a")) ≡ true
unfolding is_left nblex_filter_matches evaluate_filter_node evaluate_filter_expr str_eq
left_matches = refl

left_passes :
    (is_left sample (pairs 100) (event 7 (codes "a"))
      || is_right sample (pairs 100) (event 7 (codes "a")))
    ≡ true
left_passes = rw left_matches refl

mixed_pipeline_example :
    nql_execute sample one mixed_text 9 (event 7 (codes "a")) [] ≡ faulted wrong_member
unfolding find_context passes_where
mixed_pipeline_example =
    mixed_pipeline sample one mixed_text 9 (event 7 (codes "a")) [] (pairs 100)
      (record (counts 0) { window = unwindowed }) [] [] mixed_parsed refl left_passes refl

nql_execute-effect_of_example :
    nql_execute sample one counts_text 9 (event 7 (codes "a")) []
    ≡ applied one counts_text [] (effect_of sample one counts_text 9 (event 7 (codes "a")) none)
unfolding find_context
nql_execute-effect_of_example =
    nql_execute-effect_of sample one counts_text 9 (event 7 (codes "a")) []

-- two query strings, one of them in two worlds
abbrev at_world : World → Bytes → ℕ → Bytes → Step Sample
at_world w s ts level = record { world = w; query_str = s; action = execute 0 (event ts level) }

abbrev steps : List (Step Sample)
steps =
    at_world one pairs_text 31_000_000 (codes "a")
    ∷ at_world one counts_text 31_500_000 (codes "a")
    ∷ at_world two pairs_text 31_800_000 (codes "b")
    ∷ record { world = one; query_str = pairs_text; action = fire 32_000_000 }
    ∷ at_world one pairs_text 33_000_000 (codes "b")
    ∷ []

abbrev Logged : Type 0
Logged = List (Context Sample ℤ) × List (Entry Sample ℤ)

run_all : List (Step Sample) → Run Logged
unfolding run run_steps run_action nql_execute evaluate_filter_expr get_or_create_buckets
run_all xs = run_steps sample xs []

abbrev outcome_of : Run Logged → Logged
outcome_of (ran r) = r
outcome_of (faulted x) = ([], [])

one_emission : map (λ e. length e.emitted) (outcome_of (run_all steps)).1 ≡ 0 ∷ 0 ∷ 0 ∷ 0 ∷ 1 ∷ []
unfolding run_all
one_emission = refl

steps_ran : run_steps sample steps [] ≡ ran (outcome_of (run_all steps))
unfolding run_all
steps_ran = refl

run_steps-keep_example :
    (r : Logged) × ((run_steps sample (keep (is_own one pairs_text) steps) [] ≡ ran r)
      × ((find_context one pairs_text (outcome_of (run_all steps)).0
            ≡ find_context one pairs_text r.0)
          × (keep (λ e. is_own one pairs_text e.step) (outcome_of (run_all steps)).1 ≡ r.1)))
run_steps-keep_example =
    run_steps-keep sample one pairs_text steps [] [] (outcome_of (run_all steps)) refl steps_ran

-- one event counted, from no contexts
counted : Logged
unfolding run_all
counted = outcome_of (run_all (at_world one counts_text 31_500_000 (codes "a") ∷ []))

counted_runs :
    run_action sample one counts_text (execute 0 (event 31_500_000 (codes "a"))) []
    ≡ ran (record { contexts = counted.0; emitted = []; passed = true })
unfolding counted
counted_runs = refl

counted_Reached : Reached sample counted.0
counted_Reached =
    step [] one counts_text (execute 0 (event 31_500_000 (codes "a"))) _ start counted_runs

five_seconds_CanRun : CanRun sample (aggregate (counts 5000))
five_seconds_CanRun = (omega arith, tt)

Reached-runs_example :
    (r : Executed Sample ℤ) × (nql_execute sample one counts_text 0
        (event 32_500_000 (codes "b"))
        counted.0
      ≡ ran r)
Reached-runs_example =
    Reached-runs sample counted.0 one counts_text (aggregate (counts 5000)) [] 0
      (event 32_500_000 (codes "b")) counted_Reached counts_parsed five_seconds_CanRun

Reached-Fits_example :
    Fits sample (single (aggregate (counts 5000))) (find_context one counts_text counted.0)
Reached-Fits_example =
    Reached-Fits sample counted.0 one counts_text (single (aggregate (counts 5000))) []
      counted_Reached counts_parsed

-- ===== src/Executor/Faults.antt =====
-- src/core/nql_executor.c: pipelines of two kinds of state, and windows of zero.
use nblex.Base.{ℕ, ◌≡◌, refl, ◌∙◌, true, ◌||◌, none, some, List, ◌∷◌}
use nblex.Executor.{
  World, Context, zero_window, wrong_member, faulted, find_context, passes_where, nql_execute,
}
use nblex.Executor.Effects.{
  applied, effect_of, parsed_effect, query_effect, pipeline_effect, stage_effect, own_agg, own_corr,
  agg_effect, corr_effect,
}
use nblex.Executor.Refinement.{nql_execute-effect_of}
use nblex.Nql.{Event, tumbling, to_ns}
use nblex.Nql.Aggregate.Reachable.{new_agg_state, aggregate_event-zero_size}
use nblex.Nql.Correlate.{Correlate, is_left, is_right}
use nblex.NqlParser.{ok}
use nblex.NqlParser.Query.{Aggregate, Stage, correlate, aggregate, single, pipeline, nql_parse_ex}
use nblex.Runtime.{Runtime}
use nblex.Text.{Bytes}

module _ {J R X : Type 0} (rt : Runtime J R X) (w : World) (s : Bytes) (now : ℕ) (e : Event J)
    (cs : List (Context J R)) where
  -- A new query string whose pipeline correlates and then aggregates: an event that passes both
  -- reads the correlation's state as an aggregation's.
  pub mixed_pipeline :
      (l : Correlate R X) (q : Aggregate R X) (more : List (Stage R X)) (rest : Bytes)
      → nql_parse_ex rt (some s) ≡ ok (pipeline (correlate l ∷ aggregate q ∷ more), rest)
      → find_context w s cs ≡ none
      → (is_left rt l e || is_right rt l e) ≡ true
      → passes_where rt q.where_filter e ≡ true
      → nql_execute rt w s now e cs ≡ faulted wrong_member
  unfolding effect_of parsed_effect query_effect pipeline_effect stage_effect own_agg own_corr
      corr_effect applied
  mixed_pipeline l q more rest parsed new matches passes =
      nql_execute-effect_of rt w s now e cs ∙ rw (parsed, new, matches, passes) refl

  -- A new query string with a tumbling window of zero: an event that passes divides by it.
  pub zero_size_faults :
      (q : Aggregate R X) (rest : Bytes)
      → nql_parse_ex rt (some s) ≡ ok (single (aggregate q), rest)
      → q.window.kind ≡ tumbling
      → to_ns q.window.size_ms ≡ 0
      → find_context w s cs ≡ none
      → passes_where rt q.where_filter e ≡ true
      → nql_execute rt w s now e cs ≡ faulted zero_window
  unfolding effect_of parsed_effect query_effect stage_effect own_agg agg_effect applied
  zero_size_faults q rest parsed k z new passes =
      let none_left =
        aggregate_event-zero_size rt now (new_agg_state q.window q.funcs q.group_by_fields) e k z in
      nql_execute-effect_of rt w s now e cs ∙ rw (parsed, new, passes, none_left) refl

-- ===== src/NqlParser/Tests.antt =====
-- Runs of the nQL parser, and its theorems at them.
use nblex.Base.{◌≡◌, refl, Option, none, some, [], ◌∷◌}
use nblex.Base.Int.{ℤ, pos}
use nblex.Filter.{FilterNode, expr_node, op_eq, string_val}
use nblex.Filter.Parse.{
  at_char, at_number, parse_comparison, parse_operator, parse_value, parse_filter_expr,
  parse_operators, parse_filter_full, nblex_filter_new,
}
use nblex.Nql.{agg_count, agg_sum}
use nblex.NqlParser.{
  Reply, ok, failed, consume_char, match_keyword, keyword_at_position, char_before,
  parse_identifier, parse_unit, parse_duration,
}
use nblex.NqlParser.Clauses.{
  func_type, func_call, parse_agg_function, comma_list, parse_functions, parse_by, window_clause,
  parse_window, tumbling_window,
}
use nblex.NqlParser.Query.{
  Query, single, pipeline, aggregate, correlate, filter, parse_where, parse_within,
  correlate_clause, aggregate_clause, show_clause, filter_query, parse_single_query, parse_stages,
  nql_parse_ex,
}
use nblex.NqlParser.Segment.{
  next_mode, next_depth, any_keyword, stops, scan, trim_end, parse_segment,
}
use nblex.NqlParser.Print.{
  Duration, minutes, Expression, filtering, correlating, print_pipeline, within_of,
}
use nblex.NqlParser.Query.RoundTrip.{nql_parse_ex-print_pipeline}
use nblex.NqlParser.Query.Total.{Ends, nql_parse_ex-Ends}
use nblex.NqlParser.Segment.Free.{IsExpression, is_free, begins_solid}
use nblex.Testing.{sample, sample-shrinks}
use nblex.Text.{Bytes, codes, str_eq, starts_with, starts_with_nocase, has_char}
use nblex.Text.Number.{strtol, strtoull, to_int}
use nblex.Text.Quoted.{quoted_take, quoted_drop}
use nblex.Text.Scan.{span_take, span_drop}

-- the parser with all that it calls open
unfoldable pub run : Bytes → Reply (Query ℤ Bytes)
unfolding nql_parse_ex parse_stages parse_single_query filter_query show_clause aggregate_clause
    correlate_clause parse_within parse_where parse_window window_clause parse_by parse_functions
    comma_list parse_agg_function func_call func_type parse_segment trim_end scan stops any_keyword
    next_depth next_mode parse_duration parse_unit parse_identifier char_before keyword_at_position
    match_keyword consume_char strtoull nblex_filter_new parse_filter_full parse_filter_expr
    parse_operators parse_comparison parse_operator parse_value at_char at_number starts_with
    starts_with_nocase has_char str_eq strtol to_int quoted_take quoted_drop span_take span_drop
run s = nql_parse_ex sample (some s)

abbrev level_is : Bytes → Option (FilterNode ℤ Bytes)
level_is s =
    some
      (expr_node (record { field = codes "level"; op = op_eq; value = string_val s; regex = none }))

run_aggregate :
    run (codes "Aggregate count(), SUM(bytes) by host, net.port window tumbling(5m)")
    ≡ ok (
      single (
          aggregate (record {
            funcs =
                record { kind = agg_count; field = none; percentile = pos 0 }
                ∷ record { kind = agg_sum; field = some (codes "bytes"); percentile = pos 0 }
                ∷ [];
            group_by_fields = codes "host" ∷ codes "net.port" ∷ [];
            where_filter = none;
            window = tumbling_window 300_000;
          })),
      [],
    )
unfolding run
run_aggregate = refl

run_pipeline :
    run (codes "level == \"a | b\" | correlate level == \"x\" with level == \"y\" within 2s ")
    ≡ ok (
      pipeline (
          filter (level_is (codes "a | b"))
          ∷ correlate (record {
            left_filter = some (level_is (codes "x"));
            right_filter = some (level_is (codes "y"));
            within_ms = 2000;
          })
          ∷ []),
      [],
    )
unfolding run
run_pipeline = refl

run_show : run (codes "show host, , x") ≡ failed (codes "expected field in show list")
unfolding run
run_show = refl

nql_parse_ex-Ends_example :
    Ends (nql_parse_ex sample (some (codes "aggregate count() by host window 5")))
nql_parse_ex-Ends_example =
    nql_parse_ex-Ends sample sample-shrinks (some (codes "aggregate count() by host window 5"))

level_IsExpression : IsExpression (codes "level == \"with | \"")
unfolding is_free begins_solid trim_end next_mode next_depth
level_IsExpression = record { free = refl; starts_solid = refl; ends_solid = refl }

level_parsed :
    nblex_filter_new sample (some (codes "level == \"with | \""))
    ≡ some (level_is (codes "with | "))
unfolding run
level_parsed = refl

abbrev level_expression : Expression sample
level_expression = record {
  text = codes "level == \"with | \"";
  root = level_is (codes "with | ");
  is_expression = level_IsExpression;
  parsed = level_parsed;
}

abbrev two_minutes : Duration
two_minutes = record { first = b'2'; more = []; unit = minutes; are_digits = (refl, tt) }

nql_parse_ex-print_pipeline_example :
    nql_parse_ex sample (
      some (
        print_pipeline sample
          (filtering level_expression refl)
          (correlating level_expression level_expression (some two_minutes) ∷ [])))
    ≡ ok (
      pipeline (
          filter level_expression.root
          ∷ correlate (record {
            left_filter = some level_expression.root;
            right_filter = some level_expression.root;
            within_ms = within_of (some two_minutes);
          })
          ∷ []),
      [],
    )
nql_parse_ex-print_pipeline_example =
    nql_parse_ex-print_pipeline sample (filtering level_expression refl)
      (correlating level_expression level_expression (some two_minutes) ∷ [])

-- ===== src/Filter/Tests.antt =====
-- Runs of the filter engine on concrete filters and events, and the theorems at such inputs.
use nblex.Base.{Bool, true, false, Option, none, some, [], ◌∷◌, ◌≡◌, refl, not, ◌>>=◌}
use nblex.Base.Int.{ℤ, pos}
use nblex.Filter.{
  op_eq, op_match, FilterExpr, FilterNode, int_val, string_val, and_node, not_node, expr_node,
  evaluate_filter_expr, evaluate_filter_node, nblex_filter_matches,
}
use nblex.Filter.Bpf.{nblex_filter_to_bpf}
use nblex.Filter.Bpf.Pushdown.{texts, joined, nblex_filter_to_bpf-joined}
use nblex.Filter.Parse.{
  parse_filter_expr, parse_operators, parse_filter_full, parse_comparison, parse_operator,
  parse_value, nblex_filter_new, at_char, at_number,
}
use nblex.Filter.Parse.Print.{
  Comparison, IsWritable, compared, negated, grouped, Chain, print, tree,
}
use nblex.Filter.Parse.Runs.{Runs, parse_filter_full-Runs}
use nblex.Filter.Parse.RoundTrip.{parse_filter_full-print}
use nblex.Filter.Parse.Unmatched.{alone, quoted_never_matches}
use nblex.Testing.{Sample, number, text, empty, field, sample, sample-shrinks}
use nblex.Text.{Bytes, codes, starts_with, str_eq, has_char}
use nblex.Text.Number.{strtol, to_int}
use nblex.Text.Quoted.{quoted_take, quoted_drop}
use nblex.Text.Scan.{span_take, span_drop}

-- the parser with all that it calls open, for the runs below
run_parse : Bytes → Option (FilterNode ℤ Bytes)
unfolding parse_filter_full parse_filter_expr parse_operators parse_comparison parse_operator
    parse_value at_char at_number starts_with has_char strtol to_int quoted_take quoted_drop
    span_take span_drop
run_parse = parse_filter_full sample

run_matches : Bytes → Sample → Bool
unfolding run_parse nblex_filter_matches evaluate_filter_node evaluate_filter_expr str_eq
run_matches s event = nblex_filter_matches sample (run_parse s >>= λ n. some (some n)) (some event)

abbrev request : Sample
request =
    field (codes "status") (number (pos 500))
      (field (codes "log.level") (text (codes "ERROR")) empty)

status_matches :
    (run_matches (codes "status >= 500 AND log.level == \"ERROR\"") request ≡ true)
    × (run_matches (codes "NOT status == 500") request ≡ false)
    × (run_matches (codes "(status < 500) or status == 500") request ≡ true)
unfolding run_matches
status_matches = (refl, refl, refl)

-- The `.` of the second field makes the first number a double.
dotted_filter : run_matches (codes "status == 500 AND log.level == \"ERROR\"") request ≡ false
unfolding run_matches
dotted_filter = refl

abbrev level : Comparison
level = record { field = codes "log.level"; op = op_eq; body = codes "ERROR" }

abbrev wanted : Chain
wanted = record {
  first = negated (grouped (compared level));
  others = (true, compared level) ∷ (false, compared level) ∷ [];
}

level-IsWritable : IsWritable level
unfolding starts_with
level-IsWritable = record {
  name = (refl, (refl, (refl, (refl, (refl, (refl, (refl, (refl, (refl, tt)))))))));
  some_name = λ e. cc;
  no_not = refl;
  plain = ((refl, refl), ((refl, refl), ((refl, refl), ((refl, refl), ((refl, refl), tt)))));
}

parse_filter_full-print_example : parse_filter_full sample (print wanted) ≡ some (tree wanted)
parse_filter_full-print_example =
    parse_filter_full-print sample wanted
      (level-IsWritable, (level-IsWritable, (level-IsWritable, tt)))

parse_filter_full-Runs_example :
    Runs sample (codes "a in b") (parse_filter_full sample (codes "a in b"))
parse_filter_full-Runs_example = parse_filter_full-Runs sample (codes "a in b") sample-shrinks

abbrev matched : Comparison
matched = record level { op = op_match }

matched-IsWritable : IsWritable matched
unfolding starts_with
matched-IsWritable = record {
  name = (refl, (refl, (refl, (refl, (refl, (refl, (refl, (refl, (refl, tt)))))))));
  some_name = λ e. cc;
  no_not = refl;
  plain = ((refl, refl), ((refl, refl), ((refl, refl), ((refl, refl), ((refl, refl), tt)))));
}

quoted_never_matches_example :
    (nblex_filter_new sample (some (print (alone matched))) ≡ some (some (tree (alone matched))))
    × (nblex_filter_matches sample
          (nblex_filter_new sample (some (print (alone matched))))
          (some request)
        ≡ false)
quoted_never_matches_example =
    quoted_never_matches sample matched (some request) matched-IsWritable refl

abbrev five_hundred : FilterExpr ℤ Bytes
five_hundred = record {
  field = codes "status";
  op = op_eq;
  value = int_val (pos 500);
  regex = none;
}

abbrev packet : Sample
packet =
    field (codes "network.dst_port") (number (pos 443))
      (field (codes "network.protocol") (text (codes "tcp")) empty)

abbrev https : FilterNode ℤ Bytes
https =
    and_node
      (expr_node (record {
        field = codes "network.dst_port";
        op = op_eq;
        value = int_val (pos 443);
        regex = none;
      }))
      (and_node (not_node (expr_node five_hundred)) (
        expr_node (record {
          field = codes "network.protocol";
          op = op_eq;
          value = string_val (codes "tcp");
          regex = none;
        })))

-- a packet filter that drops what names a source, which the packet of the event does not have
abbrev names_source : Bytes → Bool
names_source t = starts_with (codes "src") t

abbrev takes_packet : Bytes → Bool
takes_packet t = not (names_source t)

nblex_filter_to_bpf-joined_example :
    nblex_filter_to_bpf sample (some (some https)) ≡ joined (texts sample https)
nblex_filter_to_bpf-joined_example = nblex_filter_to_bpf-joined sample https

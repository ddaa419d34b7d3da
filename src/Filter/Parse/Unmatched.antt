-- ===== src/Filter/Parse/Unmatched.antt =====
-- Filters that parse and cannot match: what the value part of the parser does to the comparison.
use nblex.Base.{Bool, true, false, [], ◌∷◌, Option, none, some, ◌≡◌, refl, arith}
use nblex.Filter.{
  FilterOp, op_eq, op_in, op_contains, op_match, op_nmatch, evaluate_filter_expr,
  evaluate_filter_node, nblex_filter_matches,
}
use nblex.Filter.Parse.{at_char, at_number, parse_value, nblex_filter_new}
use nblex.Filter.Parse.Print.{Comparison, IsWritable, tree, Chain, compared, print, expr_of, tree}
use nblex.Filter.Parse.RoundTrip.{parse_filter_full-print}
use nblex.Runtime.{integer, Runtime}
use nblex.Text.{Bytes, has_char}

abbrev pub alone : Comparison → Chain
alone c = record { first = compared c; others = [] }

-- =~ and !~, whose quoted pattern is never compiled, and `in` and `contains`
abbrev pub is_inert : FilterOp → Bool
is_inert op_match = true
is_inert op_nmatch = true
is_inert op_in = true
is_inert op_contains = true
is_inert _ = false

at_number-not_quote : (pos : Bytes) → at_number pos ≡ true → at_char b'"' pos ≡ false
unfolding at_number at_char
at_number-not_quote [] h = refl
at_number-not_quote (c ∷ []) h = ground arith
at_number-not_quote (c ∷ d ∷ s) h = ground arith

module _ {J R X : Type 0} (rt : Runtime J R X) where
  evaluate-inert :
      (c : Comparison) (event : J)
      → is_inert c.op ≡ true
      → evaluate_filter_expr rt (expr_of c) event ≡ false
  unfolding evaluate_filter_expr
  evaluate-inert c event h = ground arith

  -- A filter `field op "text"` with one of =~, !~, in, contains is accepted by the parser and
  -- matches no event, where the field is field characters, not empty, and does not begin, with its
  -- operator, with NOT or not, and the text holds no quote and no backslash.
  pub quoted_never_matches :
      (c : Comparison) (event : Option J)
      → IsWritable c
      → is_inert c.op ≡ true
      → (nblex_filter_new rt (some (print (alone c))) ≡ some (some (tree (alone c))))
        × (nblex_filter_matches rt (nblex_filter_new rt (some (print (alone c)))) event ≡ false)
  unfolding nblex_filter_matches nblex_filter_new evaluate_filter_node
  quoted_never_matches c none w h =
      let read = parse_filter_full-print rt (alone c) (w, tt) in (rw read, rw read)
  quoted_never_matches c (some event) w h =
      let read = parse_filter_full-print rt (alone c) (w, tt) in
      (rw read, rw read (evaluate-inert c event h))

  -- A number behind == is read as floating point when a `.` stands anywhere in the rest of the
  -- filter, and then it equals no integer field.
  pub dotted_never_equal :
      (field pos : Bytes) (event v : J)
      → at_number pos ≡ true
      → has_char b'.' pos ≡ true
      → rt.object_get event field ≡ some v
      → rt.typeof v ≡ integer
      → evaluate_filter_expr rt
          (record {
            field = field;
            op = op_eq;
            value = (parse_value rt op_eq pos).value;
            regex = (parse_value rt op_eq pos).regex;
          })
          event
        ≡ false
  unfolding evaluate_filter_expr parse_value
  dotted_never_equal field pos event v num dot g t =
      rw (at_number-not_quote pos num, num, dot, g, t) (ground arith)

-- ===== src/Filter/Parse.antt =====
-- src/core/filter_engine.c: parse_filter_expr, parse_filter_full and nblex_filter_new.
-- The recursion and the loop take fuel, one more than the length of what they are given; `Runs`
-- describes their runs without it.
pub mod Consumes
pub mod Runs
pub mod Print
pub mod RoundTrip
pub mod Unmatched
use nblex.Base.{
  ℕ, zero, suc, Bool, true, false, ◌&&◌, ◌||◌, [], ◌∷◌, Option, none, some, ◌==◌, length, drop,
  if◌then◌else◌, ◌>>=◌,
}
use nblex.Filter.{
  FilterOp, op_eq, op_ne, op_lt, op_le, op_gt, op_ge, op_match, op_nmatch, op_in, op_contains,
  FilterValue, unset, pattern, true_val, false_val, string_val, int_val, float_val, FilterNode,
  and_node, or_node, not_node, expr_node,
}
use nblex.Runtime.{Runtime}
use nblex.Text.{Bytes, codes, isspace, isdigit, isalnum, starts_with, has_char}
use nblex.Text.Number.{strtol, to_int}
use nblex.Text.Quoted.{quoted_take, quoted_drop}
use nblex.Text.Scan.{span_take, span_drop}

abbrev pub skip_space : Bytes → Bytes
skip_space = span_drop isspace

abbrev pub is_field_char : ℕ → Bool
is_field_char c = isalnum c || c == b'_' || c == b'.'

abbrev pub not_space : ℕ → Bool
not_space c = if isspace c then false else true

-- `*pos == c`
unfoldable pub at_char : ℕ → Bytes → Bool
at_char c [] = false
at_char c (x ∷ s) = x == c

unfoldable pub parse_operator : Bytes → Option (FilterOp × Bytes)
unfolding starts_with at_char
parse_operator pos =
    if starts_with (codes "==") pos
    then some (op_eq, drop 2 pos)
    else if starts_with (codes "!=") pos
    then some (op_ne, drop 2 pos)
    else if starts_with (codes "<=") pos
    then some (op_le, drop 2 pos)
    else if starts_with (codes ">=") pos
    then some (op_ge, drop 2 pos)
    else if at_char b'<' pos
    then some (op_lt, drop 1 pos)
    else if at_char b'>' pos
    then some (op_gt, drop 1 pos)
    else if starts_with (codes "=~") pos
    then some (op_match, drop 2 pos)
    else if starts_with (codes "!~") pos
    then some (op_nmatch, drop 2 pos)
    else if starts_with (codes "in") pos
    then some (op_in, drop 2 pos)
    else if starts_with (codes "contains") pos
    then some (op_contains, drop 8 pos)
    else none

-- `isdigit (*pos) || (*pos == '-' && isdigit (*(pos + 1)))`
unfoldable pub at_number : Bytes → Bool
at_number [] = false
at_number (c ∷ []) = isdigit c
at_number (c ∷ d ∷ s) = isdigit c || (c == b'-' && isdigit d)

abbrev pub is_match_op : FilterOp → Bool
is_match_op op_match = true
is_match_op op_nmatch = true
is_match_op _ = false

abbrev skip_close : Bytes → Bytes
skip_close [] = []
skip_close (c ∷ s) = if c == b')' then s else c ∷ s

abbrev at_not : Bytes → Bool
at_not pos = starts_with (codes "NOT") pos || starts_with (codes "not") pos

-- What the value part of an expression sets, and the string behind it.
pub record Parsed (R X : Type 0) : Type 0 where
  pub value : FilterValue R
  pub regex : Option X
  pub rest : Bytes

module _ {J R X : Type 0} (rt : Runtime J R X) where
  abbrev plain : FilterValue R → Bytes → Parsed R X
  plain v rest = record { value = v; regex = none; rest = rest }

  -- behind the opening quote; `end` is where the loop stops
  close_string : Bytes → Bytes → Parsed R X
  close_string body [] = plain unset []
  close_string body (_ ∷ rest) = plain (string_val body) rest

  -- the `.` may stand anywhere in what is left of the whole expression
  number_value : Bytes → Parsed R X
  number_value pos =
      if has_char b'.' pos
      then (let (r, rest) = rt.strtod pos in plain (float_val r) rest)
      else (let (n, rest) = strtol pos in plain (int_val (to_int n)) rest)

  regex_value : Bytes → Parsed R X
  regex_value pos = record {
    value = pattern;
    regex = rt.compile (span_take not_space pos);
    rest = span_drop not_space pos;
  }

  unfoldable pub parse_value : FilterOp → Bytes → Parsed R X
  unfolding close_string number_value regex_value
  parse_value op pos =
      if at_char b'"' pos
      then close_string (quoted_take (drop 1 pos)) (quoted_drop (drop 1 pos))
      else if at_number pos
      then number_value pos
      else if starts_with (codes "true") pos
      then plain true_val (drop 4 pos)
      else if starts_with (codes "false") pos
      then plain false_val (drop 5 pos)
      else if is_match_op op
      then regex_value pos
      else plain unset pos

  with_operator : Bytes → Option (FilterOp × Bytes) → Option (FilterNode R X × Bytes)
  with_operator field none = none
  with_operator field (some (op, pos)) =
      let v = parse_value op (skip_space pos) in
      some (expr_node (record { field = field; op = op; value = v.value; regex = v.regex }), v.rest)

  with_field : Bytes → Bytes → Option (FilterNode R X × Bytes)
  with_field [] pos = none
  with_field (c ∷ cs) pos = with_operator (c ∷ cs) (parse_operator (skip_space pos))

  -- from `Parse field` on
  unfoldable pub parse_comparison : Bytes → Option (FilterNode R X × Bytes)
  unfolding with_operator with_field
  parse_comparison pos = with_field (span_take is_field_char pos) (span_drop is_field_char pos)

  pub close_paren : Option (FilterNode R X × Bytes) → Option (FilterNode R X × Bytes)
  close_paren none = none
  close_paren (some (n, pos)) = some (n, skip_close (skip_space pos))

  pub negate : Option (FilterNode R X × Bytes) → Option (FilterNode R X × Bytes)
  negate none = none
  negate (some (n, pos)) = some (not_node n, pos)

  unfoldable pub parse_filter_expr : ℕ → Bytes → Option (FilterNode R X × Bytes)
  unfolding close_paren negate
  parse_filter_expr zero s = none
  parse_filter_expr (suc f) s =
      let pos = skip_space s in
      let inner = close_paren (parse_filter_expr f (drop 1 pos)) in
      let operand = negate (parse_filter_expr f (drop 3 pos)) in
      if at_char b'(' pos then inner else if at_not pos then operand else parse_comparison pos

  -- The loop of parse_filter_full, from the tree built so far.
  unfoldable pub parse_operators : ℕ → FilterNode R X → Bytes → Option (FilterNode R X)
  parse_operators zero left s = none
  parse_operators (suc f) left [] = some left
  parse_operators (suc f) left (c ∷ s) =
      let pos = skip_space (c ∷ s) in
      let conj = parse_filter_expr (suc (length pos)) (drop 3 pos) >>= λ (right, rest).
      parse_operators f (and_node left right) rest in
      let disj = parse_filter_expr (suc (length pos)) (drop 2 pos) >>= λ (right, rest).
      parse_operators f (or_node left right) rest in
      if starts_with (codes "AND") pos || starts_with (codes "and") pos
      then conj
      else if starts_with (codes "OR") pos || starts_with (codes "or") pos
      then disj
      else some left

  unfoldable pub parse_filter_full : Bytes → Option (FilterNode R X)
  parse_filter_full s = parse_filter_expr (suc (length s)) s >>= λ (left, rest).
      parse_operators (suc (length rest)) left rest

  -- A NULL expression, and one that does not parse, give NULL.
  unfoldable pub nblex_filter_new : Option Bytes → Option (Option (FilterNode R X))
  nblex_filter_new none = none
  nblex_filter_new (some s) = parse_filter_full s >>= λ root. some (some root)

-- ===== src/NqlParser/Clauses.antt =====
-- src/parsers/nql_parser.c: the functions, the fields and the window of an aggregation.
pub mod Total
use nblex.Base.{
  ℕ, zero, suc, Bool, true, false, Option, none, some, List, [], ◌∷◌, ◌++◌, ◌==◌, leb, length, map,
  if◌then◌else◌,
}
use nblex.Filter.Parse.{skip_space}
use nblex.Nql.{
  AggType, agg_count, agg_sum, agg_avg, agg_min, agg_max, agg_percentile, agg_distinct, AggFunc,
  Window, WindowType, no_window, tumbling, sliding, session, real_zero,
}
use nblex.NqlParser.{
  Reply, ok, failed, out_of_fuel, ◌>>=◌, branch, consume_char, match_keyword, expect,
  parse_identifier, parse_duration,
}
use nblex.Runtime.{Runtime}
use nblex.Text.{Bytes, codes, isalpha, tolower, str_eq}
use nblex.Text.Scan.{span_take, span_drop}

unfoldable pub func_type : Bytes → Option AggType
unfolding str_eq
func_type name =
    if str_eq name (codes "sum")
    then some agg_sum
    else if str_eq name (codes "avg")
    then some agg_avg
    else if str_eq name (codes "min")
    then some agg_min
    else if str_eq name (codes "max")
    then some agg_max
    else if str_eq name (codes "distinct")
    then some agg_distinct
    else none

-- An item and, while a comma follows, further ones; the loop runs on fuel.
unfoldable pub comma_list {ℓ} :
    {A : Type ℓ} → (Bytes → Reply A) → (Bytes → Reply A) → ℕ → Bytes → Reply (List A)
unfolding consume_char
comma_list first item zero pos = out_of_fuel
comma_list first item (suc f) pos = first pos >>= λ (a, pos).
    branch (consume_char b',' pos) (ok (a ∷ [], pos))
      λ pos. comma_list item item f pos >>= λ (more, pos). ok (a ∷ more, pos)

by_field : Bytes → Reply Bytes
unfolding parse_identifier
by_field pos = parse_identifier (codes "expected field after 'by'") pos

unfoldable pub parse_by : Bytes → Reply (List Bytes)
unfolding match_keyword comma_list by_field
parse_by pos =
    branch (match_keyword (codes "by") pos) (ok ([], pos))
      λ pos. comma_list by_field by_field (suc (length pos)) pos

module _ {J R X : Type 0} (rt : Runtime J R X) where
  count_call : Bytes → Reply (AggFunc R)
  unfolding consume_char
  count_call pos = expect b')' pos (codes "expected ')' after count()") >>= λ (_, pos).
      ok (record { kind = agg_count; field = none; percentile = real_zero rt }, pos)

  percentile_end : Bytes → ℕ → R × Bytes → Reply (AggFunc R)
  unfolding consume_char
  percentile_end field start (value, rest) =
      if length rest == start
      then failed (codes "expected percentile value")
      else expect b')' rest (codes "expected ')' after percentile()") >>= λ (_, pos).
          ok (record { kind = agg_percentile; field = some field; percentile = value }, pos)

  percentile_call : Bytes → Reply (AggFunc R)
  unfolding parse_identifier consume_char percentile_end
  percentile_call pos =
      parse_identifier (codes "expected field name in percentile()") pos >>= λ (field, pos).
      expect b',' pos (codes "expected ',' in percentile()") >>= λ (_, pos).
      percentile_end field (length (skip_space pos)) (rt.strtod (skip_space pos))

  field_call : Bytes → Option AggType → Bytes → Reply (AggFunc R)
  unfolding parse_identifier consume_char
  field_call name none pos = failed (codes "unknown aggregation function '" ++ (name ++ b'\'' ∷ []))
  field_call name (some kind) pos =
      parse_identifier (codes "expected field name for aggregation") pos >>= λ (field, pos).
      expect b')' pos (codes "expected ')' after aggregation") >>= λ (_, pos).
      ok (record { kind = kind; field = some field; percentile = real_zero rt }, pos)

  -- the part of a function behind its opening parenthesis
  unfoldable pub func_call : Bytes → Bytes → Reply (AggFunc R)
  unfolding str_eq count_call percentile_call field_call func_type
  func_call name pos =
      if str_eq name (codes "count")
      then count_call pos
      else if str_eq name (codes "percentile")
      then percentile_call pos
      else field_call name (func_type name) pos

  func_named : Bytes → Bytes → Reply (AggFunc R)
  unfolding func_call consume_char
  func_named [] pos = failed (codes "expected aggregation function")
  func_named (c ∷ name) pos =
      if leb 32 (length (c ∷ name))
      then failed (codes "aggregation function name too long")
      else expect b'(' pos (codes "expected '(' after aggregation function") >>= λ (_, pos).
          func_call (map tolower (c ∷ name)) pos

  unfoldable pub parse_agg_function : Bytes → Reply (AggFunc R)
  unfolding span_take span_drop func_named
  parse_agg_function pos =
      let s = skip_space pos in func_named (span_take isalpha s) (span_drop isalpha s)

  functions : Bytes → Reply (List (AggFunc R))
  unfolding comma_list parse_agg_function
  functions pos = comma_list parse_agg_function parse_agg_function (suc (length pos)) pos

  -- the functions, in parentheses or not
  unfoldable pub parse_functions : Bytes → Reply (List (AggFunc R))
  unfolding consume_char functions
  parse_functions pos = branch (consume_char b'(' pos) (functions pos) λ pos.
      functions pos >>= λ (funcs, pos).
      expect b')' pos (codes "expected ')' after aggregation function list") >>= λ (_, pos).
      ok (funcs, pos)

-- a window of one kind; the members that it does not set are zero
abbrev pub tumbling_window : ℕ → Window
tumbling_window size = record { kind = tumbling; size_ms = size; slide_ms = 0; timeout_ms = 0 }

abbrev pub sliding_window : ℕ → ℕ → Window
sliding_window size slide = record {
  kind = sliding;
  size_ms = size;
  slide_ms = slide;
  timeout_ms = 0;
}

abbrev pub session_window : ℕ → Window
session_window timeout = record { kind = session; size_ms = 0; slide_ms = 0; timeout_ms = timeout }

abbrev pub unwindowed : Window
unwindowed = record { kind = no_window; size_ms = 0; slide_ms = 0; timeout_ms = 0 }

tumbling_clause : Bytes → Reply Window
unfolding consume_char parse_duration
tumbling_clause pos = expect b'(' pos (codes "expected '(' after tumbling") >>= λ (_, pos).
    parse_duration pos >>= λ (size, pos).
    expect b')' pos (codes "expected ')' after tumbling window") >>= λ (_, pos).
    ok (tumbling_window size, pos)

sliding_clause : Bytes → Reply Window
unfolding consume_char parse_duration
sliding_clause pos = expect b'(' pos (codes "expected '(' after sliding") >>= λ (_, pos).
    parse_duration pos >>= λ (size, pos).
    expect b',' pos (codes "expected ',' in sliding window") >>= λ (_, pos).
    parse_duration pos >>= λ (slide, pos).
    expect b')' pos (codes "expected ')' after sliding window") >>= λ (_, pos).
    ok (sliding_window size slide, pos)

session_clause : Bytes → Reply Window
unfolding consume_char parse_duration
session_clause pos = expect b'(' pos (codes "expected '(' after session") >>= λ (_, pos).
    parse_duration pos >>= λ (timeout, pos).
    expect b')' pos (codes "expected ')' after session window") >>= λ (_, pos).
    ok (session_window timeout, pos)

-- a bare duration is the size of a tumbling window
bare_clause : Bytes → Reply Window
unfolding parse_duration
bare_clause pos = parse_duration pos >>= λ (size, pos). ok (tumbling_window size, pos)

-- the words that are tried in turn
try_session : Bytes → Reply Window
unfolding match_keyword session_clause bare_clause
try_session pos =
    branch (match_keyword (codes "session") pos) (bare_clause pos) λ pos. session_clause pos

try_sliding : Bytes → Reply Window
unfolding match_keyword sliding_clause try_session
try_sliding pos =
    branch (match_keyword (codes "sliding") pos) (try_session pos) λ pos. sliding_clause pos

unfoldable pub window_clause : Bytes → Reply Window
unfolding match_keyword tumbling_clause try_sliding
window_clause pos =
    branch (match_keyword (codes "tumbling") pos) (try_sliding pos) λ pos. tumbling_clause pos

unfoldable pub parse_window : Bytes → Reply Window
unfolding match_keyword window_clause
parse_window pos =
    branch (match_keyword (codes "window") pos) (ok (unwindowed, pos)) λ pos. window_clause pos

-- ===== src/NqlParser/Query.antt =====
-- src/parsers/nql_parser.c: the queries, pipelines and nql_parse_ex.
pub mod Total
pub mod Lexemes
pub mod Clauses
pub mod RoundTrip
use nblex.Base.{
  ℕ, zero, suc, ◌==◌, Bool, true, false, Option, none, some, List, [], ◌∷◌, drop, length,
  if◌then◌else◌,
}
use nblex.Filter.{FilterNode}
use nblex.Filter.Parse.{skip_space, at_char}
use nblex.Nql.{AggFunc, Window}
use nblex.Nql.Correlate.{Correlate}
use nblex.NqlParser.{
  Reply, ok, failed, out_of_fuel, ◌>>=◌, branch, consume_char, match_keyword, parse_identifier,
  parse_duration,
}
use nblex.NqlParser.Clauses.{comma_list, parse_functions, parse_by, parse_window}
use nblex.NqlParser.Segment.{parse_segment}
use nblex.Runtime.{Runtime}
use nblex.Text.{Bytes, codes}

-- nql_aggregate_t; `where` may be NULL, and a filter is its root
pub record Aggregate (R X : Type 0) : Type 0 where
  pub funcs : List (AggFunc R)
  pub group_by_fields : List Bytes
  pub where_filter : Option (Option (FilterNode R X))
  pub window : Window

-- nql_show_t
pub record Show (R X : Type 0) : Type 0 where
  pub fields : List Bytes
  pub select_all : Bool
  pub where_filter : Option (Option (FilterNode R X))

-- nql_query_t other than a pipeline
pub data Stage (R X : Type 0) : Type 0 where
  filter : Option (FilterNode R X) → Stage R X
  correlate : Correlate R X → Stage R X
  aggregate : Aggregate R X → Stage R X
  show : Show R X → Stage R X

-- nql_query_t; parse_single_query makes the stages of a pipeline, so they are no pipelines
pub data Query (R X : Type 0) : Type 0 where
  single : Stage R X → Query R X
  pipeline : List (Stage R X) → Query R X

-- DEFAULT_CORRELATE_WITHIN_MS
abbrev pub default_within_ms : ℕ
default_within_ms = 100

show_fields : Bytes → Reply (List Bytes)
unfolding comma_list parse_identifier
show_fields pos =
    comma_list (λ pos. parse_identifier (codes "expected field list for show") pos)
      (λ pos. parse_identifier (codes "expected field in show list") pos) (suc (length pos)) pos

-- the keywords that end a filter expression
abbrev pub left_keywords : List Bytes
left_keywords = codes "with" ∷ codes "within" ∷ codes "|" ∷ []

abbrev pub right_keywords : List Bytes
right_keywords = codes "within" ∷ codes "|" ∷ []

abbrev pub window_keywords : List Bytes
window_keywords = codes "window" ∷ codes "|" ∷ []

abbrev pub pipe_keyword : List Bytes
pipe_keyword = codes "|" ∷ []

module _ {J R X : Type 0} (rt : Runtime J R X) (input : Bytes) where
  -- WHERE, with the keywords that end its filter
  unfoldable pub parse_where : List Bytes → Bytes → Reply (Option (Option (FilterNode R X)))
  unfolding match_keyword parse_segment
  parse_where keywords pos =
      branch (match_keyword (codes "where") pos) (ok (none, pos))
        λ pos. parse_segment rt input keywords pos >>= λ (root, pos). ok (some root, pos)

  unfoldable pub parse_within : Bytes → Reply ℕ
  unfolding match_keyword parse_duration
  parse_within pos =
      branch (match_keyword (codes "within") pos) (ok (default_within_ms, pos)) λ pos.
        parse_duration pos >>= λ (within, pos).
        ok (if within == 0 then default_within_ms else within, pos)

  -- `with`, the right filter and the window
  correlate_right : Option (FilterNode R X) → Bytes → Reply (Stage R X)
  unfolding parse_segment parse_within
  correlate_right left pos = parse_segment rt input right_keywords pos >>= λ (right, pos).
      parse_within pos >>= λ (within, pos). ok (
        correlate
            (record { left_filter = some left; right_filter = some right; within_ms = within }),
        pos,
      )

  -- parse_correlate behind its keyword
  unfoldable pub correlate_clause : Bytes → Reply (Stage R X)
  unfolding parse_segment match_keyword correlate_right
  correlate_clause pos = parse_segment rt input left_keywords pos >>= λ (left, pos).
      branch (match_keyword (codes "with") pos)
        (failed (codes "expected 'with' in correlate clause")) λ pos. correlate_right left pos

  -- parse_aggregate behind its keyword
  unfoldable pub aggregate_clause : Bytes → Reply (Stage R X)
  unfolding parse_functions parse_by parse_where parse_window
  aggregate_clause pos = parse_functions rt pos >>= λ (funcs, pos).
      parse_by pos >>= λ (fields, pos). parse_where window_keywords pos >>= λ (where_filter, pos).
      parse_window pos >>= λ (window, pos). ok (
        aggregate (record {
          funcs = funcs;
          group_by_fields = fields;
          where_filter = where_filter;
          window = window;
        }),
        pos,
      )

  show_where : List Bytes → Bool → Bytes → Reply (Stage R X)
  unfolding parse_where
  show_where fields all pos = parse_where pipe_keyword pos >>= λ (where_filter, pos).
      ok (show (record { fields = fields; select_all = all; where_filter = where_filter }), pos)

  -- parse_show behind its keyword
  unfoldable pub show_clause : Bytes → Reply (Stage R X)
  unfolding consume_char show_where show_fields
  show_clause pos =
      branch (consume_char b'*' pos)
        (show_fields pos >>= λ (fields, pos). show_where fields false pos)
        λ pos. show_where [] true pos

  -- parse_filter_query
  unfoldable pub filter_query : Bytes → Reply (Stage R X)
  unfolding parse_segment
  filter_query pos =
      parse_segment rt input pipe_keyword pos >>= λ (root, pos). ok (filter root, pos)

  -- the kinds that parse_single_query tries in turn, each from the same position
  try_all : Bytes → Reply (Stage R X)
  unfolding consume_char show_where filter_query
  try_all pos = branch (consume_char b'*' pos) (filter_query pos) λ pos. show_where [] true pos

  try_show : Bytes → Reply (Stage R X)
  unfolding match_keyword show_clause try_all
  try_show pos = branch (match_keyword (codes "show") pos) (try_all pos) λ pos. show_clause pos

  try_aggregate : Bytes → Reply (Stage R X)
  unfolding match_keyword aggregate_clause try_show
  try_aggregate pos =
      branch (match_keyword (codes "aggregate") pos) (try_show pos) λ pos. aggregate_clause pos

  unfoldable pub parse_single_query : Bytes → Reply (Stage R X)
  unfolding match_keyword correlate_clause try_aggregate
  parse_single_query pos =
      branch (match_keyword (codes "correlate") pos) (try_aggregate pos) λ pos. correlate_clause pos

  -- the stages of parse_pipeline, on fuel
  unfoldable pub parse_stages : ℕ → Bytes → Reply (List (Stage R X))
  unfolding parse_single_query consume_char
  parse_stages zero pos = out_of_fuel
  parse_stages (suc f) pos = parse_single_query pos >>= λ (stage, pos).
      branch (consume_char b'|' pos) (ok (stage ∷ [], pos))
        λ pos. parse_stages f pos >>= λ (stages, pos). ok (stage ∷ stages, pos)

-- one stage stands for itself
abbrev pub query_of : {R X : Type 0} → List (Stage R X) → Query R X
query_of (stage ∷ []) = single stage
query_of stages = pipeline stages

module _ {J R X : Type 0} (rt : Runtime J R X) where
  at_end : Query R X → Bytes → Reply (Query R X)
  at_end query [] = ok (query, [])
  at_end query (c ∷ s) = failed (codes "unexpected trailing input")

  parse_entry : Bytes → Bytes → Reply (Query R X)
  unfolding parse_stages at_end
  parse_entry input [] = failed (codes "empty query")
  parse_entry input (c ∷ s) =
      parse_stages rt input (suc (length (c ∷ s))) (c ∷ s) >>= λ (stages, pos).
      at_end (query_of stages) (skip_space pos)

  -- nql_parse_ex: the query, or the message behind `error_out`
  unfoldable pub nql_parse_ex : Option Bytes → Reply (Query R X)
  unfolding parse_entry
  nql_parse_ex none = failed (codes "query string is NULL")
  nql_parse_ex (some input) = parse_entry input (skip_space input)

-- ===== src/Executor.antt =====
-- src/core/nql_executor.c: the execution contexts, each with the state of one query string in
-- one world, and the execution of a query on an event. The events that the code emits are a list
-- beside its result, in their order.
pub mod Registry
pub mod Effects
pub mod Refinement
pub mod Isolation
pub mod Reachable
pub mod Faults
mod Tests
use nblex.Base.{
  ℕ, Bool, true, false, ◌&&◌, ◌||◌, Option, none, some, List, [], ◌∷◌, ◌++◌, ◌==◌, ltb, ◌/◌, map,
  if◌then◌else◌,
}
use nblex.Filter.{FilterNode, nblex_filter_matches}
use nblex.Nql.{Event, Window, WindowType, no_window, tumbling, sliding, session}
use nblex.Nql.Aggregate.{aggregate_event}
use nblex.Nql.Aggregate.Reachable.{new_agg_state}
use nblex.Nql.Bucket.{AggState}
use nblex.Nql.Correlate.{
  Correlate, CorrState, CorrResult, new_corr_state, corr_cleanup_cb, is_left, is_right,
  execute_correlate,
}
use nblex.Nql.Flush.{AggResult, to_list, window_flush_cb}
use nblex.NqlParser.{Reply, ok, failed, out_of_fuel}
use nblex.NqlParser.Query.{
  Aggregate, Show, Stage, filter, correlate, aggregate, show, Query, single, pipeline, nql_parse_ex,
}
use nblex.Runtime.{Runtime}
use nblex.Text.{Bytes, str_eq}

-- What the executor reads of an nblex_world: which one it is, and `loop && started`.
pub record World : Type 0 where
  pub id : ℕ
  pub started : Bool

-- The union of nql_exec_ctx_t, with the timer of the state: the interval of a window_timer in
-- milliseconds, and whether there is a cleanup_timer.
pub data State (J R : Type 0) : Type 0 where
  agg_state : AggState R → Option ℕ → State J R
  corr_state : CorrState J → Bool → State J R

-- nql_exec_ctx_t; its query_type says which member of the union it set
pub record Context (J R : Type 0) : Type 0 where
  pub world : ℕ
  pub query_string : Bytes
  pub state : State J R

-- The faults that a run can end in: the division by the size of a window that is zero, the read of
-- the member of the union that was not set, and a parser that ran out of its fuel. The group keys
-- that the buckets of a sliding window share, and that are released once for each, are not one.
pub data Fault : Type 0 where
  zero_window wrong_member no_fuel : Fault

pub data Run {ℓ} (A : Type ℓ) : Type ℓ where
  ran : A → Run A
  faulted : Fault → Run A

infixl 5 ◌>>=◌
abbrev pub ◌>>=◌ {ℓ κ} : {A : Type ℓ} {B : Type κ} → Run A → (A → Run B) → Run B
ran a >>= f = f a
faulted e >>= f = faulted e

-- an event that nblex_event_emit is given
pub data Emission (J R : Type 0) : Type 0 where
  agg_result : AggResult R → Emission J R
  corr_result : CorrResult J → Emission J R

-- exec_contexts, with the result of an execution and what it emitted
pub record Executed (J R : Type 0) : Type 0 where
  pub contexts : List (Context J R)
  pub emitted : List (Emission J R)
  pub passed : Bool

-- the test of the search in get_agg_state and get_corr_state
unfoldable pub is_context : {J R : Type 0} → World → Bytes → Context J R → Bool
unfolding str_eq
is_context w query_str c = str_eq c.query_string query_str && c.world == w.id

module _ {J R : Type 0} (w : World) (query_str : Bytes) where
  unfoldable pub find_context : List (Context J R) → Option (State J R)
  unfolding is_context
  find_context [] = none
  find_context (c ∷ cs) =
      let later = find_context cs in if is_context w query_str c then some c.state else later

  -- a new context in front of the others
  abbrev pub add_context : State J R → List (Context J R) → List (Context J R)
  add_context st cs = record { world = w.id; query_string = query_str; state = st } ∷ cs

  -- the write through the pointer that the search found
  unfoldable pub write_context : State J R → List (Context J R) → List (Context J R)
  unfolding is_context
  write_context st [] = []
  write_context st (c ∷ cs) =
      let later = write_context st cs in
      if is_context w query_str c then record c { state = st } ∷ cs else c ∷ later

abbrev timer_interval : WindowType → Window → ℕ
timer_interval session w = if ltb (w.timeout_ms / 2) 100 then 100 else w.timeout_ms / 2
timer_interval _ w = if ltb 0 w.slide_ms then w.slide_ms else w.size_ms

new_agg_timer : WindowType → Window → Option ℕ
new_agg_timer no_window w = none
new_agg_timer k w = some (timer_interval k w)

-- ensure_agg_timer_initialized, which get_agg_state repeats for a new state
unfoldable pub ensure_agg_timer : World → Window → Option ℕ → Option ℕ
unfolding new_agg_timer
ensure_agg_timer w window (some interval) = some interval
ensure_agg_timer w window none = if w.started then new_agg_timer window.kind window else none

module _ {J R X : Type 0} (rt : Runtime J R X) where
  unfoldable pub passes_where : Option (Option (FilterNode R X)) → Event J → Bool
  unfolding nblex_filter_matches
  passes_where none e = true
  passes_where (some root) e = nblex_filter_matches rt (some root) e.json

  unfoldable pub execute_show : Show R X → Event J → Bool
  unfolding passes_where
  execute_show q e = passes_where q.where_filter e

  unfoldable pub execute_filter : Option (FilterNode R X) → Event J → Bool
  unfolding nblex_filter_matches
  execute_filter root e = nblex_filter_matches rt (some root) e.json

module _ {J R X : Type 0} (rt : Runtime J R X) (w : World) (query_str : Bytes) where
  agg_context :
      Aggregate R X
      → List (Context J R)
      → Option (State J R)
      → Run ((AggState R × Option ℕ) × List (Context J R))
  unfolding ensure_agg_timer
  agg_context q cs none =
      let st = new_agg_state q.window q.funcs q.group_by_fields in
      let timer = ensure_agg_timer w q.window none in
      ran ((st, timer), add_context w query_str (agg_state st timer) cs)
  agg_context q cs (some (agg_state st timer)) = ran ((st, timer), cs)
  agg_context q cs (some (corr_state st timer)) = faulted wrong_member

  unfoldable pub get_agg_state :
      Aggregate R X → List (Context J R) → Run ((AggState R × Option ℕ) × List (Context J R))
  unfolding agg_context find_context
  get_agg_state q cs = agg_context q cs (find_context w query_str cs)

  corr_context :
      Correlate R X
      → List (Context J R)
      → Option (State J R)
      → Run ((CorrState J × Bool) × List (Context J R))
  corr_context q cs none =
      let st = new_corr_state q.within_ms in
      ran ((st, w.started), add_context w query_str (corr_state st w.started) cs)
  corr_context q cs (some (corr_state st timer)) = ran ((st, timer), cs)
  corr_context q cs (some (agg_state st timer)) = faulted wrong_member

  unfoldable pub get_corr_state :
      Correlate R X → List (Context J R) → Run ((CorrState J × Bool) × List (Context J R))
  unfolding corr_context find_context
  get_corr_state q cs = corr_context q cs (find_context w query_str cs)

  abbrev unmatched : List (Context J R) → Executed J R
  unmatched cs = record { contexts = cs; emitted = []; passed = false }

  aggregated :
      Option ℕ
      → List (Context J R)
      → Option (AggState R × Option (AggResult R))
      → Run (Executed J R)
  unfolding write_context
  aggregated timer cs none = faulted zero_window
  aggregated timer cs (some (st, result)) = ran (record {
    contexts = write_context w query_str (agg_state st timer) cs;
    emitted = map agg_result (to_list result);
    passed = true;
  })

  -- at the time `now` of the clock
  unfoldable pub execute_aggregate :
      ℕ → Aggregate R X → Event J → List (Context J R) → Run (Executed J R)
  unfolding passes_where get_agg_state ensure_agg_timer aggregate_event aggregated
  execute_aggregate now q e cs =
      let counted = get_agg_state q cs >>= λ ((st, timer), cs).
      aggregated (ensure_agg_timer w st.window timer) cs (aggregate_event rt now st e) in
      if passes_where rt q.where_filter e then counted else ran (unmatched cs)

  correlated : Correlate R X → Event J → CorrState J × Bool → List (Context J R) → Executed J R
  unfolding write_context execute_correlate
  correlated q e (st, timer) cs =
      let r = execute_correlate rt q st e in
      record {
        contexts = write_context w query_str (corr_state r.state (timer || w.started)) cs;
        emitted = map corr_result r.emitted;
        passed = true;
      }

  unfoldable pub execute_correlation :
      Correlate R X → Event J → List (Context J R) → Run (Executed J R)
  unfolding is_left is_right get_corr_state correlated
  execute_correlation q e cs =
      let found = get_corr_state q cs >>= λ (st, cs). ran (correlated q e st cs) in
      if is_left rt q e || is_right rt q e then found else ran (unmatched cs)

  -- execute_query of a query that is no pipeline
  unfoldable pub execute_stage : ℕ → Stage R X → Event J → List (Context J R) → Run (Executed J R)
  unfolding execute_filter execute_correlation execute_show execute_aggregate
  execute_stage now (filter root) e cs =
      ran (record { contexts = cs; emitted = []; passed = execute_filter rt root e })
  execute_stage now (correlate q) e cs = execute_correlation q e cs
  execute_stage now (show q) e cs =
      ran (record { contexts = cs; emitted = []; passed = execute_show rt q e })
  execute_stage now (aggregate q) e cs = execute_aggregate now q e cs

  -- the stages behind one that passed, with what it emitted in front
  after : List (Emission J R) → Run (Executed J R) → Run (Executed J R)
  after emitted rest = rest >>= λ r. ran (record r { emitted = emitted ++ r.emitted })

  unfoldable pub execute_pipeline :
      ℕ → List (Stage R X) → Event J → List (Context J R) → Run (Executed J R)
  unfolding execute_stage after
  execute_pipeline now [] e cs = ran (record { contexts = cs; emitted = []; passed = true })
  execute_pipeline now (s ∷ ss) e cs = execute_stage now s e cs >>= λ r.
      let rest = after r.emitted (execute_pipeline now ss e r.contexts) in
      if r.passed then rest else ran r

  unfoldable pub execute_query : ℕ → Query R X → Event J → List (Context J R) → Run (Executed J R)
  unfolding execute_stage execute_pipeline
  execute_query now (single s) e cs = execute_stage now s e cs
  execute_query now (pipeline ss) e cs = execute_pipeline now ss e cs

  execute_parsed : ℕ → Reply (Query R X) → Event J → List (Context J R) → Run (Executed J R)
  unfolding execute_query
  execute_parsed now (ok (q, rest)) e cs = execute_query now q e cs
  execute_parsed now (failed message) e cs = ran (unmatched cs)
  execute_parsed now out_of_fuel e cs = faulted no_fuel

  -- nql_execute of a query string that is not NULL
  unfoldable pub nql_execute : ℕ → Event J → List (Context J R) → Run (Executed J R)
  unfolding execute_parsed nql_parse_ex
  nql_execute now e cs = execute_parsed now (nql_parse_ex rt (some query_str)) e cs

  fired : ℕ → List (Context J R) → Option (State J R) → List (Context J R) × List (Emission J R)
  unfolding write_context window_flush_cb corr_cleanup_cb
  fired now cs (some (agg_state st (some interval))) =
      let (st', results) = window_flush_cb rt now st in
      (write_context w query_str (agg_state st' (some interval)) cs, map agg_result results)
  fired now cs (some (corr_state st true)) =
      (write_context w query_str (corr_state (corr_cleanup_cb now st) true) cs, [])
  fired now cs _ = (cs, [])

  -- The timer of a context calls back: window_flush_cb or corr_cleanup_cb, if it was started.
  unfoldable pub fire_timer : ℕ → List (Context J R) → List (Context J R) × List (Emission J R)
  unfolding fired find_context
  fire_timer now cs = fired now cs (find_context w query_str cs)

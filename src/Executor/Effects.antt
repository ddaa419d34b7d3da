-- ===== src/Executor/Effects.antt =====
-- src/core/nql_executor.c: what an execution does, as a function of the one state that its query
-- string has in its world.
use nblex.Base.{
  ℕ, ◌≡◌, refl, Bool, true, false, ◌||◌, Option, none, some, List, [], ◌∷◌, ◌++◌, map,
  if◌then◌else◌,
}
use nblex.Executor.{
  World, State, agg_state, corr_state, Context, zero_window, wrong_member, no_fuel, Run, ran,
  faulted, ◌>>=◌, Emission, agg_result, corr_result, Executed, find_context, ensure_agg_timer,
  passes_where, execute_filter, execute_show,
}
use nblex.Executor.Registry.{store, store-store, find-store}
use nblex.Nql.{Event}
use nblex.Nql.Aggregate.{aggregate_event}
use nblex.Nql.Aggregate.Reachable.{new_agg_state}
use nblex.Nql.Bucket.{AggState}
use nblex.Nql.Correlate.{Correlate, CorrState, new_corr_state, is_left, is_right, execute_correlate}
use nblex.Nql.Flush.{AggResult, to_list}
use nblex.NqlParser.{Reply, ok, failed, out_of_fuel}
use nblex.NqlParser.Query.{
  Aggregate, Stage, filter, correlate, aggregate, show, Query, single, pipeline, nql_parse_ex,
}
use nblex.Runtime.{Runtime}
use nblex.Text.{Bytes}

-- What an execution does: the state that it writes, if it writes one.
pub record Effect (J R : Type 0) : Type 0 where
  pub written : Option (State J R)
  pub emitted : List (Emission J R)
  pub passed : Bool

-- the state behind a write
abbrev pub now_at : {J R : Type 0} → Option (State J R) → Option (State J R) → Option (State J R)
now_at none old = old
now_at (some st) old = some st

module _ {J R X : Type 0} (rt : Runtime J R X) (w : World) where
  unfoldable pub own_agg : Aggregate R X → Option (State J R) → Run (AggState R × Option ℕ)
  unfolding ensure_agg_timer
  own_agg q none =
      ran (new_agg_state q.window q.funcs q.group_by_fields, ensure_agg_timer w q.window none)
  own_agg q (some (agg_state st timer)) = ran (st, timer)
  own_agg q (some (corr_state st timer)) = faulted wrong_member

  unfoldable pub own_corr : Correlate R X → Option (State J R) → Run (CorrState J × Bool)
  own_corr q none = ran (new_corr_state q.within_ms, w.started)
  own_corr q (some (corr_state st timer)) = ran (st, timer)
  own_corr q (some (agg_state st timer)) = faulted wrong_member

  abbrev pub no_effect : Bool → Effect J R
  no_effect passed = record { written = none; emitted = []; passed = passed }

  unfoldable pub agg_effect :
      Option ℕ → Option (AggState R × Option (AggResult R)) → Run (Effect J R)
  agg_effect timer none = faulted zero_window
  agg_effect timer (some (st, result)) = ran (record {
    written = some (agg_state st timer);
    emitted = map agg_result (to_list result);
    passed = true;
  })

  unfoldable pub corr_effect : Correlate R X → Event J → CorrState J × Bool → Effect J R
  unfolding execute_correlate
  corr_effect q e (st, timer) =
      let r = execute_correlate rt q st e in
      record {
        written = some (corr_state r.state (timer || w.started));
        emitted = map corr_result r.emitted;
        passed = true;
      }

  -- What a stage does with an event, from the state that its query string has, if any.
  unfoldable pub stage_effect : ℕ → Stage R X → Event J → Option (State J R) → Run (Effect J R)
  unfolding execute_filter execute_show passes_where is_left is_right own_agg own_corr agg_effect
      corr_effect ensure_agg_timer aggregate_event
  stage_effect now (filter root) e own = ran (no_effect (execute_filter rt root e))
  stage_effect now (show q) e own = ran (no_effect (execute_show rt q e))
  stage_effect now (correlate q) e own =
      let found = own_corr q own >>= λ st. ran (corr_effect q e st) in
      if is_left rt q e || is_right rt q e then found else ran (no_effect false)
  stage_effect now (aggregate q) e own =
      let counted = own_agg q own >>= λ (st, timer).
      agg_effect (ensure_agg_timer w st.window timer) (aggregate_event rt now st e) in
      if passes_where rt q.where_filter e then counted else ran (no_effect false)

  abbrev pub followed_by : Effect J R → Run (Effect J R) → Run (Effect J R)
  followed_by r rest = rest >>= λ r'. ran (record {
    written = now_at r'.written r.written;
    emitted = r.emitted ++ r'.emitted;
    passed = r'.passed;
  })

  unfoldable pub pipeline_effect :
      ℕ → List (Stage R X) → Event J → Option (State J R) → Run (Effect J R)
  unfolding stage_effect
  pipeline_effect now [] e own = ran (no_effect true)
  pipeline_effect now (s ∷ ss) e own = stage_effect now s e own >>= λ r.
      let rest = followed_by r (pipeline_effect now ss e (now_at r.written own)) in
      if r.passed then rest else ran r

  unfoldable pub query_effect : ℕ → Query R X → Event J → Option (State J R) → Run (Effect J R)
  unfolding stage_effect pipeline_effect
  query_effect now (single s) e own = stage_effect now s e own
  query_effect now (pipeline ss) e own = pipeline_effect now ss e own

module _ {J R : Type 0} (w : World) (query_str : Bytes) where
  -- the write of an effect, if it has one, to the contexts
  unfoldable pub put : Option (State J R) → List (Context J R) → List (Context J R)
  unfolding store
  put none cs = cs
  put (some st) cs = store w query_str st cs

  -- an effect on the contexts
  unfoldable pub applied : List (Context J R) → Run (Effect J R) → Run (Executed J R)
  unfolding put
  applied cs r = r >>= λ r.
      ran (record { contexts = put r.written cs; emitted = r.emitted; passed = r.passed })

  pub find-put :
      (o : Option (State J R)) (cs : List (Context J R))
      → find_context w query_str (put o cs) ≡ now_at o (find_context w query_str cs)
  unfolding put
  find-put none cs = refl
  find-put (some st) cs = find-store w query_str st cs

  pub put-put :
      (o o' : Option (State J R)) (cs : List (Context J R))
      → put o' (put o cs) ≡ put (now_at o' o) cs
  unfolding put
  put-put o none cs = refl
  put-put none (some st) cs = refl
  put-put (some st') (some st) cs = store-store w query_str st' st cs

module _ {J R X : Type 0} (rt : Runtime J R X) (w : World) (query_str : Bytes) where
  -- What the execution of a query string does, from the state that it has: nothing where it does
  -- not parse.
  unfoldable pub parsed_effect :
      ℕ → Reply (Query R X) → Event J → Option (State J R) → Run (Effect J R)
  unfolding query_effect
  parsed_effect now (ok (q, rest)) e own = query_effect rt w now q e own
  parsed_effect now (failed message) e own = ran (no_effect rt w false)
  parsed_effect now out_of_fuel e own = faulted no_fuel

  unfoldable pub effect_of : ℕ → Event J → Option (State J R) → Run (Effect J R)
  unfolding parsed_effect nql_parse_ex
  effect_of now e own = parsed_effect now (nql_parse_ex rt (some query_str)) e own

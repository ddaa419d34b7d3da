-- ===== src/Executor/Refinement.antt =====
-- src/core/nql_executor.c: the execution on the list of all contexts, against its effect on the
-- state of one query string.
use nblex.Base.{
  ℕ, ◌≡◌, refl, Bool, true, false, ◌||◌, Option, none, some, List, [], ◌∷◌, Bool-cases, inl, inr,
  if◌then◌else◌,
}
use nblex.Executor.{
  World, State, agg_state, corr_state, Context, Run, ran, faulted, ◌>>=◌, Executed, find_context,
  add_context, ensure_agg_timer, agg_context, get_agg_state, corr_context, get_corr_state,
  unmatched, passes_where, aggregated, execute_aggregate, correlated, execute_correlation,
  execute_stage, after, execute_pipeline, execute_query, execute_parsed, nql_execute,
}
use nblex.Executor.Registry.{store-none, store-some, write-add}
use nblex.Nql.{Event}
use nblex.Nql.Aggregate.{aggregate_event}
use nblex.Nql.Bucket.{AggState}
use nblex.Nql.Correlate.{Correlate, is_left, is_right}
use nblex.Nql.Flush.{AggResult}
use nblex.NqlParser.{Reply, ok, failed, out_of_fuel}
use nblex.NqlParser.Query.{
  Aggregate, Stage, filter, correlate, aggregate, show, Query, single, pipeline, nql_parse_ex,
}
use nblex.Runtime.{Runtime}
use nblex.Text.{Bytes}
use nblex.Executor.Effects.{
  Effect, now_at, own_agg, own_corr, no_effect, agg_effect, corr_effect, stage_effect, followed_by,
  pipeline_effect, query_effect, put, applied, find-put, put-put, parsed_effect, effect_of,
}

module _ {J R X : Type 0} (rt : Runtime J R X) (w : World) (query_str : Bytes) where
  aggregated-new :
      (timer : Option ℕ) (old : State J R) (cs : List (Context J R))
      (o : Option (AggState R × Option (AggResult R)))
      → find_context w query_str cs ≡ none
      → aggregated rt w query_str timer (add_context w query_str old cs) o
        ≡ applied w query_str cs (agg_effect rt w timer o)
  unfolding aggregated agg_effect put applied
  aggregated-new timer old cs none h = refl
  aggregated-new timer old cs (some (st, result)) h =
      rw
        (
          store-none w query_str (agg_state st timer) cs h,
          write-add w query_str old (agg_state st timer) cs,
        )
        refl

  aggregated-old :
      (timer : Option ℕ) (old : State J R) (cs : List (Context J R))
      (o : Option (AggState R × Option (AggResult R)))
      → find_context w query_str cs ≡ some old
      → aggregated rt w query_str timer cs o ≡ applied w query_str cs (agg_effect rt w timer o)
  unfolding aggregated agg_effect put applied
  aggregated-old timer old cs none h = refl
  aggregated-old timer old cs (some (st, result)) h =
      rw (store-some w query_str (agg_state st timer) old cs h) refl

  counted-own :
      (now : ℕ) (q : Aggregate R X) (e : Event J) (cs : List (Context J R))
      (own : Option (State J R))
      → find_context w query_str cs ≡ own
      → (agg_context rt w query_str q cs own >>= λ ((st, timer), cs').
          aggregated rt w query_str
            (ensure_agg_timer w st.window timer)
            cs'
            (aggregate_event rt now st e))
        ≡ applied w query_str cs (
            own_agg rt w q own >>= λ (st, timer).
            agg_effect rt w (ensure_agg_timer w st.window timer) (aggregate_event rt now st e))
  unfolding agg_context own_agg applied
  counted-own now q e cs none h = aggregated-new _ _ cs _ h
  counted-own now q e cs (some (agg_state st timer)) h = aggregated-old _ _ cs _ h
  counted-own now q e cs (some (corr_state st timer)) h = refl

  correlated-own :
      (q : Correlate R X) (e : Event J) (cs : List (Context J R)) (own : Option (State J R))
      → find_context w query_str cs ≡ own
      → (corr_context rt w query_str q cs own >>= λ (st, cs').
          ran (correlated rt w query_str q e st cs'))
        ≡ applied w query_str cs (own_corr rt w q own >>= λ st. ran (corr_effect rt w q e st))
  unfolding corr_context own_corr correlated corr_effect put applied
  correlated-own q e cs none h =
      rw (store-none w query_str _ cs h, write-add w query_str _ _ cs) refl
  correlated-own q e cs (some (agg_state st timer)) h = refl
  correlated-own q e cs (some (corr_state st timer)) h = rw (store-some w query_str _ _ cs h) refl

  applied_if :
      (b : Bool) (cs : List (Context J R)) (r : Run (Executed J R)) (f : Run (Effect J R))
      → r ≡ applied w query_str cs f
      → (if b then r else ran (unmatched rt w query_str cs))
        ≡ applied w query_str cs (if b then f else ran (no_effect rt w false))
  unfolding applied put
  applied_if true cs r f h = h
  applied_if false cs r f h = refl

  -- A stage reads and writes the one state of its query string.
  pub execute_stage-stage_effect :
      (now : ℕ) (s : Stage R X) (e : Event J) (cs : List (Context J R))
      → execute_stage rt w query_str now s e cs
        ≡ applied w query_str cs (stage_effect rt w now s e (find_context w query_str cs))
  unfolding execute_stage stage_effect execute_aggregate execute_correlation get_agg_state
      get_corr_state applied put
  execute_stage-stage_effect now (filter root) e cs = refl
  execute_stage-stage_effect now (show q) e cs = refl
  execute_stage-stage_effect now (correlate q) e cs =
      applied_if (is_left rt q e || is_right rt q e) cs _ _ (correlated-own q e cs _ refl)
  execute_stage-stage_effect now (aggregate q) e cs =
      applied_if (passes_where rt q.where_filter e) cs _ _ (counted-own now q e cs _ refl)

  after-followed_by :
      (r : Effect J R) (cs : List (Context J R)) (rest : Run (Effect J R))
      → after rt w query_str r.emitted (applied w query_str (put w query_str r.written cs) rest)
        ≡ applied w query_str cs (followed_by rt w r rest)
  unfolding after applied
  after-followed_by r cs (faulted x) = refl
  after-followed_by r cs (ran r') = rw (put-put w query_str r.written r'.written cs) refl

  -- the stages behind one that did `r`
  behind_stage :
      (now : ℕ) (ss : List (Stage R X)) (e : Event J) (cs : List (Context J R)) (r : Effect J R)
      → execute_pipeline rt w query_str now ss e (put w query_str r.written cs)
        ≡ applied w query_str (put w query_str r.written cs) (
            pipeline_effect rt w now ss e (find_context w query_str (put w query_str r.written cs)))
      → (if r.passed
          then after rt w query_str r.emitted
              (execute_pipeline rt w query_str now ss e (put w query_str r.written cs))
          else ran (record {
            contexts = put w query_str r.written cs;
            emitted = r.emitted;
            passed = r.passed;
          }))
        ≡ applied w query_str cs (
            if r.passed
            then followed_by rt w r
                (pipeline_effect rt w now ss e (now_at r.written (find_context w query_str cs)))
            else ran r)
  unfolding applied
  behind_stage now ss e cs r ih = elim (Bool-cases r.passed) [
    | inl p ↦
        rw (p, ih, find-put w query_str r.written cs)
          (after-followed_by r cs
            (pipeline_effect rt w now ss e (now_at r.written (find_context w query_str cs))))
    | inr p ↦ rw p refl
  ]

  execute_pipeline-pipeline_effect :
      (now : ℕ) (ss : List (Stage R X)) (e : Event J) (cs : List (Context J R))
      → execute_pipeline rt w query_str now ss e cs
        ≡ applied w query_str cs (pipeline_effect rt w now ss e (find_context w query_str cs))
  unfolding execute_pipeline pipeline_effect applied put
  execute_pipeline-pipeline_effect now [] e cs = refl
  execute_pipeline-pipeline_effect now (s ∷ ss) e cs = rw (execute_stage-stage_effect now s e cs) (
      go (stage_effect rt w now s e (find_context w query_str cs))
        (λ cs'. execute_pipeline-pipeline_effect now ss e cs'))
    where
      go :
          (f : Run (Effect J R))
          → ((cs' : List (Context J R))
              → execute_pipeline rt w query_str now ss e cs'
                ≡ applied w query_str cs'
                    (pipeline_effect rt w now ss e (find_context w query_str cs')))
          → (applied w query_str cs f >>= λ r.
              if r.passed
              then after rt w query_str r.emitted
                  (execute_pipeline rt w query_str now ss e r.contexts)
              else ran r)
            ≡ applied w query_str cs (
                f >>= λ r.
                if r.passed
                then followed_by rt w r
                    (pipeline_effect rt w now ss e (now_at r.written (find_context w query_str cs)))
                else ran r)
      go (faulted x) ih = refl
      go (ran r) ih = behind_stage now ss e cs r (ih (put w query_str r.written cs))

  execute_query-query_effect :
      (now : ℕ) (q : Query R X) (e : Event J) (cs : List (Context J R))
      → execute_query rt w query_str now q e cs
        ≡ applied w query_str cs (query_effect rt w now q e (find_context w query_str cs))
  unfolding execute_query query_effect
  execute_query-query_effect now (single s) e cs = execute_stage-stage_effect now s e cs
  execute_query-query_effect now (pipeline ss) e cs = execute_pipeline-pipeline_effect now ss e cs

  parsed-effect :
      (now : ℕ) (p : Reply (Query R X)) (e : Event J) (cs : List (Context J R))
      → execute_parsed rt w query_str now p e cs
        ≡ applied w query_str cs
            (parsed_effect rt w query_str now p e (find_context w query_str cs))
  unfolding execute_parsed parsed_effect applied put
  parsed-effect now (ok (q, rest)) e cs = execute_query-query_effect now q e cs
  parsed-effect now (failed message) e cs = refl
  parsed-effect now out_of_fuel e cs = refl

  -- nql_execute is a step of the one state that the query string has in the world.
  pub nql_execute-effect_of :
      (now : ℕ) (e : Event J) (cs : List (Context J R))
      → nql_execute rt w query_str now e cs
        ≡ applied w query_str cs (effect_of rt w query_str now e (find_context w query_str cs))
  unfolding nql_execute effect_of
  nql_execute-effect_of now e cs = parsed-effect now (nql_parse_ex rt (some query_str)) e cs

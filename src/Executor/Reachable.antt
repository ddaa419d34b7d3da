-- ===== src/Executor/Reachable.antt =====
-- src/core/nql_executor.c: the contexts that runs lead to, and the states in them.
use nblex.Base.{
  ℕ, ◌≡◌, refl, sym, ◌∙◌, Bool, true, false, ◌||◌, Option, none, some, List, [], Bool-cases, inl,
  inr, if◌then◌else◌,
}
use mathlib.Core.Path.{subst}
use nblex.Executor.{
  World, State, agg_state, corr_state, Context, Run, ran, faulted, ◌>>=◌, Executed, find_context,
  ensure_agg_timer, passes_where, nql_execute,
}
use nblex.Executor.Isolation.{
  Action, execute, fire, Step, run_action, action_effect, fire_effect, run_action-action_effect,
  run_action-keeps_others,
}
use nblex.Executor.Isolation.Interleaving.{is_own, is_own_same, is_own_different, find_context_same}
use nblex.Executor.Effects.{
  Effect, now_at, put, applied, find-put, effect_of, stage_effect, query_effect, own_agg, own_corr,
  agg_effect, corr_effect, no_effect, parsed_effect,
}
use nblex.Executor.Refinement.{nql_execute-effect_of}
use nblex.Nql.{Event, WindowType, sliding}
use nblex.Nql.Aggregate.{aggregate_event}
use nblex.Nql.Aggregate.Reachable.{
  new_agg_state, Reaches, done, after_event, after_flush, CanDivide, reachable_states,
}
use nblex.Nql.Bucket.{AggState}
use nblex.Nql.Correlate.{Correlate, is_left, is_right}
use nblex.Nql.Flush.{AggResult}
use nblex.NqlParser.{ok}
use nblex.NqlParser.Query.{
  Aggregate, Stage, filter, correlate, aggregate, show, Query, single, pipeline, nql_parse_ex,
}
use nblex.Runtime.{Runtime}
use nblex.Text.{Bytes}

module _ {J R X : Type 0} (rt : Runtime J R X) where
  -- the contexts that a run leads to from none
  pub data Reached : List (Context J R) → Type 0 where
    start : Reached []
    step :
        (cs : List (Context J R)) (w : World) (s : Bytes) (a : Action J) (r : Executed J R)
        → Reached cs
        → run_action rt w s a cs ≡ ran r
        → Reached r.contexts

  -- The state fits the query: that of an aggregation is one that events and flushes lead to from
  -- its first one, that of a correlation is one of a correlation, and a filter has none.
  abbrev pub Fits : Query R X → Option (State J R) → Type 0
  Fits q none = Unit
  Fits (single (aggregate q)) (some (agg_state st timer)) =
      Reaches rt (new_agg_state q.window q.funcs q.group_by_fields) st
  Fits (single (correlate q)) (some (corr_state st timer)) = Unit
  Fits (pipeline ss) (some st) = Unit
  Fits _ (some st) = ⊥

  -- where the effect, if there is one, keeps the fit
  abbrev KeepsFit : Query R X → Option (State J R) → Run (Effect J R) → Type 0
  KeepsFit q own (ran f) = Fits q (now_at f.written own)
  KeepsFit q own (faulted x) = Unit

  KeepsFit-if :
      (q : Query R X) (own : Option (State J R)) (w : World) (b : Bool) (f : Run (Effect J R))
      → Fits q own
      → KeepsFit q own f
      → KeepsFit q own (if b then f else ran (no_effect rt w false))
  KeepsFit-if q own w true f h k = k
  KeepsFit-if q own w false f h k = h

  agg_effect-KeepsFit :
      (q : Aggregate R X) (own : Option (State J R)) (w : World) (now : ℕ) (e : Event J)
      (timer : Option ℕ) (st : AggState R) (o : Option (AggState R × Option (AggResult R)))
      → Reaches rt (new_agg_state q.window q.funcs q.group_by_fields) st
      → aggregate_event rt now st e ≡ o
      → KeepsFit (single (aggregate q)) own (agg_effect rt w timer o)
  unfolding agg_effect
  agg_effect-KeepsFit q own w now e timer st none run h = tt
  agg_effect-KeepsFit q own w now e timer st (some (st', result)) run h =
      after_event _ st st' now e result run h

  counted-KeepsFit :
      (q : Aggregate R X) (own : Option (State J R)) (w : World) (now : ℕ) (e : Event J)
      → Fits (single (aggregate q)) own
      → KeepsFit (single (aggregate q)) own (
          own_agg rt w q own >>= λ (st, timer).
          agg_effect rt w (ensure_agg_timer w st.window timer) (aggregate_event rt now st e))
  unfolding own_agg
  counted-KeepsFit q none w now e h = agg_effect-KeepsFit q none w now e _ _ _ (done _) refl
  counted-KeepsFit q (some (agg_state st timer)) w now e h =
      agg_effect-KeepsFit q (some (agg_state st timer)) w now e _ st _ h refl
  counted-KeepsFit q (some (corr_state st timer)) w now e h = absurd h

  correlated-KeepsFit :
      (q : Correlate R X) (own : Option (State J R)) (w : World) (e : Event J)
      → Fits (single (correlate q)) own
      → KeepsFit
          (single (correlate q))
          own
          (own_corr rt w q own >>= λ st. ran (corr_effect rt w q e st))
  unfolding own_corr corr_effect
  correlated-KeepsFit q none w e h = tt
  correlated-KeepsFit q (some (agg_state st timer)) w e h = absurd h
  correlated-KeepsFit q (some (corr_state st timer)) w e h = tt

  pipeline-Fits : (ss : List (Stage R X)) (own : Option (State J R)) → Fits (pipeline ss) own
  pipeline-Fits ss none = tt
  pipeline-Fits ss (some st) = tt

  pipeline-KeepsFit :
      (ss : List (Stage R X)) (own : Option (State J R)) (f : Run (Effect J R))
      → KeepsFit (pipeline ss) own f
  pipeline-KeepsFit ss own (ran f) = pipeline-Fits ss (now_at f.written own)
  pipeline-KeepsFit ss own (faulted x) = tt

  query_effect-KeepsFit :
      (q : Query R X) (own : Option (State J R)) (w : World) (now : ℕ) (e : Event J)
      → Fits q own
      → KeepsFit q own (query_effect rt w now q e own)
  unfolding query_effect stage_effect
  query_effect-KeepsFit (single (filter root)) own w now e h = h
  query_effect-KeepsFit (single (show q)) own w now e h = h
  query_effect-KeepsFit (single (correlate q)) own w now e h =
      KeepsFit-if (single (correlate q)) own w (is_left rt q e || is_right rt q e) _ h
        (correlated-KeepsFit q own w e h)
  query_effect-KeepsFit (single (aggregate q)) own w now e h =
      KeepsFit-if (single (aggregate q)) own w (passes_where rt q.where_filter e) _ h
        (counted-KeepsFit q own w now e h)
  query_effect-KeepsFit (pipeline ss) own w now e h = pipeline-KeepsFit ss own _

  fire_effect-Fits :
      (q : Query R X) (own : Option (State J R)) (now : ℕ)
      → Fits q own
      → Fits q (now_at (fire_effect rt now own).0 own)
  unfolding fire_effect
  fire_effect-Fits q none now h = tt
  fire_effect-Fits q (some (agg_state st none)) now h = h
  fire_effect-Fits (single (aggregate q)) (some (agg_state st (some i))) now h =
      after_flush _ st now h
  fire_effect-Fits (single (filter root)) (some (agg_state st (some i))) now h = absurd h
  fire_effect-Fits (single (show q)) (some (agg_state st (some i))) now h = absurd h
  fire_effect-Fits (single (correlate q)) (some (agg_state st (some i))) now h = absurd h
  fire_effect-Fits (pipeline ss) (some (agg_state st (some i))) now h = tt
  fire_effect-Fits q (some (corr_state st false)) now h = h
  fire_effect-Fits (single (aggregate q)) (some (corr_state st true)) now h = absurd h
  fire_effect-Fits (single (filter root)) (some (corr_state st true)) now h = absurd h
  fire_effect-Fits (single (show q)) (some (corr_state st true)) now h = absurd h
  fire_effect-Fits (single (correlate q)) (some (corr_state st true)) now h = tt
  fire_effect-Fits (pipeline ss) (some (corr_state st true)) now h = tt

  action_effect-KeepsFit :
      (q : Query R X) (rest : Bytes) (own : Option (State J R)) (w : World) (s : Bytes)
      (a : Action J)
      → nql_parse_ex rt (some s) ≡ ok (q, rest)
      → Fits q own
      → KeepsFit q own (action_effect rt w s a own)
  unfolding action_effect effect_of parsed_effect
  action_effect-KeepsFit q rest own w s (execute now e) parsed h =
      rw parsed (query_effect-KeepsFit q own w now e h)
  action_effect-KeepsFit q rest own w s (fire now) parsed h = fire_effect-Fits q own now h

  -- what a step that ran left behind
  abbrev FitsAfter : Query R X → World → Bytes → Run (Executed J R) → Type 0
  FitsAfter q w s (ran r) = Fits q (find_context w s r.contexts)
  FitsAfter q w s (faulted x) = Unit

  applied-FitsAfter :
      (q : Query R X) (w : World) (s : Bytes) (cs : List (Context J R)) (f : Run (Effect J R))
      → KeepsFit q (find_context w s cs) f
      → FitsAfter q w s (applied w s cs f)
  unfolding applied
  applied-FitsAfter q w s cs (faulted x) h = tt
  applied-FitsAfter q w s cs (ran f) h = subst (Fits q) (sym (find-put w s f.written cs)) h

  step-Fits :
      (q : Query R X) (rest : Bytes) (w : World) (s : Bytes) (a : Action J)
      (cs : List (Context J R)) (r : Executed J R)
      → nql_parse_ex rt (some s) ≡ ok (q, rest)
      → run_action rt w s a cs ≡ ran r
      → Fits q (find_context w s cs)
      → Fits q (find_context w s r.contexts)
  step-Fits q rest w s a cs r parsed h fits =
      let kept =
        applied-FitsAfter q w s cs _
          (action_effect-KeepsFit q rest (find_context w s cs) w s a parsed fits) in
      subst (FitsAfter q w s) (sym (run_action-action_effect rt w s a cs) ∙ h) kept

  -- In every run the state of a query string fits the query.
  pub Reached-Fits :
      (cs : List (Context J R)) (v : World) (t : Bytes) (q : Query R X) (rest : Bytes)
      → Reached cs
      → nql_parse_ex rt (some t) ≡ ok (q, rest)
      → Fits q (find_context v t cs)
  unfolding find_context
  Reached-Fits _ v t q rest start parsed = tt
  Reached-Fits _ v t q rest (step cs w s a r run h) parsed =
      let before = Reached-Fits cs v t q rest run parsed in
      let x : Step J = record { world = w; query_str = s; action = a } in
      elim (Bool-cases (is_own v t x)) [
        | inl e ↦
            let (ids, texts) = is_own_same v t x e in
            let here = λ (c : List (Context J R)). find_context_same {R = R} w v s t c ids texts in
            subst (Fits q) (here r.contexts) (
              step-Fits q rest w s a cs r
                (subst (λ u. nql_parse_ex rt (some u) ≡ ok (q, rest)) (sym texts) parsed) h
                (subst (Fits q) (sym (here cs)) before))
        | inr e ↦
            subst (Fits q)
              (sym (run_action-keeps_others w v s t (is_own_different v t x e) rt a cs r h)) before
      ]

  abbrev pub IsNotSliding : WindowType → Type 0
  IsNotSliding sliding = ⊥
  IsNotSliding _ = Unit

  -- no window that divides by zero, and no sliding window, whose buckets share their group keys
  abbrev pub CanRun : Stage R X → Type 0
  CanRun (aggregate q) = CanDivide rt q.window.kind q.window × IsNotSliding q.window.kind
  CanRun s = Unit

  abbrev Runs : Run (Effect J R) → Type 0
  Runs f = (r : Effect J R) × (f ≡ ran r)

  Runs-if :
      (w : World) (b : Bool) (f : Run (Effect J R))
      → Runs f
      → Runs (if b then f else ran (no_effect rt w false))
  Runs-if w true f h = h
  Runs-if w false f h = (_, refl)

  aggregated-Runs :
      (q : Aggregate R X) (w : World) (now : ℕ) (e : Event J) (st : AggState R) (timer : Option ℕ)
      → CanDivide rt q.window.kind q.window
      → Reaches rt (new_agg_state q.window q.funcs q.group_by_fields) st
      → Runs (agg_effect rt w timer (aggregate_event rt now st e))
  unfolding agg_effect
  aggregated-Runs q w now e st timer can run =
      let (wf, (st', result, h)) =
        reachable_states rt q.window q.funcs q.group_by_fields st now e can run in
      subst (λ o. Runs (agg_effect rt w timer o)) (sym h) (_, refl)

  stage_effect-Runs :
      (s : Stage R X) (own : Option (State J R)) (w : World) (now : ℕ) (e : Event J)
      → CanRun s
      → Fits (single s) own
      → Runs (stage_effect rt w now s e own)
  unfolding stage_effect own_agg own_corr
  stage_effect-Runs (filter root) own w now e c h = (_, refl)
  stage_effect-Runs (show q) own w now e c h = (_, refl)
  stage_effect-Runs (correlate q) none w now e c h =
      Runs-if w (is_left rt q e || is_right rt q e) _ (_, refl)
  stage_effect-Runs (correlate q) (some (corr_state st timer)) w now e c h =
      Runs-if w (is_left rt q e || is_right rt q e) _ (_, refl)
  stage_effect-Runs (correlate q) (some (agg_state st timer)) w now e c h = absurd h
  stage_effect-Runs (aggregate q) none w now e c h =
      Runs-if w (passes_where rt q.where_filter e) _ (aggregated-Runs q w now e _ _ c.0 (done _))
  stage_effect-Runs (aggregate q) (some (agg_state st timer)) w now e c h =
      Runs-if w (passes_where rt q.where_filter e) _ (aggregated-Runs q w now e st _ c.0 h)
  stage_effect-Runs (aggregate q) (some (corr_state st timer)) w now e c h = absurd h

  -- In every run from no contexts, each event of a query that is no pipeline, whose window is not
  -- sliding and divides by nothing that is zero, is executed with none of the three faults: no
  -- division by zero, no read of the member of the union that was not set, and no parser out of
  -- fuel. What sliding queries that ran before did to the memory of their group keys is no fault
  -- here.
  pub Reached-runs :
      (cs : List (Context J R)) (w : World) (s : Bytes) (stage : Stage R X) (rest : Bytes) (now : ℕ)
      (e : Event J)
      → Reached cs
      → nql_parse_ex rt (some s) ≡ ok (single stage, rest)
      → CanRun stage
      → (r : Executed J R) × (nql_execute rt w s now e cs ≡ ran r)
  unfolding effect_of parsed_effect query_effect applied
  Reached-runs cs w s stage rest now e run parsed c =
      let (f, h) =
        stage_effect-Runs stage (find_context w s cs) w now e c
          (Reached-Fits cs w s (single stage) rest run parsed) in
      (
        record { contexts = put w s f.written cs; emitted = f.emitted; passed = f.passed },
        nql_execute-effect_of rt w s now e cs ∙ rw (parsed, h) refl,
      )

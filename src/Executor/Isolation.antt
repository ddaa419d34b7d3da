-- ===== src/Executor/Isolation.antt =====
-- src/core/nql_executor.c: runs of executions and timer callbacks, of several query strings and
-- worlds, and the contexts that a step leaves.
pub mod Interleaving
use nblex.Base.{
  ℕ, ◌≡◌, refl, sym, ap, ◌∙◌, arith, Bool, true, false, not, ◌&&◌, Option, none, some, List, [],
  ◌∷◌, ◌++◌, ◌==◌, map, keep, Bool-cases, Option-cases, &&_split, inl, inr, if◌then◌else◌,
}
use mathlib.Core.Path.{subst}
use nblex.Executor.{
  World, State, agg_state, corr_state, Context, Fault, Run, ran, faulted, ◌>>=◌, Emission, Executed,
  is_context, find_context, write_context, fired, fire_timer, nql_execute, agg_result,
}
use nblex.Executor.Effects.{Effect, now_at, put, applied, find-put, effect_of}
use nblex.Executor.Refinement.{nql_execute-effect_of}
use nblex.Executor.Registry.{AreDifferent, find-store-other, store, store-some}
use nblex.Nql.{Event}
use nblex.Nql.Correlate.{corr_cleanup_cb}
use nblex.Nql.Flush.{window_flush_cb}
use nblex.Runtime.{Runtime}
use nblex.Text.{Bytes, str_eq, str_eq→eq, str_eq_self}

-- an execution on an event, and a timer that calls back
pub data Action (J : Type 0) : Type 0 where
  execute : ℕ → Event J → Action J
  fire : ℕ → Action J

-- a step of a run, for a query string in a world
pub record Step (J : Type 0) : Type 0 where
  pub world : World
  pub query_str : Bytes
  pub action : Action J

-- the step and what came of it
pub record Entry (J R : Type 0) : Type 0 where
  pub step : Step J
  pub emitted : List (Emission J R)
  pub passed : Bool

module _ {J R X : Type 0} (rt : Runtime J R X) where
  unfoldable pub run_action : World → Bytes → Action J → List (Context J R) → Run (Executed J R)
  unfolding nql_execute fire_timer
  run_action w s (execute now e) cs = nql_execute rt w s now e cs
  run_action w s (fire now) cs =
      let (cs', emitted) = fire_timer rt w s now cs in
      ran (record { contexts = cs'; emitted = emitted; passed = true })

  abbrev logged :
      Step J
      → Executed J R
      → Run (List (Context J R) × List (Entry J R))
      → Run (List (Context J R) × List (Entry J R))
  logged x r rest = rest >>= λ (cs, log).
      ran (cs, record { step = x; emitted = r.emitted; passed = r.passed } ∷ log)

  unfoldable pub run_steps :
      List (Step J) → List (Context J R) → Run (List (Context J R) × List (Entry J R))
  unfolding run_action
  run_steps [] cs = ran (cs, [])
  run_steps (x ∷ xs) cs =
      run_action x.world x.query_str x.action cs >>= λ r. logged x r (run_steps xs r.contexts)

  unfoldable pub fire_effect : ℕ → Option (State J R) → Option (State J R) × List (Emission J R)
  unfolding window_flush_cb corr_cleanup_cb
  fire_effect now (some (agg_state st (some interval))) =
      let (st', results) = window_flush_cb rt now st in
      (some (agg_state st' (some interval)), map agg_result results)
  fire_effect now (some (corr_state st true)) =
      (some (corr_state (corr_cleanup_cb now st) true), [])
  fire_effect now _ = (none, [])

  unfoldable pub action_effect : World → Bytes → Action J → Option (State J R) → Run (Effect J R)
  unfolding effect_of fire_effect
  action_effect w s (execute now e) own = effect_of rt w s now e own
  action_effect w s (fire now) own =
      let (written, emitted) = fire_effect now own in
      ran (record { written = written; emitted = emitted; passed = true })

  fired-effect :
      (w : World) (s : Bytes) (now : ℕ) (cs : List (Context J R)) (own : Option (State J R))
      → find_context w s cs ≡ own
      → fired rt w s now cs own ≡ (put w s (fire_effect now own).0 cs, (fire_effect now own).1)
  unfolding fired fire_effect put
  fired-effect w s now cs none h = refl
  fired-effect w s now cs (some (agg_state st none)) h = refl
  fired-effect w s now cs (some (agg_state st (some i))) h = rw (store-some w s _ _ cs h) refl
  fired-effect w s now cs (some (corr_state st false)) h = refl
  fired-effect w s now cs (some (corr_state st true)) h = rw (store-some w s _ _ cs h) refl

  -- A step reads and writes the one state of its query string in its world.
  pub run_action-action_effect :
      (w : World) (s : Bytes) (a : Action J) (cs : List (Context J R))
      → run_action w s a cs ≡ applied w s cs (action_effect w s a (find_context w s cs))
  unfolding run_action action_effect applied fire_timer
  run_action-action_effect w s (execute now e) cs = nql_execute-effect_of rt w s now e cs
  run_action-action_effect w s (fire now) cs = rw (fired-effect w s now cs _ refl) refl

module _ {J R : Type 0} (w v : World) (s t : Bytes) (different : AreDifferent w s v t) where
  find-put-other :
      (o : Option (State J R)) (cs : List (Context J R))
      → find_context v t (put w s o cs) ≡ find_context v t cs
  unfolding put
  find-put-other none cs = refl
  find-put-other (some st) cs = find-store-other w v s t different st cs

  abbrev KeepsOther : List (Context J R) → Run (Executed J R) → Type 0
  KeepsOther cs (ran r) = find_context v t r.contexts ≡ find_context v t cs
  KeepsOther cs (faulted x) = Unit

  applied-KeepsOther :
      (cs : List (Context J R)) (f : Run (Effect J R)) → KeepsOther cs (applied w s cs f)
  unfolding applied
  applied-KeepsOther cs (faulted x) = tt
  applied-KeepsOther cs (ran r) = find-put-other r.written cs

  -- A step leaves the state of every other query string, and of every other world, as it is.
  pub run_action-keeps_others :
      {X : Type 0} (rt : Runtime J R X) (a : Action J) (cs : List (Context J R)) (r : Executed J R)
      → run_action rt w s a cs ≡ ran r
      → find_context v t r.contexts ≡ find_context v t cs
  run_action-keeps_others rt a cs r h =
      subst (KeepsOther cs) h (
        subst (KeepsOther cs) (sym (run_action-action_effect rt w s a cs))
          (applied-KeepsOther cs _))

module _ {J R X : Type 0} (rt : Runtime J R X) where
  -- the same state and outcome for the query string
  abbrev pub Agrees : World → Bytes → Executed J R → Executed J R → Type 0
  Agrees w s r r' =
      (find_context w s r.contexts ≡ find_context w s r'.contexts)
      × ((r.emitted ≡ r'.emitted) × (r.passed ≡ r'.passed))

  applied-Agrees :
      (w : World) (s : Bytes) (cs cs' : List (Context J R)) (f : Run (Effect J R))
      (r : Executed J R)
      → find_context w s cs ≡ find_context w s cs'
      → applied w s cs f ≡ ran r
      → (r' : Executed J R) × ((applied w s cs' f ≡ ran r') × Agrees w s r r')
  unfolding applied
  applied-Agrees w s cs cs' (faulted x) r same h = absurd (cc)
  applied-Agrees w s cs cs' (ran f) r same h = (
    record { contexts = put w s f.written cs'; emitted = f.emitted; passed = f.passed },
    (refl, subst (AgreesWith) h own),
  )
    where
      AgreesWith : Run (Executed J R) → Type 0
      AgreesWith (ran q) =
          Agrees w s q
            (record { contexts = put w s f.written cs'; emitted = f.emitted; passed = f.passed })
      AgreesWith (faulted x) = Unit

      own :
          AgreesWith (
            ran
              (record { contexts = put w s f.written cs; emitted = f.emitted; passed = f.passed }))
      own = (
        find-put w s f.written cs ∙ (ap (now_at f.written) same ∙ sym (find-put w s f.written cs')),
        (refl, refl),
      )

  -- A step does the same on contexts with the same state of its query string.
  pub run_action-Agrees :
      (w : World) (s : Bytes) (a : Action J) (cs cs' : List (Context J R)) (r : Executed J R)
      → find_context w s cs ≡ find_context w s cs'
      → run_action rt w s a cs ≡ ran r
      → (r' : Executed J R) × ((run_action rt w s a cs' ≡ ran r') × Agrees w s r r')
  run_action-Agrees w s a cs cs' r same h =
      let f = action_effect rt w s a (find_context w s cs) in
      let (r', (runs, agrees)) =
        applied-Agrees w s cs cs' f r same (sym (run_action-action_effect rt w s a cs) ∙ h) in
      (
        r',
        (
          run_action-action_effect rt w s a cs'
              ∙ (ap (λ own. applied w s cs' (action_effect rt w s a own)) (sym same) ∙ runs),
          agrees,
        ),
      )

-- ===== src/Nql/Aggregate/Reachable.antt =====
-- The states that an aggregation reaches from its first one by events and by flushes.
use nblex.Base.{
  ℕ, ◌<◌, Bool, true, false, Option, none, some, List, [], ◌≡◌, refl, sym, ap, ◌∙◌, arith, ◌==◌,
  if◌then◌else◌,
}
use mathlib.Core.Path.{subst}
use nblex.Nql.{
  WindowType, Window, no_window, tumbling, sliding, session, AggFunc, Event, to_ns,
  extract_group_keys,
}
use nblex.Nql.Aggregate.{aggregate_event, count_event, update_buckets}
use nblex.Nql.Aggregate.Keeps.{aggregate_event-IsWellFormed}
use nblex.Nql.Bucket.{AggState, get_or_create_buckets, buckets_of_kind, slide_of}
use nblex.Nql.Bucket.Invariant.{IsWellFormed}
use nblex.Nql.Bucket.Keeps.{Kept, get_or_create_buckets-Kept}
use nblex.Nql.Flush.{AggResult, window_flush_cb}
use nblex.Nql.Flush.Keeps.{window_flush_cb-IsWellFormed}
use nblex.Nql.Update.{timestamp_or}
use nblex.Runtime.{Runtime}
use nblex.Text.{Bytes}

-- the state that get_agg_state makes for a query
abbrev pub new_agg_state : {R : Type 0} → Window → List (AggFunc R) → List Bytes → AggState R
new_agg_state w funcs fields = record {
  window = w;
  funcs = funcs;
  group_by_fields = fields;
  buckets = [];
  bucket_count = 0;
  next_id = 0;
  last_flush_ns = 0;
}

module _ {J R X : Type 0} (rt : Runtime J R X) where
  -- A run of a query: events and timer callbacks, in any order and at any clock.
  pub data Reaches : AggState R → AggState R → Type 0 where
    done : (st : AggState R) → Reaches st st
    after_event :
        (st st' st'' : AggState R) (now : ℕ) (e : Event J) (r : Option (AggResult R))
        → Reaches st st'
        → aggregate_event rt now st' e ≡ some (st'', r)
        → Reaches st st''
    after_flush :
        (st st' : AggState R) (now : ℕ) → Reaches st st' → Reaches st (window_flush_cb rt now st').0

  -- no division by zero
  abbrev pub CanDivide : WindowType → Window → Type 0
  CanDivide tumbling w = 0 < to_ns w.size_ms
  CanDivide sliding w = 0 < slide_of rt w
  CanDivide _ w = Unit

  abbrev HasWindow : Window → Option (AggState R × Option (AggResult R)) → Type 0
  HasWindow w none = Unit
  HasWindow w (some (st, r)) = st.window ≡ w

  count_event-HasWindow :
      (now : ℕ) (e : Event J) (o : Option (AggState R × List ℕ)) (w : Window)
      → Kept rt w o
      → HasWindow w (count_event rt now e o)
  unfolding count_event update_buckets
  count_event-HasWindow now e none w k = tt
  count_event-HasWindow now e (some (st, ids)) w k = k.1

  window-aggregate_event :
      (now : ℕ) (st st' : AggState R) (e : Event J) (r : Option (AggResult R))
      → IsWellFormed st
      → aggregate_event rt now st e ≡ some (st', r)
      → st'.window ≡ st.window
  unfolding aggregate_event
  window-aggregate_event now st st' e r wf h = subst (HasWindow st.window) h (
      count_event-HasWindow now e _ st.window (
        get_or_create_buckets-Kept rt st (extract_group_keys rt st.group_by_fields e.json)
          (timestamp_or now e) wf))

  guarded :
      {A : Type 0} (c : Bool) (a : A)
      → c ≡ false
      → (x : A) × ((if c then none else some a) ≡ some x)
  guarded true a h = absurd (cc)
  guarded false a h = (a, refl)

  buckets_of_kind-runs :
      (k : WindowType) (st : AggState R) (keys : List Bytes) (ts : ℕ)
      → CanDivide k st.window
      → (r : AggState R × List ℕ) × (buckets_of_kind rt k st keys ts ≡ some r)
  unfolding buckets_of_kind
  buckets_of_kind-runs no_window st keys ts h = (_, refl)
  buckets_of_kind-runs session st keys ts h = (_, refl)
  buckets_of_kind-runs tumbling st keys ts h =
      guarded (to_ns st.window.size_ms == 0) _ (ground arith)
  buckets_of_kind-runs sliding st keys ts h = guarded (slide_of rt st.window == 0) _ (ground arith)

  aggregate_event-runs :
      (now : ℕ) (st : AggState R) (e : Event J)
      → CanDivide st.window.kind st.window
      → (st' : AggState R) × (r : Option (AggResult R)) × (aggregate_event rt now st e
          ≡ some (st', r))
  unfolding aggregate_event count_event get_or_create_buckets
  aggregate_event-runs now st e h =
      let (r, ran) =
        buckets_of_kind-runs st.window.kind st (extract_group_keys rt st.group_by_fields e.json)
          (timestamp_or now e) h in
      (_, _, ap (count_event rt now e) ran)

  -- the division by a size of zero
  pub aggregate_event-zero_size :
      (now : ℕ) (st : AggState R) (e : Event J)
      → st.window.kind ≡ tumbling
      → to_ns st.window.size_ms ≡ 0
      → aggregate_event rt now st e ≡ none
  unfolding aggregate_event count_event get_or_create_buckets buckets_of_kind
  aggregate_event-zero_size now st e k z = rw (k, z) refl

  window-flush : (now : ℕ) (st : AggState R) → (window_flush_cb rt now st).0.window ≡ st.window
  unfolding window_flush_cb
  window-flush now st = refl

  Reaches-IsWellFormed :
      (w : Window) (funcs : List (AggFunc R)) (fields : List Bytes) (st0 st : AggState R)
      → st0 ≡ new_agg_state w funcs fields
      → Reaches st0 st
      → IsWellFormed st × (st.window ≡ w)
  Reaches-IsWellFormed w funcs fields _ _ q (done st) =
      subst (λ s. IsWellFormed s × (s.window ≡ w)) (sym q)
        (record { ids = tt; windows = tt; counted = refl }, refl)
  Reaches-IsWellFormed w funcs fields _ _ q (after_event st st' st'' now e r run h) =
      let (wf, same) = Reaches-IsWellFormed w funcs fields st st' q run in
      (
        aggregate_event-IsWellFormed rt now st' st'' e r wf h,
        window-aggregate_event now st' st'' e r wf h ∙ same,
      )
  Reaches-IsWellFormed w funcs fields _ _ q (after_flush st st' now run) =
      let (wf, same) = Reaches-IsWellFormed w funcs fields st st' q run in
      (window_flush_cb-IsWellFormed rt now st' wf, window-flush now st' ∙ same)

  -- Where no window of the query divides by zero, every state that events and flushes lead to from
  -- the query's first one is well-formed (ids fall along the list, the bucket count is the length,
  -- the bounds of each bucket fit the window), and the next event is aggregated from it.
  pub reachable_states :
      (w : Window) (funcs : List (AggFunc R)) (fields : List Bytes) (st : AggState R) (now : ℕ)
      (e : Event J)
      → CanDivide w.kind w
      → Reaches (new_agg_state w funcs fields) st
      → IsWellFormed st
        × ((st' : AggState R) × (r : Option (AggResult R)) × (aggregate_event rt now st e
              ≡ some (st', r)))
  reachable_states w funcs fields st now e c run =
      let (wf, same) = Reaches-IsWellFormed w funcs fields _ st refl run in
      (wf, aggregate_event-runs now st e (subst (λ w. CanDivide w.kind w) (sym same) c))

-- ===== src/Correlation/Bounds.antt =====
-- The buffers of the engine never hold more than MAX_BUFFER_SIZE events, and their counts are right.
use nblex.Base.{
  ℕ, zero, suc, ◌+◌, ◌%◌, ◌≤◌, ◌≡◌, refl, arith, Bool, true, false, Option, none, some, List, [],
  ◌∷◌, if◌then◌else◌, leb, length, Bool-cases, inl, inr,
}
use nblex.Correlation.{
  EventType, log, network, correlation, error, Event, CorrData, Buffer, Correlation, World, u64,
  max_buffer_size, in_window, count_found, pair_up, check_buffer, opposite, correlation_check_event,
  buffer_event, add_to_buffer, process_event, on_correlation, passes, call_handler,
  nblex_event_emit, cleanup_timer_cb, cleanup_old_events, keep_new,
}
use nblex.Runtime.{Runtime}

module _ {E : Type 0} where
  abbrev pub IsBounded : Buffer E → Type 0
  IsBounded b = (b.count ≡ length b.events) × (b.count ≤ max_buffer_size)

  abbrev pub IsBoundedEngine : Option (Correlation E) → Type 0
  IsBoundedEngine none = Unit
  IsBoundedEngine (some c) = IsBounded c.log_events × IsBounded c.network_events

  add_to_buffer-IsBounded : (e : E) (b : Buffer E) → IsBounded b → IsBounded (add_to_buffer e b)
  unfolding add_to_buffer
  add_to_buffer-IsBounded e b h = elim (Bool-cases (leb max_buffer_size b.count)) [
    | inl q ↦ rw q h
    | inr q ↦ rw q (omega (arith, h.0), ground arith)
  ]

  length-keep_new-le :
      (time : E → ℕ) (cutoff : ℕ) (es : List E) → length (keep_new time cutoff es) ≤ length es
  unfolding keep_new
  length-keep_new-le time cutoff [] = omega arith
  length-keep_new-le time cutoff (e ∷ es) = ground (arith, length-keep_new-le time cutoff es)

  cleanup_old_events-IsBounded :
      (time : E → ℕ) (cutoff : ℕ) (b : Buffer E)
      → IsBounded b
      → IsBounded (cleanup_old_events time cutoff b)
  unfolding cleanup_old_events
  cleanup_old_events-IsBounded time cutoff b h =
      (omega (arith, h.0, length-keep_new-le time cutoff b.events), omega (arith, h.1))

module _ {J R X : Type 0} (rt : Runtime J R X) (pack : CorrData J → J) where
  abbrev pub Keeps : (World (Event J R X) → Event J R X → World (Event J R X)) → Type 0
  Keeps emit =
      (w : World (Event J R X)) (e : Event J R X)
      → IsBoundedEngine w.correlation
      → IsBoundedEngine (emit w e).correlation

  count_found-IsBounded :
      (o : Option (Correlation (Event J R X)))
      → IsBoundedEngine o
      → IsBoundedEngine (
          on_correlation
            (λ c. record c { correlations_found = (c.correlations_found + 1) % u64 })
            o)
  count_found-IsBounded none h = tt
  count_found-IsBounded (some c) h = h

  either_world :
      (p : Bool) (v w : World (Event J R X))
      → IsBoundedEngine v.correlation
      → IsBoundedEngine w.correlation
      → IsBoundedEngine (if p then v else w).correlation
  either_world true v w h k = h
  either_world false v w h k = k

  check_buffer-IsBounded :
      (emit : World (Event J R X) → Event J R X → World (Event J R X)) (window : ℕ)
      (new : Event J R X) (bs : List (Event J R X)) (w : World (Event J R X))
      → Keeps emit
      → IsBoundedEngine w.correlation
      → IsBoundedEngine (check_buffer rt pack emit window new bs w).correlation
  unfolding check_buffer
  check_buffer-IsBounded emit window new [] w k h = h
  check_buffer-IsBounded emit window new (b ∷ bs) w k h =
      check_buffer-IsBounded emit window new bs _ k (
        either_world (in_window window new.timestamp_ns b.timestamp_ns) _ w
          (k (count_found w) (pair_up rt pack new.kind window new b)
            (count_found-IsBounded w.correlation h))
          h)

  buffer_event-IsBounded :
      (kind : EventType) (e : Event J R X) (o : Option (Correlation (Event J R X)))
      → IsBoundedEngine o
      → IsBoundedEngine (on_correlation (buffer_event rt pack kind e) o)
  unfolding buffer_event
  buffer_event-IsBounded kind e none h = tt
  buffer_event-IsBounded log e (some c) h = (add_to_buffer-IsBounded e c.log_events h.0, h.1)
  buffer_event-IsBounded network e (some c) h =
      (h.0, add_to_buffer-IsBounded e c.network_events h.1)
  buffer_event-IsBounded correlation e (some c) h = h
  buffer_event-IsBounded error e (some c) h = h

  process_event-IsBounded :
      (emit : World (Event J R X) → Event J R X → World (Event J R X))
      (o : Option (Correlation (Event J R X))) (e : Event J R X) (w : World (Event J R X))
      → Keeps emit
      → IsBoundedEngine w.correlation
      → IsBoundedEngine (process_event rt pack emit o e w).correlation
  unfolding process_event correlation_check_event
  process_event-IsBounded emit none e w k h = h
  process_event-IsBounded emit (some c) e w k h =
      buffer_event-IsBounded e.kind e _
        (check_buffer-IsBounded emit c.window_ns e (opposite rt pack e.kind c) w k h)

  same_engine :
      (e : Event J R X) (w : World (Event J R X))
      → (call_handler rt pack e w).correlation ≡ w.correlation
  same_engine e w = elim (Bool-cases w.has_handler) [ inl q ↦ rw q refl | inr q ↦ rw q refl ]

  nblex_event_emit-IsBounded : (f : ℕ) → Keeps (nblex_event_emit rt pack f)
  unfolding nblex_event_emit
  nblex_event_emit-IsBounded zero w e h = h
  nblex_event_emit-IsBounded (suc f) w e h = elim (Bool-cases (passes rt pack e.filter e.data')) [
    | inl q ↦
        rw (q, same_engine e _)
          (process_event-IsBounded (nblex_event_emit rt pack f) w.correlation e _
            (nblex_event_emit-IsBounded f) h)
    | inr q ↦ rw q h
  ]

  -- Events at any fuel and cleanups at any time, in any order.
  pub data Runs : World (Event J R X) → World (Event J R X) → Type 0 where
    done : (w : World (Event J R X)) → Runs w w
    after_event :
        (w w' : World (Event J R X)) (f : ℕ) (e : Event J R X)
        → Runs w w'
        → Runs w (nblex_event_emit rt pack f w' e)
    after_cleanup :
        (w w' : World (Event J R X)) (now : ℕ)
        → Runs w w'
        → Runs w (record w' {
          correlation = on_correlation (cleanup_timer_cb rt pack now) w'.correlation;
        })

  cleanup-IsBounded :
      (now : ℕ) (o : Option (Correlation (Event J R X)))
      → IsBoundedEngine o
      → IsBoundedEngine (on_correlation (cleanup_timer_cb rt pack now) o)
  unfolding cleanup_timer_cb
  cleanup-IsBounded now none h = tt
  cleanup-IsBounded now (some c) h = (
    cleanup_old_events-IsBounded _ _ c.log_events h.0,
    cleanup_old_events-IsBounded _ _ c.network_events h.1,
  )

  -- Events and cleanups in any order keep the counts of both buffers equal to their lengths, and
  -- at most MAX_BUFFER_SIZE.
  pub Runs-IsBounded :
      (w w' : World (Event J R X))
      → Runs w w'
      → IsBoundedEngine w.correlation
      → IsBoundedEngine w'.correlation
  Runs-IsBounded _ _ (done w) h = h
  Runs-IsBounded _ _ (after_event w w' f e r) h =
      nblex_event_emit-IsBounded f w' e (Runs-IsBounded w w' r h)
  Runs-IsBounded _ _ (after_cleanup w w' now r) h =
      cleanup-IsBounded now w'.correlation (Runs-IsBounded w w' r h)

-- ===== src/Correlation/Emit.antt =====
-- What the handler sees of an event and of its correlations.
use nblex.Base.{
  ℕ, suc, ◌+◌, ◌%◌, ◌<◌, ◌≡◌, refl, sym, ap, ◌∙◌, arith, true, some, List, [], ◌∷◌, ◌++◌,
  append_assoc, append-nil, map, length, length-append, keep, Bool-cases, inl, inr,
}
use mathlib.Core.Path.{subst}
use native.Mathlib.Nat.{mod-eq_of_lt}
use nblex.Correlation.{
  EventType, log, network, correlation, error, Event, CorrData, Correlation, World, u64, in_window,
  count_found, create_correlation_event, pair_up, check_buffer, opposite, correlation_check_event,
  buffer_event, process_event, passes, nblex_event_emit,
}
use nblex.Runtime.{Runtime}

add_counts :
    (x y z m n s : ℕ)
    → s ≡ m + n
    → (x + m < u64 → y ≡ x + m)
    → (y + n < u64 → z ≡ y + n)
    → x + s < u64
    → z ≡ x + s
add_counts x y z m n s e f g u =
    let first = f (omega (arith, e, u)) in
    let second = g (omega (arith, e, u, first)) in omega (arith, e, first, second)

module _ {J R X : Type 0} (rt : Runtime J R X) (pack : CorrData J → J) where
  -- The world `w'` is `w`, with engine `c`, after the correlation events `es`: the handler saw
  -- them, the counters counted them, and the buffers are as they were.
  pub record Emitted (w : World (Event J R X)) (c : Correlation (Event J R X))
      (es : List (Event J R X)) (w' : World (Event J R X)) : Type 0 where
    pub engine : Correlation (Event J R X)
    pub has_engine : w'.correlation ≡ some engine
    pub same_log : engine.log_events ≡ c.log_events
    pub same_network : engine.network_events ≡ c.network_events
    pub same_window : engine.window_ns ≡ c.window_ns
    pub found :
        c.correlations_found + length es < u64
        → engine.correlations_found ≡ c.correlations_found + length es
    pub correlated :
        w.events_correlated + length es < u64
        → w'.events_correlated ≡ w.events_correlated + length es
    pub processed :
        w.events_processed + length es < u64 → w'.events_processed ≡ w.events_processed + length es
    pub has_handler : w'.has_handler ≡ true
    pub handled : w'.handled ≡ w.handled ++ es

  Emitted-none :
      (w : World (Event J R X)) (c : Correlation (Event J R X))
      → w.correlation ≡ some c
      → w.has_handler ≡ true
      → Emitted w c [] w
  Emitted-none w c h k = record {
    engine = c;
    has_engine = h;
    same_log = refl;
    same_network = refl;
    same_window = refl;
    found = λ u. omega arith;
    correlated = λ u. omega arith;
    processed = λ u. omega arith;
    has_handler = k;
    handled = sym (append-nil w.handled);
  }

  Emitted-append :
      (w w' w'' : World (Event J R X)) (c : Correlation (Event J R X)) (es fs : List (Event J R X))
      (a : Emitted w c es w')
      → Emitted w' a.engine fs w''
      → Emitted w c (es ++ fs) w''
  Emitted-append w w' w'' c es fs a b = record {
    engine = b.engine;
    has_engine = b.has_engine;
    same_log = b.same_log ∙ a.same_log;
    same_network = b.same_network ∙ a.same_network;
    same_window = b.same_window ∙ a.same_window;
    found = add_counts _ _ _ (length es) (length fs) _ (length-append es fs) a.found b.found;
    correlated =
        add_counts _ _ _ (length es) (length fs) _ (length-append es fs) a.correlated b.correlated;
    processed =
        add_counts _ _ _ (length es) (length fs) _ (length-append es fs) a.processed b.processed;
    has_handler = b.has_handler;
    handled = b.handled ∙ ap (λ x. x ++ fs) a.handled ∙ append_assoc w.handled es fs;
  }

  emit_concrete :
      (f : ℕ) (w : World (Event J R X)) (c : Correlation (Event J R X)) (window : ℕ)
      (l n : Event J R X)
      → Emitted
          (record w { correlation = some c; has_handler = true })
          c
          (create_correlation_event rt pack window l n ∷ [])
          (nblex_event_emit rt pack
            (suc f)
            (count_found (record w { correlation = some c; has_handler = true }))
            (create_correlation_event rt pack window l n))
  unfolding nblex_event_emit create_correlation_event process_event correlation_check_event
      check_buffer opposite buffer_event passes
  emit_concrete f w c window l n = record {
    engine = record c { correlations_found = (c.correlations_found + 1) % u64 };
    has_engine = refl;
    same_log = refl;
    same_network = refl;
    same_window = refl;
    found = λ u. mod-eq_of_lt u;
    correlated = λ u. mod-eq_of_lt u;
    processed = λ u. mod-eq_of_lt u;
    has_handler = refl;
    handled = refl;
  }

  abbrev emits : ℕ → World (Event J R X) → Event J R X → World (Event J R X)
  unfolding nblex_event_emit
  emits f w e = nblex_event_emit rt pack (suc f) (count_found w) e

  emit_created :
      (f : ℕ) (w : World (Event J R X)) (c : Correlation (Event J R X)) (window : ℕ)
      (l n : Event J R X)
      → w.correlation ≡ some c
      → w.has_handler ≡ true
      → Emitted w c
          (create_correlation_event rt pack window l n ∷ [])
          (emits f w (create_correlation_event rt pack window l n))
  unfolding emits
  emit_created f w c window l n h k =
      let same : w ≡ record w { correlation = some c; has_handler = true } =
        λ i. record w { correlation = h i; has_handler = k i } in
      subst
        (λ v.
          Emitted v c (create_correlation_event rt pack window l n ∷ [])
            (emits f v (create_correlation_event rt pack window l n)))
        (sym same) (emit_concrete f w c window l n)

  emit_pair :
      (f : ℕ) (kind : EventType) (w : World (Event J R X)) (c : Correlation (Event J R X))
      (window : ℕ) (new b : Event J R X)
      → w.correlation ≡ some c
      → w.has_handler ≡ true
      → Emitted w c
          (pair_up rt pack kind window new b ∷ [])
          (emits f w (pair_up rt pack kind window new b))
  unfolding pair_up
  emit_pair f log w c window new b h k = emit_created f w c window new b h k
  emit_pair f network w c window new b h k = emit_created f w c window b new h k
  emit_pair f correlation w c window new b h k = emit_created f w c window b new h k
  emit_pair f error w c window new b h k = emit_created f w c window b new h k

  -- the buffered events in the window of a new one
  unfoldable pub matches : ℕ → Event J R X → List (Event J R X) → List (Event J R X)
  unfolding in_window
  matches window new bs = keep (λ b. in_window window new.timestamp_ns b.timestamp_ns) bs

  pub check_buffer-Emitted :
      (f window : ℕ) (new : Event J R X) (bs : List (Event J R X)) (w : World (Event J R X))
      (c : Correlation (Event J R X))
      → w.correlation ≡ some c
      → w.has_handler ≡ true
      → Emitted w c
          (map (pair_up rt pack new.kind window new) (matches window new bs))
          (check_buffer rt pack (nblex_event_emit rt pack (suc f)) window new bs w)
  unfolding check_buffer matches emits
  check_buffer-Emitted f window new [] w c h k = Emitted-none w c h k
  check_buffer-Emitted f window new (b ∷ bs) w c h k =
      elim (Bool-cases (in_window window new.timestamp_ns b.timestamp_ns)) [
        | inl e ↦
            let first = emit_pair f new.kind w c window new b h k in
            rw e (
              Emitted-append w _ _ c (pair_up rt pack new.kind window new b ∷ []) _ first (
                check_buffer-Emitted f window new bs _ first.engine first.has_engine
                  first.has_handler))
        | inr e ↦ rw e (check_buffer-Emitted f window new bs w c h k)
      ]

-- ===== src/Correlation/Stream.antt =====
-- What the handler sees of a sequence of events: each event, and before it its correlations with
-- the earlier ones.
use nblex.Base.{
  ℕ, suc, ◌+◌, ◌%◌, ◌^◌, ◌≤◌, ◌<◌, ◌≡◌, refl, sym, ap, ◌∙◌, arith, Bool, true, false, some, List,
  [], ◌∷◌, ◌++◌, append_assoc, append-nil, map, if◌then◌else◌, leb, length, keep, Bool-cases, inl,
  inr,
}
use mathlib.Core.Path.{subst}
use nblex.Correlation.{
  EventType, log, network, correlation, error, Event, CorrData, Buffer, Correlation, World,
  max_buffer_size, create_correlation_event, pair_up, opposite, correlation_check_event,
  buffer_event, add_to_buffer, process_event, on_correlation, passes, nblex_event_emit,
}
use nblex.Correlation.Emit.{Emitted, matches, check_buffer-Emitted}
use nblex.Runtime.{Runtime}

abbrev pub is_log : EventType → Bool
is_log log = true
is_log _ = false

abbrev pub is_network : EventType → Bool
is_network network = true
is_network _ = false

module _ {J R X : Type 0} (rt : Runtime J R X) (pack : CorrData J → J) where
  -- the correlation events of a new event with the earlier ones, the newest first
  unfoldable pub correlations :
      EventType → ℕ → Event J R X → List (Event J R X) → List (Event J R X)
  unfolding create_correlation_event matches
  correlations log window new seen =
      map (λ b. create_correlation_event rt pack window new b)
        (matches rt pack window new (keep (λ e. is_network e.kind) seen))
  correlations network window new seen =
      map (λ b. create_correlation_event rt pack window b new)
        (matches rt pack window new (keep (λ e. is_log e.kind) seen))
  correlations _ window new seen = []

  -- The engine has buffered the events `seen`.
  pub record Holds (c : Correlation (Event J R X)) (seen : List (Event J R X)) : Type 0 where
    pub logs : c.log_events.events ≡ keep (λ e. is_log e.kind) seen
    pub networks : c.network_events.events ≡ keep (λ e. is_network e.kind) seen
    pub log_count : c.log_events.count ≤ length seen
    pub network_count : c.network_events.count ≤ length seen

  add_to_buffer-room :
      (e : Event J R X) (b : Buffer (Event J R X))
      → b.count < max_buffer_size
      → add_to_buffer e b ≡ record { events = e ∷ b.events; count = b.count + 1 }
  unfolding add_to_buffer
  add_to_buffer-room e b h =
      let room : leb max_buffer_size b.count ≡ false = ground arith in rw room refl

  with_buffers :
      (c : Correlation (Event J R X)) (l n : Buffer (Event J R X)) (seen : List (Event J R X))
      → c.log_events ≡ l
      → c.network_events ≡ n
      → l.events ≡ keep (λ e. is_log e.kind) seen
      → n.events ≡ keep (λ e. is_network e.kind) seen
      → l.count ≤ length seen
      → n.count ≤ length seen
      → Holds c seen
  with_buffers c l n seen p q a b x y = record {
    logs = ap (λ b. b.events) p ∙ a;
    networks = ap (λ b. b.events) q ∙ b;
    log_count = rw p x;
    network_count = rw q y;
  }

  buffer_event-Holds :
      (k : EventType) (e : Event J R X) (c : Correlation (Event J R X)) (seen : List (Event J R X))
      → e.kind ≡ k
      → Holds c seen
      → length seen < max_buffer_size
      → Holds (buffer_event rt pack k e c) (e ∷ seen)
  unfolding buffer_event
  buffer_event-Holds log e c seen q h u =
      let added = add_to_buffer-room e c.log_events (omega (arith, h.log_count)) in
      let is_l : is_log e.kind ≡ true = ap is_log q in
      let is_n : is_network e.kind ≡ false = ap is_network q in
      with_buffers _ _ c.network_events (e ∷ seen) added refl (rw is_l (ap (◌∷◌ e) h.logs))
        (rw is_n h.networks) (omega (arith, h.log_count)) (omega (arith, h.network_count))
  buffer_event-Holds network e c seen q h u =
      let added = add_to_buffer-room e c.network_events (omega (arith, h.network_count)) in
      let is_l : is_log e.kind ≡ false = ap is_log q in
      let is_n : is_network e.kind ≡ true = ap is_network q in
      with_buffers _ c.log_events _ (e ∷ seen) refl added (rw is_l h.logs)
        (rw is_n (ap (◌∷◌ e) h.networks)) (omega (arith, h.log_count))
        (omega (arith, h.network_count))
  buffer_event-Holds correlation e c seen q h u =
      let is_l : is_log e.kind ≡ false = ap is_log q in
      let is_n : is_network e.kind ≡ false = ap is_network q in
      with_buffers c c.log_events c.network_events (e ∷ seen) refl refl (rw is_l h.logs)
        (rw is_n h.networks) (omega (arith, h.log_count)) (omega (arith, h.network_count))
  buffer_event-Holds error e c seen q h u =
      let is_l : is_log e.kind ≡ false = ap is_log q in
      let is_n : is_network e.kind ≡ false = ap is_network q in
      with_buffers c c.log_events c.network_events (e ∷ seen) refl refl (rw is_l h.logs)
        (rw is_n h.networks) (omega (arith, h.log_count)) (omega (arith, h.network_count))

  -- the loop over the opposite buffer emits the correlations with the events seen
  pair_up-correlations :
      (k : EventType) (window : ℕ) (new : Event J R X) (c : Correlation (Event J R X))
      (seen : List (Event J R X))
      → Holds c seen
      → map (pair_up rt pack k window new) (matches rt pack window new (opposite rt pack k c))
        ≡ correlations k window new seen
  unfolding pair_up opposite correlations
  pair_up-correlations log window new c seen h =
      ap
        (λ bs.
          map (λ b. create_correlation_event rt pack window new b) (matches rt pack window new bs))
        h.networks
  pair_up-correlations network window new c seen h =
      ap
        (λ bs.
          map (λ b. create_correlation_event rt pack window b new) (matches rt pack window new bs))
        h.logs
  pair_up-correlations correlation window new c seen h = unfold matches in refl
  pair_up-correlations error window new c seen h = unfold matches in refl

  -- what nblex_event_emit does after the correlations of an event
  finish : Event J R X → World (Event J R X) → World (Event J R X)
  unfolding nblex_event_emit
  finish e w =
      let w' = record w {
        correlation = on_correlation (buffer_event rt pack e.kind e) w.correlation;
      } in
      if w'.has_handler then record w' { handled = w'.handled ++ e ∷ [] } else w'

  -- The world after an event that passes: the engine holds it, and the handler saw `es` and it.
  record Seen (c : Correlation (Event J R X)) (seen es hs : List (Event J R X))
      (w : World (Event J R X)) : Type 0 where
    engine : Correlation (Event J R X)
    has_engine : w.correlation ≡ some engine
    holds : Holds engine seen
    same_window : engine.window_ns ≡ c.window_ns
    has_handler : w.has_handler ≡ true
    handled : w.handled ≡ hs ++ es

  same_buffers-Holds :
      (c c' : Correlation (Event J R X)) (seen : List (Event J R X))
      → c'.log_events ≡ c.log_events
      → c'.network_events ≡ c.network_events
      → Holds c seen
      → Holds c' seen
  same_buffers-Holds c c' seen p q h =
      with_buffers c' c.log_events c.network_events seen p q h.logs h.networks h.log_count
        h.network_count

  window-buffer_event :
      (k : EventType) (e : Event J R X) (c : Correlation (Event J R X))
      → (buffer_event rt pack k e c).window_ns ≡ c.window_ns
  unfolding buffer_event
  window-buffer_event log e c = refl
  window-buffer_event network e c = refl
  window-buffer_event correlation e c = refl
  window-buffer_event error e c = refl

  finish-Seen :
      (e : Event J R X) (w w' : World (Event J R X)) (c : Correlation (Event J R X))
      (seen es : List (Event J R X))
      → Emitted rt pack w c es w'
      → Holds c seen
      → length seen < max_buffer_size
      → Seen c (e ∷ seen) (es ++ e ∷ []) w.handled (finish e w')
  unfolding finish
  finish-Seen e w w' c seen es m holds u =
      let k = m.has_handler in
      record {
        engine = buffer_event rt pack e.kind e m.engine;
        has_engine = rw k (ap (on_correlation (buffer_event rt pack e.kind e)) m.has_engine);
        holds =
            buffer_event-Holds e.kind e m.engine seen refl
              (same_buffers-Holds c m.engine seen m.same_log m.same_network holds) u;
        same_window = window-buffer_event e.kind e m.engine ∙ m.same_window;
        has_handler = rw k refl;
        handled = rw k (ap (λ x. x ++ e ∷ []) m.handled ∙ append_assoc w.handled es (e ∷ []));
      }

  emit_concrete :
      (f : ℕ) (w : World (Event J R X)) (c : Correlation (Event J R X)) (e : Event J R X)
      (seen : List (Event J R X))
      → Holds c seen
      → length seen < max_buffer_size
      → passes rt pack e.filter e.data' ≡ true
      → Seen c (e ∷ seen) (correlations e.kind c.window_ns e seen ++ e ∷ []) w.handled (
          nblex_event_emit rt pack
            (suc (suc f))
            (record w { correlation = some c; has_handler = true })
            e)
  unfolding nblex_event_emit process_event correlation_check_event finish
  emit_concrete f w c e seen holds u p =
      let w1 : World (Event J R X) = record w {
        correlation = some c;
        has_handler = true;
        events_processed = (w.events_processed + 1) % 2 ^ 64;
      } in
      let w' = correlation_check_event rt pack (nblex_event_emit rt pack (suc f)) c e w1 in
      let m : Emitted rt pack w1 c (correlations e.kind c.window_ns e seen) w' =
        subst (λ es. Emitted rt pack w1 c es w')
          (pair_up-correlations e.kind c.window_ns e c seen holds)
          (check_buffer-Emitted rt pack f c.window_ns e (opposite rt pack e.kind c) w1 c refl
            refl) in
      rw p (finish-Seen e w1 w' c seen _ m holds u)

  emit_one :
      (f : ℕ) (w : World (Event J R X)) (c : Correlation (Event J R X)) (e : Event J R X)
      (seen : List (Event J R X))
      → w.correlation ≡ some c
      → w.has_handler ≡ true
      → Holds c seen
      → length seen < max_buffer_size
      → passes rt pack e.filter e.data' ≡ true
      → Seen c
          (e ∷ seen)
          (correlations e.kind c.window_ns e seen ++ e ∷ [])
          w.handled
          (nblex_event_emit rt pack (suc (suc f)) w e)
  emit_one f w c e seen h k holds u p =
      let same : w ≡ record w { correlation = some c; has_handler = true } =
        λ i. record w { correlation = h i; has_handler = k i } in
      subst
        (λ v.
          Seen c (e ∷ seen) (correlations e.kind c.window_ns e seen ++ e ∷ []) w.handled
            (nblex_event_emit rt pack (suc (suc f)) v e))
        (sym same) (emit_concrete f w c e seen holds u p)

  -- an event that the filter of its input rejects is dropped
  emit_dropped :
      (f : ℕ) (w : World (Event J R X)) (e : Event J R X)
      → passes rt pack e.filter e.data' ≡ false
      → nblex_event_emit rt pack (suc f) w e ≡ w
  unfolding nblex_event_emit
  emit_dropped f w e p = rw p refl

  abbrev pub emit_all : ℕ → World (Event J R X) → List (Event J R X) → World (Event J R X)
  emit_all f w [] = w
  emit_all f w (e ∷ es) = emit_all f (nblex_event_emit rt pack f w e) es

  -- What the handler is to see of the events `es` when `seen` came before, the newest first: each
  -- event that passes its filter, and before it its correlations with the earlier ones.
  unfoldable pub expected : ℕ → List (Event J R X) → List (Event J R X) → List (Event J R X)
  unfolding correlations passes
  expected window seen [] = []
  expected window seen (e ∷ es) =
      let dropped = expected window seen es in
      let later = expected window (e ∷ seen) es in
      if passes rt pack e.filter e.data'
      then (correlations e.kind window e seen ++ e ∷ []) ++ later
      else dropped

  emit_all-expected :
      (f : ℕ) (w : World (Event J R X)) (c : Correlation (Event J R X))
      (seen es : List (Event J R X))
      → w.correlation ≡ some c
      → w.has_handler ≡ true
      → Holds c seen
      → length seen + length es ≤ max_buffer_size
      → (emit_all (suc (suc f)) w es).handled ≡ w.handled ++ expected c.window_ns seen es
  unfolding expected
  emit_all-expected f w c seen [] h k holds u = sym (append-nil w.handled)
  emit_all-expected f w c seen (e ∷ es) h k holds u =
      elim (Bool-cases (passes rt pack e.filter e.data')) [
        | inl p ↦
            let one = emit_one f w c e seen h k holds (omega (arith, u)) p in
            let rest =
              emit_all-expected f (nblex_event_emit rt pack (suc (suc f)) w e) one.engine (e ∷ seen)
                es one.has_engine one.has_handler one.holds (omega (arith, u)) in
            let a = correlations e.kind c.window_ns e seen ++ e ∷ [] in
            rw p (
              rest
              ∙ ap (λ hs. hs ++ expected one.engine.window_ns (e ∷ seen) es) one.handled
              ∙ ap (λ n. (w.handled ++ a) ++ expected n (e ∷ seen) es) one.same_window
              ∙ append_assoc w.handled a (expected c.window_ns (e ∷ seen) es))
        | inr p ↦ rw p (
            ap (λ v. (emit_all (suc (suc f)) v es).handled) (emit_dropped (suc f) w e p)
            ∙ emit_all-expected f w c seen es h k holds (omega (arith, u)))
      ]

  -- From an engine with empty buffers, and for as many events as a buffer holds, the handler sees
  -- each event that passes its filter once, and before it one correlation event for each earlier
  -- event of the other type in the window, the newest first, and nothing else.
  pub emitted_events :
      (f : ℕ) (w : World (Event J R X)) (c : Correlation (Event J R X)) (es : List (Event J R X))
      → w.correlation ≡ some c
      → w.has_handler ≡ true
      → c.log_events ≡ record { events = []; count = 0 }
      → c.network_events ≡ record { events = []; count = 0 }
      → length es ≤ max_buffer_size
      → (emit_all (suc (suc f)) w es).handled ≡ w.handled ++ expected c.window_ns [] es
  emitted_events f w c es h k l n u =
      emit_all-expected f w c [] es h k
        (with_buffers c _ _ [] l n refl refl (omega arith) (omega arith)) (omega (arith, u))

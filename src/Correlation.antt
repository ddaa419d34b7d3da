-- ===== src/Correlation.antt =====
-- src/correlation/time_correlation.c and src/core/nblex_event.c: an event's way through the filter
-- of its input, the correlation engine and the handler of the world. A buffer is the list of its
-- events, the newest first, and the count that the engine keeps beside it.
pub mod Emit
pub mod Stream
pub mod Bounds
pub mod Cleanup
mod Tests
use nblex.Base.{
  ℕ, zero, suc, ◌+◌, ◌-◌, ◌*◌, ◌/◌, ◌%◌, ◌^◌, Bool, true, false, Option, none, some, List, [], ◌∷◌,
  ◌++◌, leb, ltb, if◌then◌else◌, length,
}
use nblex.Base.Int.{ℤ, pos, pos_part, neg_part, sub_ℕ, abs, leb_ℤ, signed}
use nblex.Filter.{FilterNode, nblex_filter_matches}
use nblex.Runtime.{Runtime}

-- nblex_event_type
pub data EventType : Type 0 where
  log network correlation error : EventType

-- nblex_event; `filter` is the filter of its input, where it has an input and that a filter.
pub record Event (J R X : Type 0) : Type 0 where
  pub kind : EventType
  pub timestamp_ns : ℕ
  pub filter : Option (Option (FilterNode R X))
  pub data' : Option J

-- What create_correlation_event puts in its JSON object; time_diff_ms is the difference / 1e6.
pub record CorrData (J : Type 0) : Type 0 where
  pub window_ms : ℕ
  pub log_data : Option J
  pub network_data : Option J
  pub time_diff_ns : ℤ

-- A buffer and its count.
pub record Buffer (E : Type 0) : Type 0 where
  pub events : List E
  pub count : ℕ

-- nblex_correlation
pub record Correlation (E : Type 0) : Type 0 where
  pub window_ns : ℕ
  pub log_events : Buffer E
  pub network_events : Buffer E
  pub correlations_found : ℕ

-- The parts of nblex_world that an event changes, and the calls of the handler in order.
pub record World (E : Type 0) : Type 0 where
  pub correlation : Option (Correlation E)
  pub events_processed : ℕ
  pub events_correlated : ℕ
  pub has_handler : Bool
  pub handled : List E

abbrev u64 : ℕ
u64 = 2 ^ 64

-- MAX_BUFFER_SIZE
abbrev pub max_buffer_size : ℕ
max_buffer_size = 10_000

-- (int64_t) a - (int64_t) b
abbrev pub time_diff : ℕ → ℕ → ℤ
time_diff a b =
    let x = signed (2 ^ 63) a in
    let y = signed (2 ^ 63) b in sub_ℕ (pos_part x + neg_part y) (neg_part x + pos_part y)

-- llabs (time_diff) <= (int64_t) window_ns
unfoldable pub in_window : ℕ → ℕ → ℕ → Bool
in_window window a b = leb_ℤ (pos (abs (time_diff a b))) (signed (2 ^ 63) window)

module _ {E : Type 0} where
  unfoldable pub add_to_buffer : E → Buffer E → Buffer E
  add_to_buffer e b =
      if leb max_buffer_size b.count
      then b
      else record { events = e ∷ b.events; count = b.count + 1 }

  -- the entries that are not older than the cutoff, and as many less in the count
  unfoldable pub keep_new : (E → ℕ) → ℕ → List E → List E
  keep_new time cutoff [] = []
  keep_new time cutoff (e ∷ es) =
      let rest = keep_new time cutoff es in if ltb (time e) cutoff then rest else e ∷ rest

  unfoldable pub cleanup_old_events : (E → ℕ) → ℕ → Buffer E → Buffer E
  unfolding keep_new
  cleanup_old_events time cutoff b =
      let kept = keep_new time cutoff b.events in
      record { events = kept; count = b.count - (length b.events - length kept) }

  abbrev pub on_correlation :
      (Correlation E → Correlation E) → Option (Correlation E) → Option (Correlation E)
  on_correlation f none = none
  on_correlation f (some c) = some (f c)

  -- the counters of a correlation that was found
  abbrev pub count_found : World E → World E
  count_found w = record w {
    correlation =
        on_correlation (λ c. record c { correlations_found = (c.correlations_found + 1) % u64 })
          w.correlation;
    events_correlated = (w.events_correlated + 1) % u64;
  }

module _ {J R X : Type 0} (rt : Runtime J R X) (pack : CorrData J → J) where
  abbrev pub Ev : Type 0
  Ev = Event J R X

  unfoldable pub create_correlation_event : ℕ → Ev → Ev → Ev
  create_correlation_event window log_event network_event = record {
    kind = correlation;
    timestamp_ns = log_event.timestamp_ns;
    filter = none;
    data' = some (
        pack (record {
          window_ms = window / 1_000_000;
          log_data = log_event.data';
          network_data = network_event.data';
          time_diff_ns = time_diff log_event.timestamp_ns network_event.timestamp_ns;
        }));
  }

  -- The correlation event of a new event of type log or network with a buffered one.
  unfoldable pub pair_up : EventType → ℕ → Ev → Ev → Ev
  unfolding create_correlation_event
  pair_up log window new buffered = create_correlation_event window new buffered
  pair_up _ window new buffered = create_correlation_event window buffered new

  -- The loop over a buffer; `emit` is nblex_event_emit.
  unfoldable pub check_buffer : (World Ev → Ev → World Ev) → ℕ → Ev → List Ev → World Ev → World Ev
  unfolding in_window pair_up
  check_buffer emit window new [] w = w
  check_buffer emit window new (b ∷ bs) w =
      let found = emit (count_found w) (pair_up new.kind window new b) in
      let w' = if in_window window new.timestamp_ns b.timestamp_ns then found else w in
      check_buffer emit window new bs w'

  unfoldable pub opposite : EventType → Correlation Ev → List Ev
  opposite log c = c.network_events.events
  opposite network c = c.log_events.events
  opposite _ c = []

  unfoldable pub correlation_check_event :
      (World Ev → Ev → World Ev) → Correlation Ev → Ev → World Ev → World Ev
  unfolding check_buffer opposite
  correlation_check_event emit c new w = check_buffer emit c.window_ns new (opposite new.kind c) w

  unfoldable pub buffer_event : EventType → Ev → Correlation Ev → Correlation Ev
  unfolding add_to_buffer
  buffer_event log e c = record c { log_events = add_to_buffer e c.log_events }
  buffer_event network e c = record c { network_events = add_to_buffer e c.network_events }
  buffer_event _ e c = c

  -- nblex_correlation_process_event, where the world has a correlation engine
  unfoldable pub process_event :
      (World Ev → Ev → World Ev) → Option (Correlation Ev) → Ev → World Ev → World Ev
  unfolding correlation_check_event buffer_event
  process_event emit none e w = w
  process_event emit (some c) e w =
      let w' = correlation_check_event emit c e w in
      record w' { correlation = on_correlation (buffer_event e.kind e) w'.correlation }

  abbrev call_handler : Ev → World Ev → World Ev
  call_handler e w = if w.has_handler then record w { handled = w.handled ++ e ∷ [] } else w

  unfoldable pub passes : Option (Option (FilterNode R X)) → Option J → Bool
  unfolding nblex_filter_matches
  passes none obj = true
  passes (some root) obj = nblex_filter_matches rt (some root) obj

  -- nblex_event_emit. The correlation events that it emits in turn need one more level of fuel.
  unfoldable pub nblex_event_emit : ℕ → World Ev → Ev → World Ev
  unfolding process_event passes
  nblex_event_emit zero w e = w
  nblex_event_emit (suc f) w e =
      let w1 = record w { events_processed = (w.events_processed + 1) % u64 } in
      let w2 = process_event (nblex_event_emit f) w1.correlation e w1 in
      if passes e.filter e.data' then call_handler e w2 else w

  -- cleanup_timer_cb at the time `now`
  unfoldable pub cleanup_timer_cb : ℕ → Correlation Ev → Correlation Ev
  unfolding cleanup_old_events
  cleanup_timer_cb now c =
      let cutoff = (now + u64 - c.window_ns * 2 % u64) % u64 in
      record c {
        log_events = cleanup_old_events (λ e. e.timestamp_ns) cutoff c.log_events;
        network_events = cleanup_old_events (λ e. e.timestamp_ns) cutoff c.network_events;
      }

  -- nblex_correlation_new and nblex_correlation_add_strategy
  unfoldable pub correlation_new : Correlation Ev
  correlation_new = record {
    window_ns = 100 * 1_000_000;
    log_events = record { events = []; count = 0 };
    network_events = record { events = []; count = 0 };
    correlations_found = 0;
  }

  unfoldable pub add_strategy : ℕ → Correlation Ev → Correlation Ev
  add_strategy window_ms c = record c { window_ns = window_ms * 1_000_000 }

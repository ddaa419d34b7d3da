-- ===== src/Correlation/Tests.antt =====
-- Runs of the correlation engine on small events, and the theorems at them.
use nblex.Base.{
  ℕ, ◌+◌, ◌-◌, ◌*◌, ◌≡◌, refl, arith, true, ◌&&◌, none, some, List, [], ◌∷◌, ◌++◌, leb, keep, map,
}
use nblex.Base.Int.{ℤ, pos}
use nblex.Correlation.{
  EventType, log, network, correlation, Event, CorrData, Correlation, World, in_window,
  create_correlation_event, nblex_event_emit, cleanup_timer_cb, correlation_new, add_strategy,
  passes,
}
use nblex.Correlation.Bounds.{IsBoundedEngine, Runs-IsBounded, done, after_event}
use nblex.Correlation.Cleanup.{in_window_lem, cleanup_timer_cb-matches}
use nblex.Correlation.Emit.{matches}
use nblex.Correlation.Stream.{emit_all, expected, emitted_events, correlations}
use nblex.Testing.{Sample, number, empty, field, sample}
use nblex.Text.{Bytes, codes}

abbrev pack : CorrData Sample → Sample
pack d =
    field (codes "window_ms") (number (pos d.window_ms))
      (field (codes "time_diff_ns") (number d.time_diff_ns) empty)

abbrev event : EventType → ℕ → Event Sample ℤ Bytes
event kind ts = record { kind = kind; timestamp_ns = ts; filter = none; data' = some empty }

abbrev engine : Correlation (Event Sample ℤ Bytes)
engine = record {
  window_ns = 100_000_000;
  log_events = record { events = []; count = 0 };
  network_events = record { events = []; count = 0 };
  correlations_found = 0;
}

correlation_new-engine : correlation_new sample pack ≡ engine
unfolding correlation_new
correlation_new-engine = refl

add_strategy-engine : add_strategy sample pack 100 engine ≡ engine
unfolding add_strategy
add_strategy-engine = refl

abbrev world : World (Event Sample ℤ Bytes)
world = record {
  correlation = some engine;
  events_processed = 0;
  events_correlated = 0;
  has_handler = true;
  handled = [];
}

-- a log event, a packet in its window, a log event in the packet's window, a late packet
abbrev stream : List (Event Sample ℤ Bytes)
stream =
    event log 1_000_000_000
    ∷ event network 1_060_000_000
    ∷ event log 1_120_000_000
    ∷ event network 2_000_000_000
    ∷ []

-- the types and times that the handler sees
abbrev shape : List (Event Sample ℤ Bytes) → List (EventType × ℕ)
shape es = map (λ e. (e.kind, e.timestamp_ns)) es

stream-expected :
    shape (expected sample pack 100_000_000 [] stream)
    ≡ (log, 1_000_000_000)
      ∷ (correlation, 1_000_000_000)
      ∷ (network, 1_060_000_000)
      ∷ (correlation, 1_120_000_000)
      ∷ (log, 1_120_000_000)
      ∷ (network, 2_000_000_000)
      ∷ []
unfolding expected correlations create_correlation_event matches in_window passes
stream-expected = refl

emitted_events_example :
    (emit_all sample pack 2 world stream).handled ≡ [] ++ expected sample pack 100_000_000 [] stream
emitted_events_example =
    emitted_events sample pack 0 world engine stream refl refl refl refl (omega arith)

Runs-IsBounded_example :
    IsBoundedEngine (nblex_event_emit sample pack 2 world (event log 1_000_000_000)).correlation
Runs-IsBounded_example =
    Runs-IsBounded sample pack world
      (nblex_event_emit sample pack 2 world (event log 1_000_000_000))
      (after_event world world 2 (event log 1_000_000_000) (done world))
      ((refl, omega arith), (refl, omega arith))

in_window_lem_example :
    in_window 100 5_000 5_100 ≡ (leb 5_000 (5_100 + 100) && leb 5_100 (5_000 + 100))
in_window_lem_example = in_window_lem 100 5_000 5_100 (omega arith) (omega arith) (omega arith)

-- an old and a recent log event
abbrev filled : Correlation (Event Sample ℤ Bytes)
filled = record engine {
  log_events = record { events = event log 900_000_000 ∷ event log 100_000_000 ∷ []; count = 2 };
}

cleanup_timer_cb-matches_example :
    ((cleanup_timer_cb sample pack 1_000_000_000 filled).log_events.events
      ≡ keep (λ e. leb (1_000_000_000 - 2 * 100_000_000) e.timestamp_ns) filled.log_events.events)
    × ((cleanup_timer_cb sample pack 1_000_000_000 filled).network_events.events
        ≡ keep
            (λ e. leb (1_000_000_000 - 2 * 100_000_000) e.timestamp_ns)
            filled.network_events.events)
    × (matches sample pack 100_000_000
          (event network 950_000_000)
          (cleanup_timer_cb sample pack 1_000_000_000 filled).log_events.events
        ≡ matches sample pack 100_000_000 (event network 950_000_000) filled.log_events.events)
    × (matches sample pack 100_000_000
          (event network 950_000_000)
          (cleanup_timer_cb sample pack 1_000_000_000 filled).network_events.events
        ≡ matches sample pack 100_000_000 (event network 950_000_000) filled.network_events.events)
cleanup_timer_cb-matches_example =
    cleanup_timer_cb-matches sample pack 1_000_000_000 filled (event network 950_000_000)
      (omega arith) (omega arith) (omega arith) (omega arith)

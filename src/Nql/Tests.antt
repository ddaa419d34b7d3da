-- ===== src/Nql/Tests.antt =====
-- Runs of the query executor on small events, and the theorems at them.
use nblex.Base.{
  ℕ, ◌+◌, ◌*◌, ◌/◌, ◌^◌, ◌-◌, ◌≤◌, ◌<◌, Bool, true, false, not, Option, none, some, List, [], ◌∷◌,
  ◌≡◌, refl, arith, count, keep, map,
}
use nblex.Base.Int.{ℤ, pos}
use nblex.Nql.{
  WindowType, tumbling, session, agg_count, agg_sum, Event, same_keys, extract_group_keys,
  json_get_path,
}
use nblex.Nql.Aggregate.{aggregate_event}
use nblex.Nql.Aggregate.Counts.{aggregate_events, aggregate_events-tally, keys_in}
use nblex.Nql.Aggregate.Reachable.{reachable_states, after_flush, done}
use nblex.Nql.Bucket.{AggState, get_or_create_buckets, fresh_stats}
use nblex.Nql.Bucket.Invariant.{IsWellFormed}
use nblex.Nql.Bucket.Landing.{tally}
use nblex.Nql.Bucket.Windows.{FallsIn, tumbling_lands, session_lands}
use nblex.Nql.Flush.{AggResult, window_flush_cb, create_agg_result_event}
use nblex.Nql.Flush.Keeps.{window_flush_cb-IsWellFormed}
use nblex.Nql.Flush.Results.{was_idle, session_flush}
use nblex.Testing.{Sample, number, text, empty, field, sample}
use nblex.Text.{Bytes, codes, str_eq}

-- 10 ms windows, 5 ms sessions, grouped by host: count() and sum(bytes)
abbrev state : WindowType → AggState ℤ
state kind = record {
  window = record { kind = kind; size_ms = 10; slide_ms = 5; timeout_ms = 5 };
  funcs =
      record { kind = agg_count; field = none; percentile = pos 0 }
      ∷ record { kind = agg_sum; field = some (codes "bytes"); percentile = pos 0 }
      ∷ [];
  group_by_fields = codes "host" ∷ [];
  buckets = [];
  bucket_count = 0;
  next_id = 0;
  last_flush_ns = 0;
}

abbrev event : ℕ → Bytes → Event Sample
event ts host = record {
  timestamp_ns = ts;
  json = some (field (codes "host") (text host) (field (codes "bytes") (number (pos 7)) empty));
}

abbrev web : List Bytes
web = codes "web" ∷ []

-- one bucket of the group, from 20 ms on
abbrev busy : WindowType → ℕ → AggState ℤ
busy kind end' = record (state kind) {
  buckets =
      record {
        id = 0;
        group_keys = web;
        stats = record (fresh_stats sample) { count = 3; sum = pos 21 };
        window_start_ns = 20_000_000;
        window_end_ns = end';
        last_event_ns = 22_000_000;
      }
      ∷ [];
  bucket_count = 1;
  next_id = 1;
}

busy-IsWellFormed : IsWellFormed (busy tumbling 30_000_000)
busy-IsWellFormed = record { ids = (omega arith, tt); windows = (refl, tt); counted = refl }

open_session-IsWellFormed : IsWellFormed (busy session (2 ^ 64 - 1))
open_session-IsWellFormed = record {
  ids = (omega arith, tt);
  windows = ((omega arith, refl), tt);
  counted = refl;
}

tumbling_lands_example :
    FallsIn sample
      (λ b.
        (same_keys b.group_keys web ≡ true)
        × (b.window_start_ns ≡ 25_000_000 / 10_000_000 * 10_000_000)
        × (b.window_start_ns ≤ 25_000_000)
        × (25_000_000 < b.window_end_ns)
        × (b.window_end_ns ≡ b.window_start_ns + 10_000_000))
      (get_or_create_buckets sample (busy tumbling 30_000_000) web 25_000_000)
tumbling_lands_example =
    tumbling_lands sample (busy tumbling 30_000_000) web 25_000_000 10_000_000 busy-IsWellFormed
      refl refl (omega arith) (omega arith)

session_lands_example :
    FallsIn sample
      (λ b.
        (same_keys b.group_keys web ≡ true)
        × (b.last_event_ns ≤ 25_000_000)
        × (25_000_000 < b.last_event_ns + 5_000_000)
        × (b.window_start_ns ≤ b.last_event_ns))
      (get_or_create_buckets sample (busy session (2 ^ 64 - 1)) web 25_000_000)
session_lands_example =
    session_lands sample (busy session (2 ^ 64 - 1)) web 25_000_000 open_session-IsWellFormed refl
      (omega arith)

abbrev arrivals : List (ℕ × Event Sample)
arrivals =
    (0, event 25_000_000 (codes "web"))
    ∷ (0, event 26_000_000 (codes "db"))
    ∷ (0, event 41_000_000 (codes "web"))
    ∷ []

abbrev is_web : List Bytes → Bool
unfolding str_eq
is_web (k ∷ []) = str_eq k (codes "web")
is_web _ = false

aggregate_events-tally_example :
    (st : AggState ℤ) × (aggregate_events sample (busy tumbling 30_000_000) arrivals ≡ some st)
    × (tally is_web st.buckets
        ≡ 3 + count (λ te. is_web (keys_in sample (busy tumbling 30_000_000) te.1)) arrivals)
unfolding is_web
aggregate_events-tally_example =
    aggregate_events-tally sample (busy tumbling 30_000_000) arrivals is_web busy-IsWellFormed
      (refl, tt) (omega arith) ((_, refl), ((_, refl), ((_, refl), tt))) (omega arith)

web_arrivals : count (λ te. is_web (keys_in sample (busy tumbling 30_000_000) te.1)) arrivals ≡ 2
unfolding extract_group_keys json_get_path is_web
web_arrivals = refl

window_flush_cb-IsWellFormed_example :
    IsWellFormed (window_flush_cb sample 31_000_000 (busy tumbling 30_000_000)).0
window_flush_cb-IsWellFormed_example =
    window_flush_cb-IsWellFormed sample 31_000_000 (busy tumbling 30_000_000) busy-IsWellFormed

session_flush_example :
    ((window_flush_cb sample 31_000_000 (busy session (2 ^ 64 - 1))).0.buckets
      ≡ keep
          (λ b. not (was_idle sample 31_000_000 (busy session (2 ^ 64 - 1)) b))
          (busy session (2 ^ 64 - 1)).buckets)
    × ((window_flush_cb sample 31_000_000 (busy session (2 ^ 64 - 1))).1
        ≡ map (create_agg_result_event sample (busy session (2 ^ 64 - 1))) (
            keep
              (was_idle sample 31_000_000 (busy session (2 ^ 64 - 1)))
              (busy session (2 ^ 64 - 1)).buckets))
session_flush_example =
    session_flush sample 31_000_000 (busy session (2 ^ 64 - 1)) refl (omega arith) (omega arith, tt)

-- the bucket of that flush is idle, and just so
was_idle_then :
    (was_idle sample 27_000_000 (busy session (2 ^ 64 - 1)) (record {
      id = 0;
      group_keys = web;
      stats = record (fresh_stats sample) { count = 3; sum = pos 21 };
      window_start_ns = 20_000_000;
      window_end_ns = 30_000_000;
      last_event_ns = 22_000_000;
    }))
    ≡ true
was_idle_then = refl

reachable_states_example :
    IsWellFormed (window_flush_cb sample 31_000_000 (state tumbling)).0
    × ((st : AggState ℤ) × (r : Option (AggResult ℤ)) × (aggregate_event sample 0
            (window_flush_cb sample 31_000_000 (state tumbling)).0
            (event 25_000_000 (codes "web"))
          ≡ some (st, r)))
reachable_states_example =
    reachable_states sample (state tumbling).window (state tumbling).funcs
      (state tumbling).group_by_fields (window_flush_cb sample 31_000_000 (state tumbling)).0 0
      (event 25_000_000 (codes "web")) (omega arith)
      (after_flush (state tumbling) (state tumbling) 31_000_000 (done (state tumbling)))

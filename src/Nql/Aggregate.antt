-- ===== src/Nql/Aggregate.antt =====
-- src/core/nql_executor.c: what execute_aggregate does with an event that passes its WHERE
-- clause, on the state of its query.
pub mod Counts
pub mod Keeps
pub mod Reachable
use nblex.Base.{ℕ, Bool, true, false, Option, none, some, List, [], ◌∷◌, ◌==◌, if◌then◌else◌}
use nblex.Nql.{WindowType, no_window, Event, extract_group_keys}
use nblex.Nql.Bucket.{Bucket, AggState, bucket_at, get_or_create_buckets}
use nblex.Nql.Flush.{AggResult, create_agg_result_event}
use nblex.Nql.Update.{timestamp_or, update_bucket_with_event, update_all}
use nblex.Runtime.{Runtime}

module _ {J R X : Type 0} (rt : Runtime J R X) where
  result_of : AggState R → Option (Bucket R) → Option (AggResult R)
  unfolding create_agg_result_event
  result_of st none = none
  result_of st (some b) = some (create_agg_result_event rt st b)

  -- Only a query without a window emits at once, from its first bucket.
  emitted_now : WindowType → AggState R → List ℕ → Option (AggResult R)
  unfolding bucket_at result_of
  emitted_now no_window st (i ∷ is) = result_of st (bucket_at i st.buckets)
  emitted_now _ st ids = none

  update_buckets : ℕ → Event J → AggState R → List ℕ → AggState R
  unfolding update_bucket_with_event update_all
  update_buckets now e st ids = record st {
    buckets = update_all (update_bucket_with_event rt now st e) ids st.buckets;
  }

  count_event :
      ℕ → Event J → Option (AggState R × List ℕ) → Option (AggState R × Option (AggResult R))
  unfolding update_buckets emitted_now
  count_event now e none = none
  count_event now e (some (st, ids)) =
      let st' = update_buckets now e st ids in some (st', emitted_now st'.window.kind st' ids)

  -- One event at the time `now`: the new state and the result that is emitted. `none` is the
  -- division by zero of get_or_create_buckets_for_event.
  unfoldable pub aggregate_event :
      ℕ → AggState R → Event J → Option (AggState R × Option (AggResult R))
  unfolding count_event
  aggregate_event now st e = count_event now e (
      get_or_create_buckets rt st (extract_group_keys rt st.group_by_fields e.json)
        (timestamp_or now e))

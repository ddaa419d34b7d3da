-- ===== src/Nql/Correlate.antt =====
-- src/core/nql_executor.c: a correlation query (add_corr_event, create_corr_result_event,
-- execute_correlate, corr_cleanup_cb), on the state of its query.
pub mod Stream
mod Tests
use nblex.Base.{
  ℕ, ◌+◌, ◌-◌, ◌*◌, ◌%◌, ◌^◌, Bool, true, false, ◌||◌, Option, List, [], ◌∷◌, ◌++◌, if◌then◌else◌,
  ltb,
}
use nblex.Base.Int.{ℤ}
use nblex.Correlation.{Buffer, time_diff, in_window, cleanup_old_events}
use nblex.Filter.{FilterNode, nblex_filter_matches}
use nblex.Nql.{Event, u64, to_ns}
use nblex.Runtime.{Runtime}

-- nql_corr_state_t
pub record CorrState (J : Type 0) : Type 0 where
  pub within_ms : ℕ
  pub left_events : Buffer (Event J)
  pub right_events : Buffer (Event J)

-- The event of a correlation, and what its JSON object holds.
pub record CorrResult (J : Type 0) : Type 0 where
  pub window_ms : ℕ
  pub left_data : Option J
  pub right_data : Option J
  pub time_diff_ns : ℤ
  pub timestamp_ns : ℕ

-- nql_correlate_t: its filters may be NULL
pub record Correlate (R X : Type 0) : Type 0 where
  pub left_filter : Option (Option (FilterNode R X))
  pub right_filter : Option (Option (FilterNode R X))
  pub within_ms : ℕ

-- What execute_correlate leaves, emits and returns.
pub record Executed (J : Type 0) : Type 0 where
  pub state : CorrState J
  pub emitted : List (CorrResult J)
  pub passed : Bool

module _ {J : Type 0} where
  -- the state that get_corr_state makes
  abbrev pub new_corr_state : ℕ → CorrState J
  new_corr_state within = record {
    within_ms = within % 2 ^ 32;
    left_events = record { events = []; count = 0 };
    right_events = record { events = []; count = 0 };
  }

  unfoldable pub add_corr_event : Event J → Buffer (Event J) → Buffer (Event J)
  add_corr_event e b = record { events = e ∷ b.events; count = b.count + 1 }

  unfoldable pub create_corr_result_event : ℕ → Event J → Event J → CorrResult J
  create_corr_result_event within left right = record {
    window_ms = within;
    left_data = left.json;
    right_data = right.json;
    time_diff_ns = time_diff left.timestamp_ns right.timestamp_ns;
    timestamp_ns =
        if ltb right.timestamp_ns left.timestamp_ns then left.timestamp_ns else right.timestamp_ns;
  }

  -- the loop over a buffer
  pub near : ℕ → ℕ → (Event J → CorrResult J) → List (Event J) → List (CorrResult J)
  unfolding in_window
  near window now make [] = []
  near window now make (b ∷ bs) =
      let rest = near window now make bs in
      if in_window window now b.timestamp_ns then make b ∷ rest else rest

  -- the branch of an event that matches the left filter
  left_side : Bool → ℕ → Event J → CorrState J → CorrState J × List (CorrResult J)
  unfolding add_corr_event near create_corr_result_event
  left_side false within e st = (st, [])
  left_side true within e st = (
    record st { left_events = add_corr_event e st.left_events },
    near (to_ns within) e.timestamp_ns (λ b. create_corr_result_event within e b)
        st.right_events.events,
  )

  right_side : Bool → ℕ → Event J → CorrState J → CorrState J × List (CorrResult J)
  unfolding add_corr_event near create_corr_result_event
  right_side false within e st = (st, [])
  right_side true within e st = (
    record st { right_events = add_corr_event e st.right_events },
    near (to_ns within) e.timestamp_ns (λ b. create_corr_result_event within b e)
        st.left_events.events,
  )

  -- corr_cleanup_cb at the time `now`
  unfoldable pub corr_cleanup_cb : ℕ → CorrState J → CorrState J
  unfolding cleanup_old_events
  corr_cleanup_cb now st =
      let cutoff = (now + u64 - to_ns st.within_ms * 2 % u64) % u64 in
      record st {
        left_events = cleanup_old_events (λ e. e.timestamp_ns) cutoff st.left_events;
        right_events = cleanup_old_events (λ e. e.timestamp_ns) cutoff st.right_events;
      }

module _ {J R X : Type 0} (rt : Runtime J R X) where
  unfoldable pub is_left : Correlate R X → Event J → Bool
  unfolding nblex_filter_matches
  is_left q e = nblex_filter_matches rt q.left_filter e.json

  unfoldable pub is_right : Correlate R X → Event J → Bool
  unfolding nblex_filter_matches
  is_right q e = nblex_filter_matches rt q.right_filter e.json

  unfoldable pub execute_correlate : Correlate R X → CorrState J → Event J → Executed J
  unfolding is_left is_right left_side right_side
  execute_correlate q st e =
      let (st1, emitted1) = left_side (is_left q e) q.within_ms e st in
      let (st2, emitted2) = right_side (is_right q e) q.within_ms e st1 in
      record { state = st2; emitted = emitted1 ++ emitted2; passed = is_left q e || is_right q e }

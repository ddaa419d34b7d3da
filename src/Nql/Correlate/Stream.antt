-- ===== src/Nql/Correlate/Stream.antt =====
-- What a correlation query emits for a sequence of events.
use nblex.Base.{
  ℕ, ◌^◌, ◌<◌, ◌≡◌, refl, ap, ◌∙◌, arith, Bool, true, false, List, [], ◌∷◌, ◌++◌, map,
  if◌then◌else◌, keep, Bool-cases, inl, inr, ltb,
}
use nblex.Correlation.{in_window}
use nblex.Nql.{Event, to_ns}
use nblex.Nql.Correlate.{
  CorrState, CorrResult, Correlate, new_corr_state, add_corr_event, create_corr_result_event, near,
  left_side, right_side, is_left, is_right, execute_correlate,
}
use nblex.Runtime.{Runtime}

in_window_refl : (window t : ℕ) → window < 2 ^ 63 → in_window window t t ≡ true
unfolding in_window
in_window_refl window t h =
    let z : ltb window (2 ^ 63) ≡ true = ground arith in
    elim (Bool-cases (ltb t (2 ^ 63))) [
      | inl x ↦ rw (x, z) (ground arith)
      | inr x ↦ rw (x, z) (ground arith)
    ]

module _ {J : Type 0} where
  unfoldable pub within : ℕ → Event J → List (Event J) → List (Event J)
  unfolding in_window
  within window e bs = keep (λ b. in_window window e.timestamp_ns b.timestamp_ns) bs

  near-within :
      (window : ℕ) (e : Event J) (make : Event J → CorrResult J) (bs : List (Event J))
      → near window e.timestamp_ns make bs ≡ map make (within window e bs)
  unfolding near within
  near-within window e make [] = refl
  near-within window e make (b ∷ bs) =
      elim (Bool-cases (in_window window e.timestamp_ns b.timestamp_ns)) [
        | inl q ↦ rw q (ap (◌∷◌ (make b)) (near-within window e make bs))
        | inr q ↦ rw q (near-within window e make bs)
      ]

  -- the results of an event that matches the left (the right) filter, with earlier events
  unfoldable pub as_left : Bool → ℕ → Event J → List (Event J) → List (CorrResult J)
  unfolding within create_corr_result_event
  as_left true ms e rights = map (λ b. create_corr_result_event ms e b) (within (to_ns ms) e rights)
  as_left false ms e rights = []

  unfoldable pub as_right : Bool → ℕ → Event J → List (Event J) → List (CorrResult J)
  unfolding within create_corr_result_event
  as_right true ms e lefts = map (λ b. create_corr_result_event ms b e) (within (to_ns ms) e lefts)
  as_right false ms e lefts = []

  one_if : Bool → Event J → List (Event J) → List (Event J)
  one_if p e es = if p then e ∷ es else es

  left_side-step :
      (p : Bool) (ms : ℕ) (e : Event J) (st : CorrState J)
      → ((left_side p ms e st).0.left_events.events ≡ one_if p e st.left_events.events)
        × ((left_side p ms e st).0.right_events.events ≡ st.right_events.events)
        × ((left_side p ms e st).1 ≡ as_left p ms e st.right_events.events)
  unfolding left_side add_corr_event as_left one_if
  left_side-step true ms e st = (refl, refl, near-within (to_ns ms) e _ st.right_events.events)
  left_side-step false ms e st = (refl, refl, refl)

  right_side-step :
      (p : Bool) (ms : ℕ) (e : Event J) (st : CorrState J)
      → ((right_side p ms e st).0.left_events.events ≡ st.left_events.events)
        × ((right_side p ms e st).0.right_events.events ≡ one_if p e st.right_events.events)
        × ((right_side p ms e st).1 ≡ as_right p ms e st.left_events.events)
  unfolding right_side add_corr_event as_right one_if
  right_side-step true ms e st = (refl, refl, near-within (to_ns ms) e _ st.left_events.events)
  right_side-step false ms e st = (refl, refl, refl)

module _ {J R X : Type 0} (rt : Runtime J R X) (q : Correlate R X) where
  record Holds (st : CorrState J) (seen : List (Event J)) : Type 0 where
    lefts : st.left_events.events ≡ keep (is_left rt q) seen
    rights : st.right_events.events ≡ keep (is_right rt q) seen

  -- the results of `e` after the events `seen`
  unfoldable pub results_of : Event J → List (Event J) → List (CorrResult J)
  unfolding as_left as_right is_left is_right
  results_of e seen =
      as_left (is_left rt q e) q.within_ms e (keep (is_right rt q) seen)
      ++ as_right (is_right rt q e) q.within_ms e (keep (is_left rt q) (e ∷ seen))

  execute_step :
      (st : CorrState J) (e : Event J) (seen : List (Event J))
      → Holds st seen
      → Holds (execute_correlate rt q st e).state (e ∷ seen)
        × ((execute_correlate rt q st e).emitted ≡ results_of e seen)
  unfolding execute_correlate results_of one_if
  execute_step st e seen h =
      let l = left_side-step (is_left rt q e) q.within_ms e st in
      let st1 = (left_side (is_left rt q e) q.within_ms e st).0 in
      let r = right_side-step (is_right rt q e) q.within_ms e st1 in
      let lefts = l.0 ∙ ap (one_if (is_left rt q e) e) h.lefts in
      (
        record {
          lefts = r.0 ∙ lefts;
          rights = r.1 ∙ ap (one_if (is_right rt q e) e) (l.1 ∙ h.rights);
        },
        ap (λ x. x ++ (right_side (is_right rt q e) q.within_ms e st1).1)
              (l.2 ∙ ap (as_left (is_left rt q e) q.within_ms e) h.rights)
            ∙ ap (λ y. as_left (is_left rt q e) q.within_ms e (keep (is_right rt q) seen) ++ y)
                (r.2 ∙ ap (as_right (is_right rt q e) q.within_ms e) lefts),
      )

  -- execute_correlate for a list of events: the state, and all results in order
  unfoldable pub execute_all : CorrState J → List (Event J) → CorrState J × List (CorrResult J)
  unfolding execute_correlate
  execute_all st [] = (st, [])
  execute_all st (e ∷ es) =
      let x = execute_correlate rt q st e in
      let rest = execute_all x.state es in (rest.0, x.emitted ++ rest.1)

  -- the results of the events `es` after `seen`, the newest first
  unfoldable pub expected : List (Event J) → List (Event J) → List (CorrResult J)
  unfolding results_of
  expected seen [] = []
  expected seen (e ∷ es) = let rest = expected (e ∷ seen) es in results_of e seen ++ rest

  execute_all-expected :
      (st : CorrState J) (seen es : List (Event J))
      → Holds st seen
      → (execute_all st es).1 ≡ expected seen es
  unfolding execute_all expected
  execute_all-expected st seen [] h = refl
  execute_all-expected st seen (e ∷ es) h =
      let step = execute_step st e seen h in
      let x = execute_correlate rt q st e in
      ap (λ a. a ++ (execute_all x.state es).1) step.1
      ∙ ap (λ b. results_of e seen ++ b) (execute_all-expected x.state (e ∷ seen) es step.0)

  -- From an empty state a correlation query emits, event by event: for an event of the left filter
  -- one result with each earlier event of the right filter in the window, then, for an event of the
  -- right filter, one with each event of the left filter in the window, itself included.
  pub correlated_events :
      (es : List (Event J)) → (execute_all (new_corr_state q.within_ms) es).1 ≡ expected [] es
  correlated_events es =
      execute_all-expected (new_corr_state q.within_ms) [] es
        (record { lefts = refl; rights = refl })

  -- An event that matches both filters is always correlated with itself.
  pub correlates_itself :
      (st : CorrState J) (e : Event J)
      → is_left rt q e ≡ true
      → is_right rt q e ≡ true
      → to_ns q.within_ms < 2 ^ 63
      → (before after : List (CorrResult J)) × ((execute_correlate rt q st e).emitted
          ≡ before ++ create_corr_result_event q.within_ms e e ∷ after)
  unfolding execute_correlate left_side right_side near add_corr_event
  correlates_itself st e l r h =
      let ms = q.within_ms in
      let now = e.timestamp_ns in
      (
        near (to_ns ms) now (λ b. create_corr_result_event ms e b) st.right_events.events,
        near (to_ns ms) now (λ b. create_corr_result_event ms b e) st.left_events.events,
        rw (l, r, in_window_refl (to_ns ms) now h) refl,
      )

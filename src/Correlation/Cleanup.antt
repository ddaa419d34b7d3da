-- ===== src/Correlation/Cleanup.antt =====
-- The window test, and what a cleanup removes.
use nblex.Base.{
  ℕ, ◌+◌, ◌-◌, ◌*◌, ◌%◌, ◌^◌, ◌≤◌, ◌<◌, ◌≡◌, refl, ap, ◌∙◌, arith, true, false, ◌&&◌, List, [], ◌∷◌,
  leb, ltb, keep, Bool-cases, inl, inr,
}
use nblex.Correlation.{
  Event, CorrData, Correlation, u64, in_window, cleanup_timer_cb, cleanup_old_events, keep_new,
}
use nblex.Correlation.Emit.{matches}
use nblex.Runtime.{Runtime}

-- On times below 2^63, two events are in the window when neither is later than the other by more.
pub in_window_lem :
    (window a b : ℕ)
    → a < 2 ^ 63
    → b < 2 ^ 63
    → window < 2 ^ 63
    → in_window window a b ≡ (leb a (b + window) && leb b (a + window))
unfolding in_window
in_window_lem window a b h k u =
    let x : ltb a (2 ^ 63) ≡ true = ground arith in
    let y : ltb b (2 ^ 63) ≡ true = ground arith in
    let z : ltb window (2 ^ 63) ≡ true = ground arith in rw (x, y, z) (ground arith)

module _ {J R X : Type 0} (rt : Runtime J R X) (pack : CorrData J → J) where
  keep_new-keep :
      (cutoff : ℕ) (es : List (Event J R X))
      → keep_new (λ e. e.timestamp_ns) cutoff es ≡ keep (λ e. leb cutoff e.timestamp_ns) es
  unfolding keep_new
  keep_new-keep cutoff [] = refl
  keep_new-keep cutoff (e ∷ es) = elim (Bool-cases (ltb e.timestamp_ns cutoff)) [
    | inl q ↦
        let old : leb cutoff e.timestamp_ns ≡ false = ground arith in
        rw (q, old) (keep_new-keep cutoff es)
    | inr q ↦
        let new : leb cutoff e.timestamp_ns ≡ true = ground arith in
        rw (q, new) (ap (◌∷◌ e) (keep_new-keep cutoff es))
  ]

  -- what is cut off is in the window of no event from `cutoff + window` on
  matches-keep_new :
      (window cutoff : ℕ) (new : Event J R X) (es : List (Event J R X))
      → cutoff + window < new.timestamp_ns
      → new.timestamp_ns < 2 ^ 63
      → window < 2 ^ 63
      → matches rt pack window new (keep_new (λ e. e.timestamp_ns) cutoff es)
        ≡ matches rt pack window new es
  unfolding matches keep_new
  matches-keep_new window cutoff new [] h k u = refl
  matches-keep_new window cutoff new (e ∷ es) h k u =
      elim (Bool-cases (ltb e.timestamp_ns cutoff)) [
        | inl q ↦
            let rest = matches-keep_new window cutoff new es h k u in
            let far : in_window window new.timestamp_ns e.timestamp_ns ≡ false =
              in_window_lem window new.timestamp_ns e.timestamp_ns k (ground arith) u
              ∙ ground arith in
            rw (q, far) rest
        | inr q ↦
            let rest = matches-keep_new window cutoff new es h k u in
            elim (Bool-cases (in_window window new.timestamp_ns e.timestamp_ns)) [
              | inl t ↦ rw (q, t) (ap (◌∷◌ e) rest)
              | inr t ↦ rw (q, t) rest
            ]
      ]

  cutoff_lem :
      (now window : ℕ)
      → 2 * window ≤ now
      → now < u64
      → (now + u64 - window * 2 % u64) % u64 ≡ now - 2 * window
  cutoff_lem now window h u = omega arith

  -- A cleanup at a time of at least two windows keeps exactly the events of the last two windows,
  -- and costs no later event, which is at most a window late, a correlation.
  pub cleanup_timer_cb-matches :
      (now : ℕ) (c : Correlation (Event J R X)) (new : Event J R X)
      → 2 * c.window_ns ≤ now
      → now < 2 ^ 63
      → now < new.timestamp_ns + c.window_ns
      → new.timestamp_ns < 2 ^ 63
      → ((cleanup_timer_cb rt pack now c).log_events.events
          ≡ keep (λ e. leb (now - 2 * c.window_ns) e.timestamp_ns) c.log_events.events)
        × ((cleanup_timer_cb rt pack now c).network_events.events
            ≡ keep (λ e. leb (now - 2 * c.window_ns) e.timestamp_ns) c.network_events.events)
        × (matches rt pack c.window_ns new (cleanup_timer_cb rt pack now c).log_events.events
            ≡ matches rt pack c.window_ns new c.log_events.events)
        × (matches rt pack c.window_ns new (cleanup_timer_cb rt pack now c).network_events.events
            ≡ matches rt pack c.window_ns new c.network_events.events)
  unfolding cleanup_timer_cb cleanup_old_events
  cleanup_timer_cb-matches now c new h u l k =
      rw (cutoff_lem now c.window_ns h (omega (arith, u))) (
        keep_new-keep _ c.log_events.events,
        keep_new-keep _ c.network_events.events,
        matches-keep_new c.window_ns _ new c.log_events.events (omega (arith, h, l)) k
            (omega (arith, h, u)),
        matches-keep_new c.window_ns _ new c.network_events.events (omega (arith, h, l)) k
            (omega (arith, h, u)),
      )

-- ===== src/Lifecycle/Reachable.antt =====
-- src/core/nblex_world.c: the worlds that any calls lead to.
use nblex.Base.{
  ℕ, suc, ◌+◌, ◌*◌, ◌≤◌, ◌<◌, ◌≡◌, refl, ap, arith, Bool, true, false, not, List, [], ◌∷◌, ◌++◌,
  leb, length, length-append, map, Bool-cases, inl, inr, if◌then◌else◌,
}
use nblex.Lifecycle.{
  Vtable, World, Uv, Called, nblex_world_new, nblex_world_open, start_engine, start_inputs,
  nblex_world_start, nblex_world_stop, nblex_world_add_input,
}

module _ {I : Type 0} (v : Vtable I) where
  -- The worlds that calls lead to, in any order; nblex_world_run begins, the callbacks make
  -- further calls, and it ends.
  pub data Reaches : World I → Type 0 where
    created : Reaches nblex_world_new
    after_open : (w : World I) → Reaches w → Reaches (nblex_world_open w).0
    after_start : (uv : Uv) (w : World I) → Reaches w → Reaches (nblex_world_start v uv w).0
    after_stop : (w : World I) → Reaches w → Reaches (nblex_world_stop v w).0
    run_begins :
        (w : World I) → Reaches w → w.started ≡ true → Reaches (record w { running = true })
    run_ends : (w : World I) → Reaches w → Reaches (record w { running = false })
    after_add : (i : I) (w : World I) → Reaches w → Reaches (nblex_world_add_input i w).0

  pub record IsSound (w : World I) : Type 0 where
    pub fits : length w.inputs ≤ w.inputs_capacity
    pub has_room : 0 < w.inputs_capacity
    pub started_opened : w.started ≡ true → w.opened ≡ true
    pub running_started : w.running ≡ true → w.started ≡ true

  length-start_inputs : (is : List I) → length (start_inputs v is).0 ≡ length is
  unfolding start_inputs
  length-start_inputs [] = refl
  length-start_inputs (i ∷ is) = elim (Bool-cases (v.start i).1) [
    | inl e ↦ rw e (ap suc (length-start_inputs is))
    | inr e ↦ rw e refl
  ]

  IsSound-if :
      (b : Bool) (x y : Called I) → IsSound x.0 → IsSound y.0 → IsSound (if b then x else y).0
  IsSound-if true x y h k = h
  IsSound-if false x y h k = k

  open-IsSound : (w : World I) → IsSound w → IsSound (nblex_world_open w).0
  unfolding nblex_world_open
  open-IsSound w h = IsSound-if w.opened _ _ h (record {
    fits = h.fits;
    has_room = h.has_room;
    started_opened = λ s. refl;
    running_started = h.running_started;
  })

  IsSound-unless :
      (b : Bool) (x y : Called I)
      → (b ≡ true → IsSound x.0)
      → (b ≡ false → IsSound y.0)
      → IsSound (if b then x else y).0
  IsSound-unless true x y h k = h refl
  IsSound-unless false x y h k = k refl

  opened_of : (b : Bool) → not b ≡ false → b ≡ true
  opened_of true h = refl
  opened_of false h = absurd (cc)

  start-IsSound : (uv : Uv) (w : World I) → IsSound w → IsSound (nblex_world_start v uv w).0
  unfolding nblex_world_start
  start-IsSound uv w h =
      let same = length-start_inputs w.inputs in
      let fits : length (start_inputs v w.inputs).0 ≤ w.inputs_capacity =
        omega (arith, same, h.fits) in
      IsSound-unless (not w.opened) _ _ (λ e. h)
        λ closed. IsSound-if w.started _ _ h (
          IsSound-if (not (start_engine uv w.correlation).1) _ _
            (record {
              fits = h.fits;
              has_room = h.has_room;
              started_opened = h.started_opened;
              running_started = h.running_started;
            })
            (IsSound-if (not (start_inputs v w.inputs).1) _ _
              (record {
                fits = fits;
                has_room = h.has_room;
                started_opened = h.started_opened;
                running_started = h.running_started;
              })
              (record {
                fits = fits;
                has_room = h.has_room;
                started_opened = λ s. opened_of w.opened closed;
                running_started = λ s. refl;
              })))

  length-map : (f : I → I) (is : List I) → length (map f is) ≡ length is
  length-map f [] = refl
  length-map f (i ∷ is) = ap suc (length-map f is)

  stop-IsSound : (w : World I) → IsSound w → IsSound (nblex_world_stop v w).0
  unfolding nblex_world_stop
  stop-IsSound w h = record {
    fits = omega (arith, length-map v.stop w.inputs, h.fits);
    has_room = h.has_room;
    started_opened = λ s. absurd (cc);
    running_started = λ s. absurd (cc);
  }

  add-IsSound : (i : I) (w : World I) → IsSound w → IsSound (nblex_world_add_input i w).0
  unfolding nblex_world_add_input
  add-IsSound i w h =
      let more = length-append w.inputs (i ∷ []) in
      record {
        fits =
            room w.inputs_capacity (length w.inputs) (length (w.inputs ++ i ∷ [])) h.fits h.has_room
              more;
        has_room = positive w.inputs_capacity (length w.inputs) h.has_room;
        started_opened = h.started_opened;
        running_started = h.running_started;
      }
    where
      room : (c n m : ℕ) → n ≤ c → 0 < c → m ≡ n + 1 → m ≤ (if leb c n then c * 2 else c)
      room c n m h k e = ground arith

      positive : (c n : ℕ) → 0 < c → 0 < (if leb c n then c * 2 else c)
      positive c n k = ground arith

  -- Whatever calls are made, in whatever order: the inputs fit their array, a world that runs is
  -- started, and one that is started is open.
  pub Reaches-IsSound : (w : World I) → Reaches w → IsSound w
  unfolding nblex_world_new
  Reaches-IsSound _ created = record {
    fits = omega arith;
    has_room = omega arith;
    started_opened = λ s. absurd (cc);
    running_started = λ s. absurd (cc);
  }
  Reaches-IsSound _ (after_open w r) = open-IsSound w (Reaches-IsSound w r)
  Reaches-IsSound _ (after_start uv w r) = start-IsSound uv w (Reaches-IsSound w r)
  Reaches-IsSound _ (after_stop w r) = stop-IsSound w (Reaches-IsSound w r)
  Reaches-IsSound _ (run_begins w r s) =
      let h = Reaches-IsSound w r in
      record {
        fits = h.fits;
        has_room = h.has_room;
        started_opened = h.started_opened;
        running_started = λ _. s;
      }
  Reaches-IsSound _ (run_ends w r) =
      let h = Reaches-IsSound w r in
      record {
        fits = h.fits;
        has_room = h.has_room;
        started_opened = h.started_opened;
        running_started = λ s. absurd (cc);
      }
  Reaches-IsSound _ (after_add i w r) = add-IsSound i w (Reaches-IsSound w r)

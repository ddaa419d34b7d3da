-- ===== src/Lifecycle/Start.antt =====
-- src/core/nblex_world.c: what nblex_world_start does to the inputs and the engine.
use nblex.Base.{
  ◌+◌, ◌≡◌, refl, ap, ◌∙◌, Bool, true, false, Option, some, List, [], ◌∷◌, ◌++◌, map, All,
}
use nblex.Lifecycle.{
  Vtable, Engine, World, Uv, start_engine, start_inputs, nblex_world_start, nblex_world_stop,
  nblex_correlation_start,
}

module _ {I : Type 0} (v : Vtable I) where
  start_inputs-all :
      (is : List I)
      → All (λ i. (v.start i).1 ≡ true) is
      → start_inputs v is ≡ (map (λ i. (v.start i).0) is, true)
  unfolding start_inputs
  start_inputs-all [] h = refl
  start_inputs-all (i ∷ is) h = rw (h.0, start_inputs-all is h.1) refl

  start_inputs-fails :
      (pre post : List I) (x : I)
      → All (λ i. (v.start i).1 ≡ true) pre
      → (v.start x).1 ≡ false
      → start_inputs v (pre ++ x ∷ post)
        ≡ (map (λ i. (v.start i).0) pre ++ (v.start x).0 ∷ post, false)
  unfolding start_inputs
  start_inputs-fails [] post x h f = rw f refl
  start_inputs-fails (i ∷ pre) post x h f = rw (h.0, start_inputs-fails pre post x h.1 f) refl

  -- An input that does not start ends nblex_world_start: those in front of it are left started,
  -- and the world is not.
  pub start_fails_midway :
      (uv : Uv) (w : World I) (pre post : List I) (x : I)
      → w.opened ≡ true
      → w.started ≡ false
      → w.inputs ≡ pre ++ x ∷ post
      → (start_engine uv w.correlation).1 ≡ true
      → All (λ i. (v.start i).1 ≡ true) pre
      → (v.start x).1 ≡ false
      → nblex_world_start v uv w ≡ (
        record w {
          correlation = (start_engine uv w.correlation).0;
          inputs = map (λ i. (v.start i).0) pre ++ (v.start x).0 ∷ post;
        },
        false,
      )
  unfolding nblex_world_start
  start_fails_midway uv w pre post x o s e c h f =
      rw (o, s, c, e, start_inputs-fails pre post x h f) refl

  -- Where the engine and every input start, so does the world.
  start_succeeds :
      (uv : Uv) (w : World I)
      → w.opened ≡ true
      → w.started ≡ false
      → (start_engine uv w.correlation).1 ≡ true
      → All (λ i. (v.start i).1 ≡ true) w.inputs
      → nblex_world_start v uv w ≡ (
        record w {
          correlation = (start_engine uv w.correlation).0;
          inputs = map (λ i. (v.start i).0) w.inputs;
          started = true;
        },
        true,
      )
  unfolding nblex_world_start
  start_succeeds uv w o s e h = rw (o, s, start_inputs-all w.inputs h, e) refl

  engine_starts :
      (uv : Uv) (c : Engine)
      → uv.timer_init_ok ≡ true
      → uv.timer_start_ok ≡ true
      → start_engine uv (some c)
        ≡ (some (record c { timer_initialized = true; timer_inits = c.timer_inits + 1 }), true)
  unfolding start_engine nblex_correlation_start
  engine_starts uv c i s = rw (i, s) refl

  all_of : (P : I → Type 0) → ((i : I) → P i) → (is : List I) → All P is
  all_of P h [] = tt
  all_of P h (i ∷ is) = (h i, all_of P h is)

  abbrev started_world : World I → Engine → World I
  started_world w c = record w {
    correlation = some (record c { timer_initialized = true; timer_inits = c.timer_inits + 1 });
    inputs = map (λ i. (v.start i).0) w.inputs;
    started = true;
  }

  started_with :
      (uv : Uv) (w : World I) (c : Engine)
      → uv.timer_init_ok ≡ true
      → uv.timer_start_ok ≡ true
      → ((i : I) → (v.start i).1 ≡ true)
      → w.opened ≡ true
      → w.started ≡ false
      → w.correlation ≡ some c
      → (nblex_world_start v uv w).0 ≡ started_world w c
  started_with uv w c i s all o n e =
      let engine : start_engine uv w.correlation
          ≡ (some (record c { timer_initialized = true; timer_inits = c.timer_inits + 1 }), true) =
        ap (start_engine uv) e ∙ engine_starts uv c i s in
      let run = start_succeeds uv w o n (ap (λ r. r.1) engine) (all_of _ all w.inputs) in
      ap (λ r. r.0) run
      ∙ ap
          (λ (r : Option Engine × Bool). record w {
            correlation = r.0;
            inputs = map (λ i. (v.start i).0) w.inputs;
            started = true;
          })
          engine

  -- A world whose inputs all start, stopped and started again, calls uv_timer_init once more on
  -- the timer of its engine, which no call has closed.
  pub restart_initialises_again :
      (uv : Uv) (w : World I) (c : Engine)
      → uv.timer_init_ok ≡ true
      → uv.timer_start_ok ≡ true
      → ((i : I) → (v.start i).1 ≡ true)
      → w.opened ≡ true
      → w.started ≡ false
      → w.correlation ≡ some c
      → (nblex_world_start v uv (nblex_world_stop v (nblex_world_start v uv w).0).0).0.correlation
        ≡ some (record c { timer_initialized = true; timer_inits = c.timer_inits + 1 + 1 })
  unfolding nblex_world_stop
  restart_initialises_again uv w c i s all o n e =
      let first = started_with uv w c i s all o n e in
      let stopped = (nblex_world_stop v (started_world w c)).0 in
      let again =
        started_with uv stopped
          (record c { timer_initialized = true; timer_inits = c.timer_inits + 1 }) i s all o refl
          refl in
      ap (λ x. (nblex_world_start v uv (nblex_world_stop v x).0).0.correlation) first
      ∙ ap (λ (x : World I). x.correlation) again

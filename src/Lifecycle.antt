-- ===== src/Lifecycle.antt =====
-- src/core/nblex_world.c: the life of a world, with the engine's start of
-- src/correlation/time_correlation.c. An input is a type `I` with what its vtable does; what
-- libuv returns is given to a call.
pub mod Reachable
pub mod Start
mod Tests
use nblex.Base.{
  ℕ, ◌+◌, ◌*◌, ◌≤◌, ◌<◌, ◌≡◌, refl, sym, ap, ◌∙◌, arith, Bool, true, false, not, ◌&&◌, Option, none,
  some, List, [], ◌∷◌, ◌++◌, leb, length, length-append, map, All, Bool-cases, inl, inr,
  if◌then◌else◌,
}
use mathlib.Core.Path.{subst}

-- the vtable: the input that a call leaves, and whether start returned 0
pub record Vtable (I : Type 0) : Type 0 where
  pub start : I → I × Bool
  pub stop : I → I

-- What nblex_correlation_start writes; `timer_inits` counts its calls of uv_timer_init.
pub record Engine : Type 0 where
  pub window_ns : ℕ
  pub timer_initialized : Bool
  pub timer_inits : ℕ

pub record World (I : Type 0) : Type 0 where
  pub opened : Bool
  pub started : Bool
  pub running : Bool
  pub correlation : Option Engine
  pub inputs : List I
  pub inputs_capacity : ℕ

-- what libuv returns: 0, or not
pub record Uv : Type 0 where
  pub timer_init_ok : Bool
  pub timer_start_ok : Bool

-- a world, and whether the call returned 0
abbrev pub Called : Type 0 → Type 0
Called I = World I × Bool

abbrev pub initial_inputs_capacity : ℕ
initial_inputs_capacity = 8

unfoldable pub nblex_world_new : {I : Type 0} → World I
nblex_world_new = record {
  opened = false;
  started = false;
  running = false;
  correlation = none;
  inputs = [];
  inputs_capacity = initial_inputs_capacity;
}

-- nblex_correlation_new and nblex_correlation_add_strategy with 100 ms
abbrev new_engine : Engine
new_engine = record { window_ns = 100 * 1_000_000; timer_initialized = false; timer_inits = 0 }

unfoldable pub nblex_world_open : {I : Type 0} → World I → Called I
nblex_world_open w =
    if w.opened
    then (w, false)
    else (record w { opened = true; correlation = some new_engine }, true)

unfoldable pub nblex_correlation_start : Uv → Engine → Engine × Bool
nblex_correlation_start uv c =
    let tried = record c { timer_inits = c.timer_inits + 1 } in
    if not uv.timer_init_ok
    then (tried, false)
    else if not uv.timer_start_ok
    then (record tried { timer_initialized = false }, false)
    else (record tried { timer_initialized = true }, true)

unfoldable pub start_engine : Uv → Option Engine → Option Engine × Bool
unfolding nblex_correlation_start
start_engine uv none = (none, true)
start_engine uv (some c) = let (c', ok) = nblex_correlation_start uv c in (some c', ok)

module _ {I : Type 0} (v : Vtable I) where
  -- in order, up to the first that fails
  unfoldable pub start_inputs : List I → List I × Bool
  start_inputs [] = ([], true)
  start_inputs (i ∷ is) =
      let (i', ok) = v.start i in
      let (is', all_ok) = start_inputs is in if ok then (i' ∷ is', all_ok) else (i' ∷ is, false)

  unfoldable pub nblex_world_start : Uv → World I → Called I
  unfolding start_engine start_inputs
  nblex_world_start uv w =
      if not w.opened
      then (w, false)
      else if w.started
      then (w, false)
      else let (engine, engine_ok) = start_engine uv w.correlation in
        let (inputs, inputs_ok) = start_inputs w.inputs in
        if not engine_ok
        then (record w { correlation = engine }, false)
        else if not inputs_ok
        then (record w { correlation = engine; inputs = inputs }, false)
        else (record w { correlation = engine; inputs = inputs; started = true }, true)

  unfoldable pub nblex_world_stop : World I → Called I
  nblex_world_stop w =
      (record w { inputs = map v.stop w.inputs; started = false; running = false }, true)

-- `callbacks` is what the callbacks do while uv_run runs.
unfoldable pub nblex_world_run : {I : Type 0} → (World I → World I) → World I → Called I
nblex_world_run callbacks w =
    if not w.started
    then (w, false)
    else (record (callbacks (record w { running = true })) { running = false }, true)

unfoldable pub nblex_world_add_input : {I : Type 0} → I → World I → Called I
nblex_world_add_input i w =
    let capacity =
      if leb w.inputs_capacity (length w.inputs)
      then w.inputs_capacity * 2
      else w.inputs_capacity in
    (record w { inputs = w.inputs ++ i ∷ []; inputs_capacity = capacity }, true)

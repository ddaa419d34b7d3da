-- ===== src/Lifecycle/Tests.antt =====
-- A world with a few inputs, and the theorems at it.
use nblex.Base.{ℕ, ◌+◌, true, false, some, [], ◌∷◌, ltb}
use nblex.Lifecycle.{
  Vtable, Engine, World, Uv, nblex_world_new, nblex_world_open, nblex_world_start,
  nblex_world_add_input,
}
use nblex.Lifecycle.Reachable.{
  Reaches, created, after_open, after_start, after_add, IsSound, Reaches-IsSound,
}

-- inputs are numbers; a start adds 100, and fails from 3 on
abbrev some_start : Vtable ℕ
some_start = record { start = λ i. (i + 100, ltb i 3); stop = λ i. i }

abbrev all_start : Vtable ℕ
all_start = record { start = λ i. (i + 100, true); stop = λ i. i }

abbrev uv : Uv
uv = record { timer_init_ok = true; timer_start_ok = true }

abbrev engine : Engine
engine = record { window_ns = 100_000_000; timer_initialized = false; timer_inits = 0 }

abbrev three_inputs : World ℕ
three_inputs = record {
  opened = true;
  started = false;
  running = false;
  correlation = some engine;
  inputs = 1 ∷ 2 ∷ 7 ∷ [];
  inputs_capacity = 8;
}

abbrev opened_world : World ℕ
opened_world = (nblex_world_add_input 1 (nblex_world_open nblex_world_new).0).0

opened_Reaches : Reaches all_start opened_world
opened_Reaches = after_add 1 _ (after_open _ created)

Reaches-IsSound_example : IsSound all_start (nblex_world_start all_start uv opened_world).0
Reaches-IsSound_example =
    Reaches-IsSound all_start (nblex_world_start all_start uv opened_world).0
      (after_start uv opened_world opened_Reaches)

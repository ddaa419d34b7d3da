-- ===== src/FileInput/Watch.antt =====
-- src/input/file_input.c: the handles of libuv, from file_input_start to file_input_stop.
use nblex.Base.{ℕ, ◌≡◌, ◌≢◌, ◌⊎◌, refl, arith, true, false, List, [], ◌∷◌, Bool-cases, inl, inr}
use nblex.FileInput.{
  active, closed, FileInput, nblex_input_file_new, Opening, watch_directory, file_input_start,
  stop_watching, file_input_stop,
}

-- the calls of an input's vtable, one after another
pub data Call : Type 0 where
  start : Opening → ℕ → Call
  stop : Call

unfoldable pub run_calls : List Call → FileInput → FileInput
run_calls [] d = d
run_calls (start o size ∷ cs) d = run_calls cs (file_input_start o size d).0
run_calls (stop ∷ cs) d = run_calls cs (file_input_stop d)

-- A directory watch that is still active is the one that stop will end, and an input that is not
-- watching has none.
abbrev pub Watches : FileInput → Type 0
Watches d =
    (d.fs_event ≡ active → d.use_fs_event ≡ true)
    × ((d.watching ≡ true → d.poll_timer ≡ active) × (d.watching ≡ false → d.fs_event ≢ active))

start-Watches :
    (o : Opening) (size : ℕ) (d : FileInput) → Watches d → Watches (file_input_start o size d).0
unfolding file_input_start watch_directory
start-Watches o size d h = (ground arith, (ground arith, ground arith))

stop-Watches : (d : FileInput) → Watches d → Watches (file_input_stop d)
unfolding file_input_stop stop_watching
stop-Watches d h = (ground arith, (ground arith, ground arith))

run_calls-Watches : (cs : List Call) (d : FileInput) → Watches d → Watches (run_calls cs d)
unfolding run_calls
run_calls-Watches [] d h = h
run_calls-Watches (start o size ∷ cs) d h = run_calls-Watches cs _ (start-Watches o size d h)
run_calls-Watches (stop ∷ cs) d h = run_calls-Watches cs _ (stop-Watches d h)

new-Watches : Watches nblex_input_file_new
unfolding nblex_input_file_new
new-Watches = (ground arith, (ground arith, ground arith))

stop_ends :
    (d : FileInput)
    → Watches d
    → ((file_input_stop d).fs_event ≢ active) × ((file_input_stop d).file ≡ false)
unfolding file_input_stop stop_watching
stop_ends d h = (ground arith, ground arith)

-- However an input was started and stopped, a stop leaves no watch of the directory active and no
-- file open.
pub file_input_stop-ends :
    (cs : List Call)
    → let d = file_input_stop (run_calls cs nblex_input_file_new) in
      (d.fs_event ≢ active) × (d.file ≡ false)
file_input_stop-ends cs = stop_ends _ (run_calls-Watches cs nblex_input_file_new new-Watches)

-- A stop of an input that watches its directory leaves the timer active, with the file closed.
pub poll_timer_left :
    (o : Opening) (size : ℕ) (d : FileInput)
    → o.fopen_ok ≡ true
    → o.fs_event_init_ok ≡ true
    → o.fs_event_start_ok ≡ true
    → let stopped = file_input_stop (file_input_start o size d).0 in
      (stopped.poll_timer ≡ active) × (stopped.file ≡ false)
unfolding file_input_stop stop_watching file_input_start watch_directory
poll_timer_left o size d f i s = rw (f, i, s) (refl, refl)

-- Without a watch of the directory, a stop ends the timer of an input that it started.
pub poll_timer_stopped :
    (o : Opening) (size : ℕ) (d : FileInput)
    → o.fopen_ok ≡ true
    → (o.fs_event_init_ok ≡ false) ⊎ (o.fs_event_start_ok ≡ false)
    → d.use_fs_event ≡ false
    → (file_input_stop (file_input_start o size d).0).poll_timer ≡ closed
unfolding file_input_stop stop_watching file_input_start watch_directory
poll_timer_stopped o size d f (inl i) u = rw (f, i, u) refl
poll_timer_stopped o size d f (inr s) u = elim (Bool-cases o.fs_event_init_ok) [
  | inl i ↦ rw (f, i, s, u) refl
  | inr i ↦ rw (f, i, u) refl
]

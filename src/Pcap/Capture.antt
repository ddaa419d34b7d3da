-- ===== src/Pcap/Capture.antt =====
-- src/input/pcap_input.c: the handles of a capture, from pcap_input_start to pcap_input_free. What
-- libpcap and libuv return is given to a call.
use nblex.Base.{
  ℕ, ◌+◌, ◌%◌, ◌^◌, ◌≡◌, ◌≢◌, refl, arith, Bool, true, false, not, ◌&&◌, Option, none, List, [],
  ◌∷◌, if◌then◌else◌,
}
use nblex.Base.Int.{ℤ, pos, negsuc}
use nblex.Text.{Bytes}

-- the state of the uv_poll_t
pub data Poll : Type 0 where
  unused active stopped closed : Poll

-- nblex_pcap_input_data; `installed` is the filter that the kernel was given
pub record Capture : Type 0 where
  pub pcap_handle : Bool
  pub poll_handle : Poll
  pub capturing : Bool
  pub packets_captured : ℕ
  pub installed : Option Bytes

unfoldable pub nblex_input_pcap_new : Capture
nblex_input_pcap_new = record {
  pcap_handle = false;
  poll_handle = unused;
  capturing = false;
  packets_captured = 0;
  installed = none;
}

-- what libpcap and libuv return; `bpf` is what nblex_filter_to_bpf makes of the input's filter
pub record Opening : Type 0 where
  pub open_live_ok : Bool
  pub setnonblock_ok : Bool
  pub bpf : Option Bytes
  pub compile_ok : Bool
  pub setfilter_ok : Bool
  pub selectable_ok : Bool
  pub poll_init_ok : Bool
  pub poll_start_ok : Bool

-- a filter that libpcap refuses is left out
filter_installed : Opening → Option Bytes
filter_installed o = if o.compile_ok && o.setfilter_ok then o.bpf else none

-- the capture, and whether 0 is returned
unfoldable pub pcap_input_start : Opening → Capture → Capture × Bool
unfolding filter_installed
pcap_input_start o d =
    let failed = record d { pcap_handle = false } in
    let opened = record d { pcap_handle = true; installed = filter_installed o } in
    if not o.open_live_ok
    then (failed, false)
    else if not o.setnonblock_ok
    then (failed, false)
    else if not o.selectable_ok
    then (failed, false)
    else if not o.poll_init_ok
    then (failed, false)
    else if not o.poll_start_ok
    then (record failed { poll_handle = closed }, false)
    else (record opened { poll_handle = active; capturing = true }, true)

unfoldable pub pcap_input_stop : Capture → Capture
pcap_input_stop d =
    let ended = record d { poll_handle = closed; capturing = false } in
    record (if d.capturing then ended else d) { pcap_handle = false }

-- before the memory is freed
unfoldable pub pcap_input_free : Capture → Capture
unfolding pcap_input_stop
pcap_input_free d = record (if d.capturing then pcap_input_stop d else d) { pcap_handle = false }

-- a readable descriptor, where pcap_dispatch returns `count`
unfoldable pub on_pcap_readable : ℤ → Capture → Capture
on_pcap_readable (negsuc n) d = record d { poll_handle = stopped; capturing = false }
on_pcap_readable (pos n) d = record d { packets_captured = (d.packets_captured + n) % 2 ^ 64 }

pub data Call : Type 0 where
  start : Opening → Call
  stop : Call
  readable : ℤ → Call

unfoldable pub run_calls : List Call → Capture → Capture
unfolding pcap_input_start pcap_input_stop on_pcap_readable
run_calls [] d = d
run_calls (start o ∷ cs) d = run_calls cs (pcap_input_start o d).0
run_calls (stop ∷ cs) d = run_calls cs (pcap_input_stop d)
run_calls (readable count ∷ cs) d = run_calls cs (on_pcap_readable count d)

-- The loop polls only for an input that is capturing.
abbrev Polls : Capture → Type 0
Polls d = d.poll_handle ≡ active → d.capturing ≡ true

start-Polls : (o : Opening) (d : Capture) → Polls d → Polls (pcap_input_start o d).0
unfolding pcap_input_start
start-Polls o d h = ground arith

stop-Polls : (d : Capture) → Polls d → Polls (pcap_input_stop d)
unfolding pcap_input_stop
stop-Polls d h = ground arith

readable-Polls : (count : ℤ) (d : Capture) → Polls d → Polls (on_pcap_readable count d)
unfolding on_pcap_readable
readable-Polls (negsuc n) d h = ground arith
readable-Polls (pos n) d h = h

run_calls-Polls : (cs : List Call) (d : Capture) → Polls d → Polls (run_calls cs d)
unfolding run_calls
run_calls-Polls [] d h = h
run_calls-Polls (start o ∷ cs) d h = run_calls-Polls cs _ (start-Polls o d h)
run_calls-Polls (stop ∷ cs) d h = run_calls-Polls cs _ (stop-Polls d h)
run_calls-Polls (readable count ∷ cs) d h = run_calls-Polls cs _ (readable-Polls count d h)

new-Polls : Polls nblex_input_pcap_new
unfolding nblex_input_pcap_new
new-Polls = ground arith

free_ends :
    (d : Capture)
    → Polls d
    → ((pcap_input_free d).poll_handle ≢ active) × ((pcap_input_free d).pcap_handle ≡ false)
unfolding pcap_input_free pcap_input_stop
free_ends d h = (ground arith, ground arith)

stop_ends :
    (d : Capture)
    → Polls d
    → ((pcap_input_stop d).poll_handle ≢ active) × ((pcap_input_stop d).pcap_handle ≡ false)
unfolding pcap_input_stop
stop_ends d h = (ground arith, ground arith)

-- Whatever calls were made and whatever libpcap and libuv returned, a capture that is stopped or
-- freed is polled no longer and has its handle of libpcap closed.
pub run_calls-ends :
    (cs : List Call)
    → let d = run_calls cs nblex_input_pcap_new in
      (((pcap_input_stop d).poll_handle ≢ active) × ((pcap_input_stop d).pcap_handle ≡ false))
      × (((pcap_input_free d).poll_handle ≢ active) × ((pcap_input_free d).pcap_handle ≡ false))
run_calls-ends cs =
    let h = run_calls-Polls cs nblex_input_pcap_new new-Polls in (stop_ends _ h, free_ends _ h)

-- After an error of pcap_dispatch, neither a stop nor the release closes the handle of libuv.
pub dispatch_error_left :
    (n : ℕ) (d : Capture)
    → let failed = on_pcap_readable (negsuc n) d in
      ((pcap_input_stop failed).poll_handle ≡ stopped)
      × ((pcap_input_free failed).poll_handle ≡ stopped)
unfolding on_pcap_readable pcap_input_stop pcap_input_free
dispatch_error_left n d = (refl, refl)

-- ===== src/FileInput.antt =====
-- src/input/file_input.c: the tailing of a log file. The file is its bytes at the time of a call.
-- What libuv and the file system return is given to a call; the handles of libuv are their states.
pub mod Lines
pub mod Rounds
pub mod Tail
pub mod Watch
pub mod Handled
mod Tests
use nblex.Base.{
  ℕ, zero, suc, ◌+◌, ◌-◌, ltb, Bool, true, false, not, ◌||◌, Option, none, some, List, [], ◌∷◌,
  ◌++◌, ◌==◌, length, drop, if◌then◌else◌,
}
use nblex.Correlation.{Event, World, CorrData, log, nblex_event_emit}
use nblex.Filter.{FilterNode}
use nblex.Input.{LogFormat, format_json, format_logfmt, format_syslog, format_nginx, format_regex}
use nblex.Logfmt.{Value, Accepts, nblex_parse_logfmt_line}
use nblex.Nginx.{Nginx, nblex_parse_nginx_line}
use nblex.Runtime.{Runtime}
use nblex.Syslog.{Libraries, Syslog, nblex_parse_syslog_line}
use nblex.Text.{Bytes, c_string, str_eq}
use nblex.Text.Scanf.{◌>>=◌}

-- sizeof (buffer)
abbrev pub buffer_size : ℕ
buffer_size = 4096

-- fgets with room for `n` characters: up to a newline and with it
unfoldable pub fgets_take : ℕ → Bytes → Bytes
fgets_take zero s = []
fgets_take (suc n) [] = []
fgets_take (suc n) (c ∷ s) = let rest = fgets_take n s in if c == b'\n' then c ∷ [] else c ∷ rest

unfoldable pub fgets_drop : ℕ → Bytes → Bytes
fgets_drop zero s = s
fgets_drop (suc n) [] = []
fgets_drop (suc n) (c ∷ s) = let rest = fgets_drop n s in if c == b'\n' then s else rest

-- without the newline at the end
unfoldable pub chomp : Bytes → Bytes
chomp [] = []
chomp (c ∷ []) = if c == b'\n' then [] else c ∷ []
chomp (c ∷ d ∷ s) = c ∷ chomp (d ∷ s)

-- the buffer as a C string
unfoldable pub line_in : Bytes → Bytes
unfolding chomp c_string
line_in buffer = chomp (c_string buffer)

-- what an event's data is made from: the object of a parser, or the line itself
pub data Parsed (J R : Type 0) : Type 0 where
  json : J → Parsed J R
  pairs : List (Bytes × Value R) → Parsed J R
  syslog : Syslog → Parsed J R
  nginx : Nginx → Parsed J R
  message : Bytes → Parsed J R

-- nblex_parse_json_line calls jansson; the logfmt parser may take any number of rounds.
pub record Parsers (J R X : Type 0) : Type 0 where
  pub runtime : Runtime J R X
  pub accepts : Accepts R
  pub libraries : Libraries
  pub parse_json : Bytes → Option J
  pub rounds : ℕ

-- the object, or the simple message object
unfoldable pub or_message : {J R A : Type 0} → (A → Parsed J R) → Bytes → Option A → Parsed J R
or_message make buffer none = message buffer
or_message make buffer (some a) = make a

-- the logfmt parser may not have ended
pairs_or_message :
    {J R : Type 0} → Bytes → Option (Option (List (Bytes × Value R))) → Option (Parsed J R)
unfolding or_message
pairs_or_message buffer none = none
pairs_or_message buffer (some line) = some (or_message pairs buffer line)

module _ {J R X : Type 0} (ps : Parsers J R X) where
  -- `none` where the parser has not ended
  unfoldable pub data_of : LogFormat → Bytes → Option (Parsed J R)
  unfolding or_message pairs_or_message
  data_of format_json buffer = some (or_message json buffer (ps.parse_json buffer))
  data_of format_logfmt buffer =
      pairs_or_message buffer (nblex_parse_logfmt_line ps.runtime ps.accepts ps.rounds buffer)
  data_of format_syslog buffer =
      some (or_message syslog buffer (nblex_parse_syslog_line ps.libraries buffer))
  data_of format_nginx buffer =
      some (or_message nginx buffer (nblex_parse_nginx_line ps.libraries.is_utf8 buffer))
  data_of format_regex buffer = some (message buffer)

  module _ {W : Type 0} (emit : Parsed J R → W → W) (format : LogFormat) where
    -- one round, from the line on: an empty line makes no event
    unfoldable pub take_line : Bytes → W → Option W
    unfolding data_of
    take_line [] w = some w
    take_line (c ∷ buffer) w = do parsed ← data_of format (c ∷ buffer); some (emit parsed w)

    -- The loop over the lines, on fuel; `none` is a loop that has not ended.
    unfoldable pub read_loop : ℕ → Bytes → W → Option W
    unfolding take_line line_in fgets_take fgets_drop
    read_loop zero s w = none
    read_loop (suc f) [] w = some w
    read_loop (suc f) (c ∷ s) w = do
      w' ← take_line (line_in (fgets_take (buffer_size - 1) (c ∷ s))) w
      read_loop f (fgets_drop (buffer_size - 1) (c ∷ s)) w'

-- the state of a uv_handle_t
pub data Handle : Type 0 where
  unused active closed : Handle

-- nblex_file_input_data: the stream has a position and an end-of-file flag
pub record FileInput : Type 0 where
  pub file : Bool
  pub position : ℕ
  pub eof : Bool
  pub watching : Bool
  pub use_fs_event : Bool
  pub fs_event : Handle
  pub poll_timer : Handle

-- nblex_input_file_new
unfoldable pub nblex_input_file_new : FileInput
nblex_input_file_new = record {
  file = false;
  position = 0;
  eof = false;
  watching = false;
  use_fs_event = false;
  fs_event = unused;
  poll_timer = unused;
}

-- what fopen and libuv return
pub record Opening : Type 0 where
  pub fopen_ok : Bool
  pub fs_event_init_ok : Bool
  pub fs_event_start_ok : Bool

watch_directory : Opening → FileInput → FileInput
watch_directory o d =
    if not o.fs_event_init_ok
    then d
    else if o.fs_event_start_ok
    then record d { fs_event = active; use_fs_event = true }
    else record d { fs_event = closed }

-- the input, and whether 0 is returned; `size` is where SEEK_END is
unfoldable pub file_input_start : Opening → ℕ → FileInput → FileInput × Bool
unfolding watch_directory
file_input_start o size d = if not o.fopen_ok then (record d { file = false }, false) else (
  record (watch_directory o (record d { file = true; position = size; eof = false })) {
    poll_timer = active;
    watching = true;
  },
  true,
)

stop_watching : FileInput → FileInput
stop_watching d =
    if d.use_fs_event
    then record d { fs_event = closed; watching = false }
    else record d { poll_timer = closed; watching = false }

unfoldable pub file_input_stop : FileInput → FileInput
unfolding stop_watching
file_input_stop d = record (if d.watching then stop_watching d else d) { file = false }

-- whether there is something to read: `st_size > current_pos`, or stat failed, or no end was met
unfoldable pub may_read : Option ℕ → FileInput → Bool
may_read none d = true
may_read (some size) d = if ltb d.position size then true else not d.eof

-- fgets returned NULL at the end of the file
at_end : ℕ → FileInput → FileInput
at_end n d = record d { position = d.position + n; eof = true }

pub read_to_end : {W : Type 0} → ℕ → FileInput → Option W → Option (FileInput × W)
unfolding at_end
read_to_end n d none = none
read_to_end n d (some w) = some (at_end n d, w)

module _ {J R X W : Type 0} (ps : Parsers J R X) (emit : Parsed J R → W → W)
    (format : LogFormat) where
  -- `st` is the size that stat finds, `content` the file that is open
  unfoldable pub file_read_new_data : Option ℕ → Bytes → FileInput → W → Option (FileInput × W)
  unfolding may_read read_to_end read_loop
  file_read_new_data st content d w =
      let s = drop d.position content in
      if not d.file
      then some (d, w)
      else if may_read st d
      then read_to_end (length s) d (read_loop ps emit format (suc (length s)) s w)
      else some (d, w)

  -- another file of the directory, or neither a rename nor a change
  other_event : Option Bytes → Bytes → Bool → Bool
  unfolding str_eq
  other_event none filename changed = not changed
  other_event (some name) filename changed = not (str_eq name filename) || not changed

  -- `changed` is `status == 0 && (events & (UV_RENAME | UV_CHANGE))`
  unfoldable pub file_fs_event_cb :
      Option Bytes → Bytes → Bool → Option ℕ → Bytes → FileInput → W → Option (FileInput × W)
  unfolding other_event file_read_new_data
  file_fs_event_cb name filename changed st content d w =
      if other_event name filename changed then some (d, w) else file_read_new_data st content d w

  unfoldable pub file_poll_timer_cb : Option ℕ → Bytes → FileInput → W → Option (FileInput × W)
  unfolding file_read_new_data
  file_poll_timer_cb st content d w = file_read_new_data st content d w

-- What the emission of the events reads and changes: the world, and the number of events that
-- the clock has stamped.
pub record Emission (J R X : Type 0) : Type 0 where
  pub world : World (Event J R X)
  pub stamped : ℕ

module _ {J R X : Type 0} (rt : Runtime J R X) (pack : CorrData J → J) (to_json : Parsed J R → J)
    (filter : Option (Option (FilterNode R X))) (clock : ℕ → ℕ) where
  -- nblex_event_new, with the event's data
  abbrev pub log_event : ℕ → Parsed J R → Event J R X
  log_event n parsed = record {
    kind = log;
    timestamp_ns = clock n;
    filter = filter;
    data' = some (to_json parsed);
  }

  -- an event is made and given to nblex_event_emit
  unfoldable pub emit_log : Parsed J R → Emission J R X → Emission J R X
  unfolding nblex_event_emit
  emit_log parsed e = record {
    world = nblex_event_emit rt pack 2 e.world (log_event e.stamped parsed);
    stamped = e.stamped + 1;
  }

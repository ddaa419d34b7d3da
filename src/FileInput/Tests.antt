-- ===== src/FileInput/Tests.antt =====
-- Files of src/input/file_input.c, and the theorems at them.
use nblex.Base.{
  ℕ, ◌+◌, ◌≡◌, ◌≢◌, refl, arith, true, false, Option, none, some, List, [], ◌∷◌, ◌++◌, ◌==◌,
  if◌then◌else◌,
}
use nblex.Base.Int.{ℤ, pos}
use nblex.Correlation.{Event, Correlation, CorrData}
use nblex.FileInput.{
  Parsed, json, message, Parsers, FileInput, nblex_input_file_new, Opening, active, closed,
  file_input_start, file_input_stop, Emission, emit_log, file_read_new_data, read_loop, take_line,
  data_of, fgets_take, fgets_drop, line_in, chomp, may_read, at_end, read_to_end, or_message,
}
use nblex.FileInput.Handled.{end, skip, read, log_events, handled_of, passing, polls-handled}
use nblex.FileInput.Lines.{Text}
use nblex.FileInput.Tail.{Batch, polls, world_of, file_read_new_data-ends}
use nblex.FileInput.Watch.{Call, start, stop, run_calls, file_input_stop-ends, poll_timer_left}
use nblex.Input.{format_json, format_syslog}
use nblex.Testing.{Sample, number, text, empty, field, sample}
use nblex.Text.{Bytes, codes, c_string}

-- A text is no JSON, unless it begins with "1".
abbrev parse_one : Bytes → Option Sample
parse_one [] = none
parse_one (c ∷ s) = if c == b'1' then some (number (pos 1)) else none

abbrev parsers : Parsers Sample ℤ Bytes
parsers = record {
  runtime = sample;
  accepts = record { utf8 = λ s. true; finite = λ r. true };
  libraries = record { mktime = λ t. t.tm_mday; is_utf8 = λ s. true };
  parse_json = parse_one;
  rounds = 100;
}

-- the events in the order of their emission
abbrev after : Parsed Sample ℤ → List (Parsed Sample ℤ) → List (Parsed Sample ℤ)
after p ps = ps ++ p ∷ []

abbrev opened : FileInput
opened = record nblex_input_file_new { file = true; position = 2; watching = true }

-- "x\n" was there before the input was started
read_file :
    file_read_new_data parsers after format_json
      (some 8)
      (codes "x\n1\n\nab\n")
      (record {
        file = true;
        position = 2;
        eof = false;
        watching = true;
        use_fs_event = false;
        fs_event = closed;
        poll_timer = active;
      })
      []
    ≡ some (
      record {
        file = true;
        position = 8;
        eof = true;
        watching = true;
        use_fs_event = false;
        fs_event = closed;
        poll_timer = active;
      },
      json (number (pos 1)) ∷ message (codes "ab") ∷ [],
    )
unfolding file_read_new_data read_loop take_line data_of fgets_take fgets_drop line_in chomp
    c_string may_read at_end read_to_end or_message
read_file = refl

one : Text
one = record {
  text = codes "1";
  one_line = (refl, tt);
  is_text = (omega arith, tt);
  short = omega arith;
}

blank : Text
blank = record { text = []; one_line = tt; is_text = tt; short = omega arith }

word : Text
word = record {
  text = codes "ab";
  one_line = (refl, (refl, tt));
  is_text = (omega arith, (omega arith, tt));
  short = omega arith;
}

batches : List Batch
batches =
    record { lines = one ∷ blank ∷ []; some_lines = cc }
    ∷ record { lines = word ∷ []; some_lines = cc }
    ∷ []

file_read_new_data-ends_example :
    (r : FileInput × List (Parsed Sample ℤ)) × (file_read_new_data parsers after format_syslog none
        (codes "<1>a")
        opened
        []
      ≡ some r)
file_read_new_data-ends_example =
    file_read_new_data-ends parsers after format_syslog none (codes "<1>a") opened [] (λ e. cc)

all_well : Opening
all_well = record { fopen_ok = true; fs_event_init_ok = true; fs_event_start_ok = true }

poll_timer_left_example :
    let stopped = file_input_stop (file_input_start all_well 7 nblex_input_file_new).0 in
    (stopped.poll_timer ≡ active) × (stopped.file ≡ false)
unfolding all_well
poll_timer_left_example = poll_timer_left all_well 7 nblex_input_file_new refl refl refl

calls : List Call
calls = start all_well 7 ∷ stop ∷ start all_well 9 ∷ []

file_input_stop-ends_example :
    let d = file_input_stop (run_calls calls nblex_input_file_new) in
    (d.fs_event ≢ active) × (d.file ≡ false)
file_input_stop-ends_example = file_input_stop-ends calls

engine : Correlation (Event Sample ℤ Bytes)
engine = record {
  window_ns = 100_000_000;
  log_events = record { events = []; count = 0 };
  network_events = record { events = []; count = 0 };
  correlations_found = 0;
}

abbrev pack : CorrData Sample → Sample
pack d = number d.time_diff_ns

abbrev to_json : Parsed Sample ℤ → Sample
to_json (json j) = j
to_json (message s) = field (codes "message") (text s) empty
to_json _ = empty

started : Emission Sample ℤ Bytes
started = record {
  world = record {
    correlation = some engine;
    events_processed = 0;
    events_correlated = 0;
    has_handler = true;
    handled = [];
  };
  stamped = 0;
}

abbrev data' : List (Parsed Sample ℤ)
data' = json (number (pos 1)) ∷ message (codes "ab") ∷ []

abbrev clock : ℕ → ℕ
clock n = 1000 + n

polls-handled_example :
    handled_of (
      world_of parsers (emit_log sample pack to_json none clock) format_json (
        polls parsers
          (emit_log sample pack to_json none clock)
          format_json
          (codes "a\n")
          batches
          opened
          started))
    ≡ some
        ([] ++ passing sample pack (log_events parsers format_json to_json none clock pack 0 data'))
unfolding started engine nblex_input_file_new data_of or_message one blank word batches
polls-handled_example =
    polls-handled parsers format_json to_json none clock pack (codes "a\n") batches opened started
      engine data' refl refl
      (read one 49 [] (blank ∷ word ∷ []) (json (number (pos 1))) (message (codes "ab") ∷ []) refl
        refl
        (skip blank (word ∷ []) (message (codes "ab") ∷ []) refl
          (read word 97 (codes "b") [] (message (codes "ab")) [] refl refl end)))
      refl refl refl refl (omega arith)

-- ===== src/FileInput/Handled.antt =====
-- src/input/file_input.c with src/core/nblex_event.c: from the lines of a file to the handler.
use nblex.Base.{
  ℕ, suc, ◌+◌, ◌≤◌, ◌≡◌, refl, ap, ◌∙◌, arith, true, false, Option, none, some, List, [], ◌∷◌, ◌++◌,
  length, All, keep, Bool-cases, inl, inr,
}
use nblex.Correlation.{Event, Correlation, CorrData, max_buffer_size, log, passes}
use nblex.Correlation.Stream.{emit_all, correlations, is_network, expected, emitted_events}
use nblex.Correlation.Emit.{matches}
use nblex.FileInput.{Parsed, Parsers, data_of, take_line, FileInput, Emission, log_event, emit_log}
use nblex.FileInput.Lines.{Text}
use nblex.FileInput.Rounds.{take_lines}
use nblex.FileInput.Tail.{Batch, polls, all_lines, world_of, polls-print_lines}
use nblex.Filter.{FilterNode}
use nblex.Input.{LogFormat}
use nblex.Runtime.{Runtime}
use nblex.Text.{Bytes}

-- what the handler has seen
abbrev pub handled_of : {J R X : Type 0} → Option (Emission J R X) → Option (List (Event J R X))
handled_of none = none
handled_of (some e) = some e.world.handled

-- the events that pass the filter of their input
abbrev pub passing :
    {J R X : Type 0} → Runtime J R X → (CorrData J → J) → List (Event J R X) → List (Event J R X)
passing rt pack es = keep (λ e. passes rt pack e.filter e.data') es

module _ {J R X : Type 0} (ps : Parsers J R X) (format : LogFormat) where
  -- what the lines that are not empty are parsed to, one after another
  pub data Reads : List Text → List (Parsed J R) → Type 0 where
    end : Reads [] []
    skip :
        (l : Text) (ls : List Text) (ds : List (Parsed J R))
        → l.text ≡ []
        → Reads ls ds
        → Reads (l ∷ ls) ds
    read :
        (l : Text) (c : ℕ) (s : Bytes) (ls : List Text) (d : Parsed J R) (ds : List (Parsed J R))
        → l.text ≡ c ∷ s
        → data_of ps format (c ∷ s) ≡ some d
        → Reads ls ds
        → Reads (l ∷ ls) (d ∷ ds)

  -- the events of the data, in order
  module _ (to_json : Parsed J R → J) (filter : Option (Option (FilterNode R X))) (clock : ℕ → ℕ)
      (pack : CorrData J → J) where
    pub log_events : ℕ → List (Parsed J R) → List (Event J R X)
    log_events n [] = []
    log_events n (d ∷ ds) =
        log_event ps.runtime pack to_json filter clock n d ∷ log_events (n + 1) ds

    abbrev Emit : Parsed J R → Emission J R X → Emission J R X
    Emit = emit_log ps.runtime pack to_json filter clock

    take_lines-Reads :
        (ls : List Text) (ds : List (Parsed J R)) (e : Emission J R X)
        → Reads ls ds
        → handled_of (take_lines ps Emit format ls e)
          ≡ some (emit_all ps.runtime pack 2 e.world (log_events e.stamped ds)).handled
    unfolding take_lines log_events take_line emit_log
    take_lines-Reads _ _ e end = refl
    take_lines-Reads _ _ e (skip l ls ds q r) = rw q (take_lines-Reads ls ds e r)
    take_lines-Reads _ _ e (read l c s ls d ds q p r) =
        rw (q, p) (take_lines-Reads ls ds (Emit d e) r)

    AreLogs : List (Event J R X) → Type 0
    AreLogs es = All (λ e. e.kind ≡ log) es

    no_networks :
        (seen : List (Event J R X)) → AreLogs seen → keep (λ e. is_network e.kind) seen ≡ []
    unfolding AreLogs
    no_networks [] h = refl
    no_networks (e ∷ seen) h =
        let not_one : is_network e.kind ≡ false = ap is_network h.0 in
        rw not_one (no_networks seen h.1)

    -- Without a network event, an event makes no correlations.
    no_correlations :
        (window : ℕ) (e : Event J R X) (seen : List (Event J R X))
        → AreLogs seen
        → correlations ps.runtime pack log window e seen ≡ []
    unfolding correlations matches
    no_correlations window e seen h = rw (no_networks seen h) refl

    expected-log_events :
        (window n : ℕ) (seen : List (Event J R X)) (ds : List (Parsed J R))
        → AreLogs seen
        → expected ps.runtime pack window seen (log_events n ds)
          ≡ passing ps.runtime pack (log_events n ds)
    unfolding expected log_events AreLogs
    expected-log_events window n seen [] h = refl
    expected-log_events window n seen (d ∷ ds) h =
        let e = log_event ps.runtime pack to_json filter clock n d in
        elim (Bool-cases (passes ps.runtime pack filter (some (to_json d)))) [
          | inl p ↦
              rw (p, no_correlations window e seen h)
                (ap (◌∷◌ e) (expected-log_events window (n + 1) (e ∷ seen) ds (refl, h)))
          | inr p ↦ rw p (expected-log_events window (n + 1) seen ds h)
        ]

    length-log_events : (n : ℕ) (ds : List (Parsed J R)) → length (log_events n ds) ≡ length ds
    unfolding log_events
    length-log_events n [] = refl
    length-log_events n (d ∷ ds) = ap suc (length-log_events (n + 1) ds)

    -- However the lines of a file, each shorter than the buffer and without a NUL, are spread over
    -- the calls, the handler of a world whose engine holds nothing yet sees one event for each
    -- line that is not empty and passes the filter of the input, in order and with the data that
    -- the line is parsed to, when the parser ends on each, every call finds whole lines written
    -- and the lines are no more than a buffer of the engine holds.
    pub polls-handled :
        (old : Bytes) (bs : List Batch) (d : FileInput) (e : Emission J R X)
        (c : Correlation (Event J R X)) (ds : List (Parsed J R))
        → d.file ≡ true
        → d.position ≡ length old
        → Reads (all_lines bs) ds
        → e.world.correlation ≡ some c
        → e.world.has_handler ≡ true
        → c.log_events ≡ record { events = []; count = 0 }
        → c.network_events ≡ record { events = []; count = 0 }
        → length ds ≤ max_buffer_size
        → handled_of (world_of ps Emit format (polls ps Emit format old bs d e))
          ≡ some (e.world.handled ++ passing ps.runtime pack (log_events e.stamped ds))
    unfolding AreLogs
    polls-handled old bs d e c ds is_open at reads engine handler logs networks room =
        ap handled_of (polls-print_lines ps Emit format old bs d e is_open at)
        ∙ (take_lines-Reads (all_lines bs) ds e reads
            ∙ ap some (
                emitted_events ps.runtime pack 0 e.world c (log_events e.stamped ds) engine handler
                  logs networks (omega (arith, room, length-log_events e.stamped ds))
                ∙ ap (λ es. e.world.handled ++ es)
                    (expected-log_events c.window_ns e.stamped [] ds tt)))

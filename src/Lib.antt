-- ===== src/Lib.antt =====
-- nblex correlates application logs with network traffic. Inputs emit events; an event passes the
-- filter of its input, the time correlation and the handler; nQL queries filter, aggregate and
-- correlate events. This library models those parts of the C sources and proves what they do.
--
-- Base: Boolean tests, lists and signed integers over the native numbers.
-- Text: C strings (the list of the bytes before the NUL), <ctype.h>, strcmp, strncmp, strtol and
--   the scanning loops of the parsers. A `const char*` cursor is the rest of its string.
-- Runtime: what the program takes from jansson, libm, the C library's doubles and PCRE2, as
--   parameters of the model.
-- Filter: src/core/filter_engine.c. `Filter` has the expressions and their evaluation
--   (evaluate_filter_node, nblex_filter_matches), `Filter.Parse` the parser (parse_filter_expr,
--   parse_filter_full, nblex_filter_new), `Filter.Bpf` the pushdown (nblex_filter_to_bpf).
-- Nql: src/core/nql_executor.c. `Nql` has the query's parts and what an event contributes
--   (extract_group_keys, get_numeric_value), `Nql.Bucket` the buckets and the windows of an event
--   (get_or_create_buckets_for_event), `Nql.Update` update_bucket_with_event, `Nql.Flush` the
--   result event and the timer's window_flush_cb, `Nql.Aggregate` an event's way through
--   execute_aggregate. A bucket's address is a number; the list of buckets is the linked list.
--   `Nql.Correlate` is a correlation query (execute_correlate, corr_cleanup_cb).
--   The sliding loop runs at most MAX_SLIDING_WINDOWS rounds, as in the source.
-- Correlation: src/correlation/time_correlation.c and src/core/nblex_event.c. `Correlation` has the
--   buffers, correlation_check_event, nblex_correlation_process_event, nblex_event_emit, which call
--   one another, and the cleanup timer. A correlation event is emitted inside the emission of
--   another event and causes none itself, so the emission takes two levels of fuel. The handler is
--   the list of its calls; the JSON object that jansson builds is the parameter `pack`.
-- Logfmt: src/parsers/logfmt_parser.c. The object is an association list, in which a key that
--   is set again takes the new value (`Text.Object`); the main loop runs on fuel and `none` is a
--   loop that has not ended, since it may never end.
-- NqlParser: src/parsers/nql_parser.c. The cursor is what is left of the text, an error is a reply
--   that ends the parse. `NqlParser.Segment` finds the end of a filter expression,
--   `NqlParser.Clauses` reads an aggregation's functions, fields and window, `NqlParser.Query` the
--   queries and pipelines. The lists and the pipeline run on fuel, one more than the length of what
--   is left, since each round reads a character at least.
-- Executor: src/core/nql_executor.c, the global list exec_contexts, get_agg_state, get_corr_state,
--   the execute_ functions, nql_execute and the timers that call back. An execution returns the
--   list, the events that it emits and its result, or one of three faults: a division by zero, the
--   read of the union member that was not set, a parser out of fuel. The memory of the group keys,
--   which the buckets of a sliding window share and release once each, is not modelled.
--   `Executor.Effects` says what one query string does to its own state.
-- Dns: src/parsers/dns_parser.c. `Dns` extracts names, `Dns.Message` reads the sections. The loop
--   over a name takes fuel and may use up any amount of it, since pointers may run in circles; a
--   read behind the end of the packet is an outcome of its own.
-- Lifecycle: src/core/nblex_world.c, with nblex_correlation_start. What the vtable of an input
--   does and what libuv returns are parameters.
-- Input: src/input/input_base.c, the format of a path and the settings of an input.
-- Http: src/parsers/http_parser.c. The loop over the headers takes fuel, one more than the length
--   of what is left; json_string's test of UTF-8 is a parameter.
-- Nginx: src/parsers/nginx_parser.c, each field with the cursor behind it, and the same parameter.
-- Syslog: src/parsers/syslog_parser.c. `Text.Scanf` has the directives of sscanf that it uses;
--   mktime and json_string's test of UTF-8 are parameters.
-- FileInput: src/input/file_input.c. A file is its bytes when it is read, the stream a position and
--   an end-of-file flag; the loop over the lines takes fuel, one more than the length of what is
--   left. An event's object is the value that it is made from, until `to_json` makes it for
--   nblex_event_emit. `FileInput.Watch` has the handles of libuv.
-- Pcap: src/input/pcap_input.c. `Pcap` dissects a packet, with a read behind the captured bytes as
--   an outcome; `Pcap.Capture` has the handles of libpcap and libuv.
-- Testing: a concrete runtime, for the tests and the witnesses.
--
-- Fuel: the recursion of parse_filter_expr and the loop of parse_filter_full take fuel one above
-- the length of their input, since each round consumes a character, and so does json_get_path,
-- whose path loses a dot in each round.
--
-- Not modelled: failing allocations and NULL arguments other than those that a definition takes
-- as an Option; release of memory; the inside of the linked libraries;
-- the handlers that execute queries on the events that a result brings back; the
-- shutdown of a world's timers; the JSON and regex parsers, which call
-- jansson and PCRE2, the configuration, the outputs and the command line.
pub mod Base
pub mod Correlation
pub mod Dns
pub mod Executor
pub mod FileInput
pub mod Filter
pub mod Http
pub mod Input
pub mod Lifecycle
pub mod Logfmt
pub mod Nginx
pub mod Nql
pub mod NqlParser
pub mod Pcap
pub mod Runtime
pub mod Syslog
pub mod Testing
pub mod Text

-- ===== src/Syslog/Tests.antt =====
-- Lines of src/parsers/syslog_parser.c, and the theorems at them.
use nblex.Base.{◌≡◌, refl, arith, true, none, some}
use nblex.Base.Int.{pos}
use nblex.Syslog.{
  Libraries, Syslog, with_priority, priority_at, priority_end, with_message, month_index, scan_bsd,
  month_found, month_skipped, bsd_time, behind_colon, bsd_body, host_of, bsd_rest, parse_rfc3164,
  version_at, scan_iso, fraction, usec_at, with_time, iso_rest, version_rest, parse_rfc5424,
  starts_digit, behind_priority, is_rfc5424, nblex_parse_syslog_line,
}
use nblex.Syslog.Bsd.{Stamp, print_stamp, read_stamp, nblex_parse_syslog_line-print_stamp}
use nblex.Syslog.Print.{
  Priority, print_priority, Line, print_line, read_line, nblex_parse_syslog_line-print_line,
}
use nblex.Syslog.Priority.{Fits, nblex_parse_syslog_line-Fits}
use nblex.Syslog.Stamp.{parse_rfc5424-timestamp_usec}
use nblex.Text.{Bytes, codes, str_eq}
use nblex.Text.Number.{strtol, clamp_long, digits_value}
use nblex.Text.Scan.{span_take, span_drop}
use nblex.Text.Scanf.{
  scan_word, scan_int, scan_char, most_take, most_drop, scanned_word, scanned_digits, scan_unsigned,
  scan_signed,
}

-- a clock that counts the days of the month
abbrev days : Libraries
days = record { mktime = λ t. t.tm_mday; is_utf8 = λ s. true }

abbrev iso_line : Bytes
iso_line = codes "<34>1 2023-11-08T10:30:45.123Z h a"

abbrev iso_object : Syslog
iso_object = record (with_priority 34) {
  syslog_version = some 1;
  timestamp = some (pos 8);
  message = some (codes "h a");
}

read_iso : parse_rfc5424 days iso_line ≡ some iso_object
unfolding parse_rfc5424 priority_at priority_end strtol clamp_long digits_value version_at
    version_rest iso_rest scan_iso scan_int scan_char scan_signed scan_unsigned scanned_digits
    most_take most_drop with_time usec_at fraction with_message span_take span_drop
read_iso = refl

parse_rfc5424-timestamp_usec_example : iso_object.timestamp_usec ≡ none
parse_rfc5424-timestamp_usec_example =
    parse_rfc5424-timestamp_usec days iso_line iso_object read_iso

-- without a time, the host and the message are found
abbrev plain_line : Bytes
plain_line = codes "<13> web su[1]: a b"

abbrev plain_object : Syslog
plain_object = record (with_priority 13) {
  hostname = some (codes "web");
  message = some (codes "a b");
}

read_plain : nblex_parse_syslog_line days plain_line ≡ some plain_object
unfolding nblex_parse_syslog_line is_rfc5424 starts_digit behind_priority parse_rfc3164 bsd_rest
    bsd_time bsd_body host_of scan_bsd month_found month_index month_skipped behind_colon
    priority_at priority_end strtol clamp_long digits_value scan_word scanned_word scan_int
    scan_char scan_signed scan_unsigned scanned_digits most_take most_drop with_message span_take
    span_drop str_eq
read_plain = refl

nblex_parse_syslog_line-Fits_example : Fits plain_object
nblex_parse_syslog_line-Fits_example =
    nblex_parse_syslog_line-Fits days plain_line plain_object read_plain

-- A priority with no digits is 0.
no_priority : priority_at (codes "<>x") ≡ some (0, codes "x")
unfolding priority_at priority_end strtol span_take span_drop
no_priority = refl

pri : Priority
unfolding clamp_long digits_value
pri = record {
  digits = codes "34";
  value = 34;
  are_digits = (refl, (refl, tt));
  read = refl;
  small = omega arith;
}

line : Line
unfolding pri clamp_long digits_value
line = record {
  pri = pri;
  version = 49;
  time = record {
    year = codes "2023";
    mon = codes "11";
    day = codes "08";
    hour = codes "10";
    min = codes "30";
    sec = codes "45";
    zone = b'.';
    more_zone = codes "5Z";
    year_field = ((refl, (refl, (refl, (refl, tt)))), omega arith);
    mon_field = ((refl, (refl, tt)), omega arith);
    day_field = ((refl, (refl, tt)), omega arith);
    hour_field = ((refl, (refl, tt)), omega arith);
    min_field = ((refl, (refl, tt)), omega arith);
    sec_field = ((refl, (refl, tt)), omega arith);
    zone_behind = refl;
    zone_solid = (refl, (refl, (refl, tt)));
  };
  first = b'h';
  message = codes " app";
  version_digit = refl;
  solid = refl;
}

nblex_parse_syslog_line-print_line_example :
    nblex_parse_syslog_line days (print_line line) ≡ some (read_line days line)
unfolding line clamp_long digits_value
nblex_parse_syslog_line-print_line_example = nblex_parse_syslog_line-print_line days line refl refl

nov : Stamp
unfolding month_index str_eq
nov = record {
  m = b'N';
  o = b'o';
  n = b'v';
  index = 10;
  day = codes "9";
  hour = codes "10";
  min = codes "30";
  sec = codes "45";
  is_month = refl;
  letters = (refl, (refl, (refl, tt)));
  no_version = refl;
  day_field = ((refl, tt), omega arith);
  hour_field = ((refl, (refl, tt)), omega arith);
  min_field = ((refl, (refl, tt)), omega arith);
  sec_field = ((refl, (refl, tt)), omega arith);
}

nblex_parse_syslog_line-print_stamp_example :
    nblex_parse_syslog_line days (print_priority pri (print_stamp nov (codes "web su: hi")))
    ≡ some (read_stamp days pri nov (codes "web su: hi"))
nblex_parse_syslog_line-print_stamp_example =
    nblex_parse_syslog_line-print_stamp days pri nov (codes "web su: hi") refl refl

-- ===== src/Syslog/Bsd.antt =====
-- src/parsers/syslog_parser.c: lines of RFC 3164, as they are written and as they are read.
use nblex.Base.{ℕ, ◌≡◌, refl, arith, true, false, Option, some, [], ◌∷◌, ◌++◌, All}
use nblex.Base.Int.{ℤ}
use nblex.Syslog.{
  Libraries, Syslog, Scanned, with_priority, with_message, months, month_index, scan_bsd,
  month_time, month_found, month_skipped, bsd_time, in_host, not_colon, behind_colon, host_of,
  bsd_body, bsd_rest, parse_rfc3164, nblex_parse_syslog_line,
}
use nblex.Syslog.Print.{Priority, print_priority, priority_read, version_tells, message_read}
use nblex.Text.{Bytes, isspace, isdigit}
use nblex.Text.Number.{number_of}
use nblex.Text.Scan.{span_take, span_drop, span_take-append, span_drop-append}
use nblex.Text.Scanf.{
  IsField, scan_word, scan_int, scan_int-IsField, most_take, most_drop, scanned_word,
}
use nblex.Text.Word.{is_solid}

-- "Mon DD HH:MM:SS"
pub record Stamp : Type 0 where
  pub m : ℕ
  pub o : ℕ
  pub n : ℕ
  pub index : ℕ
  pub day : Bytes
  pub hour : Bytes
  pub min : Bytes
  pub sec : Bytes
  pub is_month : month_index 0 months (m ∷ o ∷ n ∷ []) ≡ some index
  pub letters : All (λ c. is_solid c ≡ true) (m ∷ o ∷ n ∷ [])
  pub no_version : isdigit m ≡ false
  pub day_field : IsField 2 day
  pub hour_field : IsField 2 hour
  pub min_field : IsField 2 min
  pub sec_field : IsField 2 sec

abbrev minutes_of : Stamp → Bytes → Bytes
minutes_of s t = s.min ++ b':' ∷ (s.sec ++ b' ' ∷ t)

abbrev day_of : Stamp → Bytes → Bytes
day_of s t = s.day ++ b' ' ∷ (s.hour ++ b':' ∷ minutes_of s t)

abbrev pub print_stamp : Stamp → Bytes → Bytes
print_stamp s t = s.m ∷ s.o ∷ s.n ∷ b' ' ∷ day_of s t

abbrev scanned : Stamp → Scanned
scanned s = record {
  month = s.m ∷ s.o ∷ s.n ∷ [];
  day = number_of s.day;
  hour = number_of s.hour;
  min = number_of s.min;
  sec = number_of s.sec;
}

month_read :
    (s : Stamp) (t : Bytes) → scan_word 3 (s.m ∷ s.o ∷ s.n ∷ t) ≡ some (s.m ∷ s.o ∷ s.n ∷ [], t)
unfolding scan_word scanned_word most_take most_drop span_drop
month_read s t =
    let solid : isspace s.m ≡ false = ground (arith, s.letters.0) in
    rw (solid, s.letters.0, s.letters.1.0, s.letters.1.1.0) refl

blank_first : (n : ℕ) (t : Bytes) → scan_int n (b' ' ∷ t) ≡ scan_int n t
unfolding scan_int span_drop
blank_first n t = refl

stamp_scanned : (s : Stamp) (t : Bytes) → scan_bsd (print_stamp s t) ≡ some (scanned s)
unfolding scan_bsd
stamp_scanned s t =
    rw
      (
        month_read s (b' ' ∷ day_of s t),
        blank_first 2 (day_of s t),
        scan_int-IsField 2 s.day b' ' (s.hour ++ b':' ∷ minutes_of s t) s.day_field refl,
        blank_first 2 (s.hour ++ b':' ∷ minutes_of s t),
        scan_int-IsField 2 s.hour b':' (minutes_of s t) s.hour_field refl,
        scan_int-IsField 2 s.min b':' (s.sec ++ b' ' ∷ t) s.min_field refl,
        scan_int-IsField 2 s.sec b' ' t s.sec_field refl,
      )
      refl

-- A digit is neither white space nor a colon.
digit_in_host : (c : ℕ) → isdigit c ≡ true → in_host c ≡ true
digit_in_host c h = ground arith

digits_in_host : (ds : Bytes) → All (λ c. isdigit c ≡ true) ds → All (λ c. in_host c ≡ true) ds
digits_in_host [] h = tt
digits_in_host (d ∷ ds) h = (digit_in_host d h.0, digits_in_host ds h.1)

field_in_host : (n : ℕ) (w : Bytes) → IsField n w → All (λ c. in_host c ≡ true) w
field_in_host n [] h = absurd h
field_in_host n (d ∷ ds) h = digits_in_host (d ∷ ds) h.0

digits_not_colon : (ds : Bytes) → All (λ c. isdigit c ≡ true) ds → All (λ c. not_colon c ≡ true) ds
digits_not_colon [] h = tt
digits_not_colon (d ∷ ds) h =
    let k : not_colon d ≡ true = ground (arith, h.0) in (k, digits_not_colon ds h.1)

field_not_colon : (n : ℕ) (w : Bytes) → IsField n w → All (λ c. not_colon c ≡ true) w
field_not_colon n [] h = absurd h
field_not_colon n (d ∷ ds) h = digits_not_colon (d ∷ ds) h.0

field_first : (n : ℕ) (w t : Bytes) → IsField n w → span_drop isspace (w ++ t) ≡ w ++ t
unfolding span_drop
field_first n [] t h = absurd h
field_first n (d ∷ ds) t h = let solid : isspace d ≡ false = ground (arith, h.0.0) in rw solid refl

host_of-field :
    (libs : Libraries) (n : ℕ) (w : Bytes)
    → IsField n w
    → libs.is_utf8 w ≡ true
    → host_of libs w ≡ some w
unfolding host_of
host_of-field libs n [] h u = absurd h
host_of-field libs n (d ∷ ds) h u = rw u refl

skip_month : (s : Stamp) (t : Bytes) → month_skipped (print_stamp s t) ≡ day_of s t
unfolding month_skipped span_drop
skip_month s t =
    rw (s.letters.0, s.letters.1.0, s.letters.1.1.0) (field_first 2 s.day _ s.day_field)

skip_hour : (s : Stamp) (t : Bytes) → span_drop not_colon (b' ' ∷ (s.hour ++ b':' ∷ t)) ≡ b':' ∷ t
unfolding span_drop
skip_hour s t =
    span_drop-append not_colon s.hour (b':' ∷ t) (field_not_colon 2 s.hour s.hour_field) refl

field_take : (n : ℕ) (w t : Bytes) → IsField n w → span_take in_host (w ++ b' ' ∷ t) ≡ w
unfolding span_take
field_take n w t h = span_take-append in_host w (b' ' ∷ t) (field_in_host n w h) refl

field_drop : (n : ℕ) (w t : Bytes) → IsField n w → span_drop in_host (w ++ b' ' ∷ t) ≡ b' ' ∷ t
unfolding span_drop
field_drop n w t h = span_drop-append in_host w (b' ' ∷ t) (field_in_host n w h) refl

read_message :
    (libs : Libraries) (root : Syslog) (n : ℕ) (w t : Bytes)
    → IsField n w
    → libs.is_utf8 (w ++ t) ≡ true
    → with_message libs root (w ++ t) ≡ some (record root { message = some (w ++ t) })
read_message libs root n [] t h u = absurd h
read_message libs root n (d ∷ ds) t h u = message_read libs root d (ds ++ t) u

behind_one : (t : Bytes) → behind_colon (b':' ∷ t) ≡ span_drop isspace t
unfolding behind_colon
behind_one t = refl

-- what is made of the line
abbrev pub read_stamp : Libraries → Priority → Stamp → Bytes → Syslog
read_stamp libs p s rest = record (with_priority p.value) {
  timestamp = some (month_time libs.mktime (scanned s) s.index);
  hostname = some s.day;
  message = some (minutes_of s rest);
}

body_read :
    (libs : Libraries) (root : Syslog) (time : Option ℤ) (s : Stamp) (rest : Bytes)
    → libs.is_utf8 s.day ≡ true
    → libs.is_utf8 (minutes_of s rest) ≡ true
    → bsd_body libs root time (day_of s rest)
      ≡ some (record root {
        timestamp = time;
        hostname = some s.day;
        message = some (minutes_of s rest);
      })
unfolding bsd_body
body_read libs root time s rest day_utf8 utf8 =
    rw
      (
        field_take 2 s.day (s.hour ++ b':' ∷ minutes_of s rest) s.day_field,
        field_drop 2 s.day (s.hour ++ b':' ∷ minutes_of s rest) s.day_field,
        host_of-field libs 2 s.day s.day_field day_utf8,
        skip_hour s (minutes_of s rest),
        behind_one (minutes_of s rest),
        field_first 2 s.min (b':' ∷ (s.sec ++ b' ' ∷ rest)) s.min_field,
      )
      (read_message libs _ 2 s.min (b':' ∷ (s.sec ++ b' ' ∷ rest)) s.min_field utf8)

time_read :
    (mktime : _) (s : Stamp) (t : Bytes)
    → bsd_time mktime (some (scanned s)) (print_stamp s t)
      ≡ (some (month_time mktime (scanned s) s.index), day_of s t)
unfolding bsd_time month_found
time_read mktime s t = rw (s.is_month, skip_month s t) refl

month_first : (s : Stamp) (t : Bytes) → span_drop isspace (print_stamp s t) ≡ print_stamp s t
unfolding span_drop
month_first s t = let solid : isspace s.m ≡ false = ground (arith, s.letters.0) in rw solid refl

-- A line of RFC 3164 with its timestamp, whose month is a name of three letters and whose day and
-- text from the minutes on are UTF-8, is read with the timestamp of the year 2000, but only the
-- month is passed over: the host name is the day of the month, and the message begins at the
-- minutes of the time, with the host, the tag and the text behind them.
pub nblex_parse_syslog_line-print_stamp :
    (libs : Libraries) (p : Priority) (s : Stamp) (rest : Bytes)
    → libs.is_utf8 s.day ≡ true
    → libs.is_utf8 (minutes_of s rest) ≡ true
    → nblex_parse_syslog_line libs (print_priority p (print_stamp s rest))
      ≡ some (read_stamp libs p s rest)
unfolding nblex_parse_syslog_line parse_rfc3164 bsd_rest
nblex_parse_syslog_line-print_stamp libs p s rest day_utf8 utf8 =
    rw
      (
        version_tells p s.m (s.o ∷ s.n ∷ b' ' ∷ day_of s rest),
        s.no_version,
        priority_read p (print_stamp s rest),
        month_first s rest,
        stamp_scanned s rest,
        time_read libs.mktime s rest,
      )
      (body_read libs _ _ s rest day_utf8 utf8)

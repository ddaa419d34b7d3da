-- ===== src/Syslog/Print.antt =====
-- src/parsers/syslog_parser.c: lines of RFC 5424, as they are written and as they are read.
use nblex.Base.{
  ℕ, ◌-◌, ◌≤◌, ◌≡◌, refl, arith, true, false, not, leb, ◌==◌, none, some, [], ◌∷◌, ◌++◌, All,
}
use nblex.Base.Int.{ℤ, pos, negsuc, eqb_ℤ}
use nblex.Syslog.{
  Libraries, Syslog, Tm, with_priority, priority_end, priority_at, with_message, version_at,
  from_1900, from_january, scan_iso, usec_at, with_time, iso_rest, version_rest, parse_rfc5424,
  starts_digit, behind_priority, is_rfc5424, nblex_parse_syslog_line,
}
use nblex.Syslog.Stamp.{scan_iso-usec}
use nblex.Text.{Bytes, isspace, isdigit}
use nblex.Text.Number.{strtol, IsNumber, number_of, strtol-digits}
use nblex.Text.Scan.{span_take, span_drop, span_drop-append}
use nblex.Text.Scanf.{IsField, scan_int-IsField}

-- a priority as it is written
pub record Priority : Type 0 where
  pub digits : Bytes
  pub value : ℕ
  pub are_digits : IsNumber digits
  pub read : number_of digits ≡ pos value
  pub small : value ≤ 191

bracket_take : (t : Bytes) → span_take isdigit (b'>' ∷ t) ≡ []
unfolding span_take
bracket_take t = refl

bracket_drop : (t : Bytes) → span_drop isdigit (b'>' ∷ t) ≡ b'>' ∷ t
unfolding span_drop
bracket_drop t = refl

number_end : (ds t : Bytes) → IsNumber ds → strtol (ds ++ b'>' ∷ t) ≡ (number_of ds, b'>' ∷ t)
number_end [] t h = absurd h
number_end (d ∷ ds) t h = strtol-digits d ds (b'>' ∷ t) h (bracket_take t) (bracket_drop t)

-- "<pri>"
abbrev pub print_priority : Priority → Bytes → Bytes
print_priority p t = b'<' ∷ (p.digits ++ b'>' ∷ t)

pub priority_read :
    (p : Priority) (t : Bytes) → priority_at (print_priority p t) ≡ some (p.value, t)
unfolding priority_at priority_end
priority_read p t =
    let small : leb p.value 191 ≡ true = ground (arith, p.small) in
    rw (number_end p.digits t p.are_digits, p.read, small) refl

digits_in_priority :
    (ds : Bytes) → All (λ c. isdigit c ≡ true) ds → All (λ c. not (c == b'>') ≡ true) ds
digits_in_priority [] h = tt
digits_in_priority (d ∷ ds) h =
    let k : not (d == b'>') ≡ true = ground (arith, h.0) in (k, digits_in_priority ds h.1)

number_in_priority : (ds : Bytes) → IsNumber ds → All (λ c. not (c == b'>') ≡ true) ds
number_in_priority [] h = absurd h
number_in_priority (d ∷ ds) h = digits_in_priority (d ∷ ds) h

-- The character behind the priority tells the two formats apart.
pub version_tells :
    (p : Priority) (c : ℕ) (t : Bytes) → is_rfc5424 (print_priority p (c ∷ t)) ≡ isdigit c
unfolding is_rfc5424 starts_digit behind_priority span_drop
version_tells p c t =
    rw
      (span_drop-append (λ d. not (d == b'>')) p.digits (b'>' ∷ c ∷ t)
        (number_in_priority p.digits p.are_digits) refl)
      refl

-- a timestamp as it is written; `fraction` begins behind the seconds and ends at the blank
pub record Iso : Type 0 where
  pub year : Bytes
  pub mon : Bytes
  pub day : Bytes
  pub hour : Bytes
  pub min : Bytes
  pub sec : Bytes
  pub zone : ℕ
  pub more_zone : Bytes
  pub year_field : IsField 4 year
  pub mon_field : IsField 2 mon
  pub day_field : IsField 2 day
  pub hour_field : IsField 2 hour
  pub min_field : IsField 2 min
  pub sec_field : IsField 2 sec
  pub zone_behind : isdigit zone ≡ false
  pub zone_solid : All (λ c. not (c == b' ') ≡ true) (zone ∷ more_zone)

abbrev date_of : Iso → Bytes → Bytes
date_of i t = i.year ++ b'-' ∷ (i.mon ++ b'-' ∷ (i.day ++ b'T' ∷ t))

abbrev clock_of : Iso → Bytes → Bytes
clock_of i t = i.hour ++ b':' ∷ (i.min ++ b':' ∷ (i.sec ++ i.zone ∷ (i.more_zone ++ t)))

-- "YYYY-MM-DDTHH:MM:SS", a fraction and a zone
abbrev pub print_iso : Iso → Bytes → Bytes
print_iso i t = date_of i (clock_of i t)

abbrev pub tm_of : Iso → Tm
tm_of i = record {
  tm_year = from_1900 (number_of i.year);
  tm_mon = from_january (number_of i.mon);
  tm_mday = number_of i.day;
  tm_hour = number_of i.hour;
  tm_min = number_of i.min;
  tm_sec = number_of i.sec;
}

iso_read : (i : Iso) (t : Bytes) → scan_iso (print_iso i t) ≡ some (tm_of i)
unfolding scan_iso
iso_read i t =
    rw
      (
        scan_int-IsField 4 i.year b'-' _ i.year_field refl,
        scan_int-IsField 2 i.mon b'-' (i.day ++ b'T' ∷ clock_of i t) i.mon_field refl,
        scan_int-IsField 2 i.day b'T' (clock_of i t) i.day_field refl,
        scan_int-IsField 2 i.hour b':' _ i.hour_field refl,
        scan_int-IsField 2 i.min b':' (i.sec ++ i.zone ∷ (i.more_zone ++ t)) i.min_field refl,
        scan_int-IsField 2 i.sec i.zone (i.more_zone ++ t) i.sec_field i.zone_behind,
      )
      refl

abbrev IsToken : Bytes → Type 0
IsToken w = All (λ c. not (c == b' ') ≡ true) w

digits-IsToken : (ds : Bytes) → All (λ c. isdigit c ≡ true) ds → IsToken ds
digits-IsToken [] h = tt
digits-IsToken (d ∷ ds) h =
    let k : not (d == b' ') ≡ true = ground (arith, h.0) in (k, digits-IsToken ds h.1)

-- A token is passed over up to the blank; a field and the character behind it belong to it.
abbrev Skips : Bytes → Bytes → Type 0
Skips t s = span_drop (λ c. not (c == b' ')) s ≡ t

field_skipped :
    (n : ℕ) (w : Bytes) (c : ℕ) (s t : Bytes)
    → IsField n w
    → not (c == b' ') ≡ true
    → Skips t s
    → Skips t (w ++ c ∷ s)
unfolding span_drop
field_skipped n [] c s t h e k = absurd h
field_skipped n (d ∷ ds) c s t h e k = go (d ∷ ds) (digits-IsToken (d ∷ ds) h.0)
  where
    go : (w : Bytes) → IsToken w → span_drop (λ c. not (c == b' ')) (w ++ c ∷ s) ≡ t
    go [] u = rw e k
    go (x ∷ w) u = rw u.0 (go w u.1)

zone_skipped : (i : Iso) (t : Bytes) → Skips (b' ' ∷ t) (i.more_zone ++ b' ' ∷ t)
unfolding span_drop
zone_skipped i t =
    span_drop-append (λ c. not (c == b' ')) i.more_zone (b' ' ∷ t) i.zone_solid.1 refl

iso_skipped : (i : Iso) (t : Bytes) → Skips (b' ' ∷ t) (print_iso i (b' ' ∷ t))
iso_skipped i t =
    let blank = b' ' ∷ t in
    field_skipped 4 i.year b'-' _ blank i.year_field refl (
      field_skipped 2 i.mon b'-' _ blank i.mon_field refl (
        field_skipped 2 i.day b'T' _ blank i.day_field refl (
          field_skipped 2 i.hour b':' _ blank i.hour_field refl (
            field_skipped 2 i.min b':' _ blank i.min_field refl (
              field_skipped 2 i.sec i.zone _ blank i.sec_field i.zone_solid.0
                (zone_skipped i t))))))

-- the priority, the version, the timestamp and what follows it
pub record Line : Type 0 where
  pub pri : Priority
  pub version : ℕ
  pub time : Iso
  pub first : ℕ
  pub message : Bytes
  pub version_digit : isdigit version ≡ true
  pub solid : isspace first ≡ false

abbrev pub print_line : Line → Bytes
print_line l =
    print_priority l.pri (l.version ∷ b' ' ∷ print_iso l.time (b' ' ∷ l.first ∷ l.message))

abbrev pub read_line : Libraries → Line → Syslog
read_line libs l = record (with_priority l.pri.value) {
  syslog_version = some (l.version - 48);
  timestamp = some (libs.mktime (tm_of l.time));
  message = some (l.first ∷ l.message);
}

skip_blank : (c : ℕ) (t : Bytes) → isspace c ≡ false → span_drop isspace (b' ' ∷ c ∷ t) ≡ c ∷ t
unfolding span_drop
skip_blank c t h = rw h refl

version_read : (c : ℕ) (t : Bytes) → isdigit c ≡ true → version_at (c ∷ b' ' ∷ t) ≡ some (c - 48, t)
unfolding version_at
version_read c t h = rw h refl

pub message_read :
    (libs : Libraries) (root : Syslog) (c : ℕ) (t : Bytes)
    → libs.is_utf8 (c ∷ t) ≡ true
    → with_message libs root (c ∷ t) ≡ some (record root { message = some (c ∷ t) })
unfolding with_message
message_read libs root c t h = rw h refl

time_read :
    (root : Syslog) (time : ℤ) (usec : ℕ)
    → eqb_ℤ time (negsuc 0) ≡ false
    → usec ≡ 0
    → with_time root time usec ≡ record root { timestamp = some time; timestamp_usec = none }
unfolding with_time
time_read root time usec h z = rw (h, z) refl

rest_read :
    (libs : Libraries) (l : Line)
    → eqb_ℤ (libs.mktime (tm_of l.time)) (negsuc 0) ≡ false
    → libs.is_utf8 (l.first ∷ l.message) ≡ true
    → version_rest libs
        (with_priority l.pri.value)
        (l.version - 48, print_iso l.time (b' ' ∷ l.first ∷ l.message))
      ≡ some (read_line libs l)
unfolding version_rest iso_rest
rest_read libs l time utf8 =
    let behind = b' ' ∷ l.first ∷ l.message in
    rw
      (
        iso_read l.time behind,
        iso_skipped l.time (l.first ∷ l.message),
        skip_blank l.first l.message l.solid,
        time_read (record (with_priority l.pri.value) { syslog_version = some (l.version - 48) })
            (libs.mktime (tm_of l.time)) (usec_at (print_iso l.time behind)) time
            (scan_iso-usec (print_iso l.time behind) (tm_of l.time) (iso_read l.time behind)),
      )
      (message_read libs _ l.first l.message utf8)

-- A line of RFC 5424, with a timestamp that no digit or blank follows at once and a rest that
-- begins with no white space, is read back where mktime has a time for its timestamp and the rest
-- of the line is UTF-8: its priority with its parts, its version and the time of its timestamp;
-- all that follows the timestamp is the message, and a fraction of a second is lost.
pub nblex_parse_syslog_line-print_line :
    (libs : Libraries) (l : Line)
    → eqb_ℤ (libs.mktime (tm_of l.time)) (negsuc 0) ≡ false
    → libs.is_utf8 (l.first ∷ l.message) ≡ true
    → nblex_parse_syslog_line libs (print_line l) ≡ some (read_line libs l)
unfolding nblex_parse_syslog_line parse_rfc5424
nblex_parse_syslog_line-print_line libs l time utf8 =
    let behind = b' ' ∷ print_iso l.time (b' ' ∷ l.first ∷ l.message) in
    rw
      (
        version_tells l.pri l.version behind,
        l.version_digit,
        priority_read l.pri (l.version ∷ behind),
        version_read l.version (print_iso l.time (b' ' ∷ l.first ∷ l.message)) l.version_digit,
      )
      (rest_read libs l time utf8)

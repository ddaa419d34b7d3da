-- ===== src/Syslog.antt =====
-- src/parsers/syslog_parser.c: a line of RFC 5424 or RFC 3164. The object is the record of its
-- members. What the line leaves open is a parameter: the time that mktime makes of a broken-down
-- time, which depends on the time zone, and whether json_string takes a text as UTF-8.
pub mod Priority
pub mod Stamp
pub mod Print
pub mod Bsd
mod Tests
use nblex.Base.{
  ℕ, ◌+◌, ◌*◌, ◌/◌, ◌%◌, ◌-◌, zero, suc, ltb, leb, Bool, true, false, not, ◌&&◌, ◌||◌, Option, none,
  some, List, [], ◌∷◌, ◌==◌, map, if◌then◌else◌,
}
use nblex.Base.Int.{ℤ, pos, negsuc, pos_part, neg_part, sub_ℕ, eqb_ℤ}
use nblex.Text.{Bytes, codes, isspace, isdigit, str_eq}
use nblex.Text.Number.{strtol, to_int}
use nblex.Text.Scan.{span_take, span_drop}
use nblex.Text.Scanf.{◌>>=◌, scan_word, scan_int, scan_char, most_take, most_drop}
use nblex.Text.Word.{is_solid, unless_empty}

-- struct tm
pub record Tm : Type 0 where
  pub tm_year : ℤ
  pub tm_mon : ℤ
  pub tm_mday : ℤ
  pub tm_hour : ℤ
  pub tm_min : ℤ
  pub tm_sec : ℤ

pub record Libraries : Type 0 where
  pub mktime : Tm → ℤ
  pub is_utf8 : Bytes → Bool

pub record Syslog : Type 0 where
  pub syslog_priority : ℕ
  pub syslog_facility : ℕ
  pub syslog_severity : ℕ
  pub syslog_version : Option ℕ
  pub timestamp : Option ℤ
  pub timestamp_usec : Option ℕ
  pub hostname : Option Bytes
  pub message : Option Bytes

-- the members that `pri` gives
abbrev pub with_priority : ℕ → Syslog
with_priority pri = record {
  syslog_priority = pri;
  syslog_facility = pri / 8;
  syslog_severity = pri % 8;
  syslog_version = none;
  timestamp = none;
  timestamp_usec = none;
  hostname = none;
  message = none;
}

-- `*endptr != '>' || pri < 0 || pri > 191`
priority_end : ℤ × Bytes → Option (ℕ × Bytes)
priority_end (negsuc n, end) = none
priority_end (pos pri, []) = none
priority_end (pos pri, c ∷ rest) = if c == b'>' && leb pri 191 then some (pri, rest) else none

-- "<pri>", and what is behind it
unfoldable pub priority_at : Bytes → Option (ℕ × Bytes)
unfolding priority_end strtol
priority_at [] = none
priority_at (c ∷ s) = if c == b'<' then priority_end (strtol s) else none

-- the last step of both parsers: `none` where the message is no text for json_string
pub with_message : Libraries → Syslog → Bytes → Option Syslog
with_message libs root [] = some root
with_message libs root (c ∷ s) =
    if libs.is_utf8 (c ∷ s) then some (record root { message = some (c ∷ s) }) else none

abbrev pub months : List Bytes
months =
    codes "Jan"
    ∷ codes "Feb"
    ∷ codes "Mar"
    ∷ codes "Apr"
    ∷ codes "May"
    ∷ codes "Jun"
    ∷ codes "Jul"
    ∷ codes "Aug"
    ∷ codes "Sep"
    ∷ codes "Oct"
    ∷ codes "Nov"
    ∷ codes "Dec"
    ∷ []

-- `month` has three characters at most, so strncmp compares it whole
unfoldable pub month_index : ℕ → List Bytes → Bytes → Option ℕ
unfolding str_eq
month_index i [] month = none
month_index i (m ∷ ms) month =
    let later = month_index (i + 1) ms month in if str_eq month m then some i else later

-- the values of "%3s %2d %2d:%2d:%2d"
pub record Scanned : Type 0 where
  pub month : Bytes
  pub day : ℤ
  pub hour : ℤ
  pub min : ℤ
  pub sec : ℤ

scan_bsd : Bytes → Option Scanned
unfolding scan_word scan_int scan_char
scan_bsd s = do
  (month, s) ← scan_word 3 s
  (day, s) ← scan_int 2 s
  (hour, s) ← scan_int 2 s
  s ← scan_char b':' s
  (min, s) ← scan_int 2 s
  s ← scan_char b':' s
  (sec, s) ← scan_int 2 s
  some (record { month = month; day = day; hour = hour; min = min; sec = sec })

-- the year is 100 years after 1900
pub month_time : (Tm → ℤ) → Scanned → ℕ → ℤ
month_time mktime t mon = mktime (record {
  tm_year = pos 100;
  tm_mon = pos mon;
  tm_mday = t.day;
  tm_hour = t.hour;
  tm_min = t.min;
  tm_sec = t.sec;
})

month_skipped : Bytes → Bytes
unfolding span_drop
month_skipped s = span_drop isspace (span_drop is_solid s)

-- `mon >= 0`
month_found : (Tm → ℤ) → Scanned → Option ℕ → Option ℤ
unfolding month_time
month_found mktime t none = none
month_found mktime t (some mon) = some (month_time mktime t mon)

-- the member "timestamp", and the position behind the word that is skipped
bsd_time : (Tm → ℤ) → Option Scanned → Bytes → Option ℤ × Bytes
unfolding month_found month_index month_skipped
bsd_time mktime none s = (none, s)
bsd_time mktime (some t) s = (month_found mktime t (month_index 0 months t.month), month_skipped s)

abbrev pub in_host : ℕ → Bool
in_host c = not (isspace c) && not (c == b':')

abbrev pub not_colon : ℕ → Bool
not_colon c = not (c == b':')

-- behind the colon and the white space after it
behind_colon : Bytes → Bytes
unfolding span_drop
behind_colon [] = []
behind_colon (colon ∷ s) = span_drop isspace s

-- the member "hostname", which is not set if json_string refuses the text
host_of : Libraries → Bytes → Option Bytes
host_of libs [] = none
host_of libs (c ∷ s) = if libs.is_utf8 (c ∷ s) then some (c ∷ s) else none

bsd_body : Libraries → Syslog → Option ℤ → Bytes → Option Syslog
bsd_body libs root time s =
    let host = host_of libs (span_take in_host s) in
    with_message libs (record root { timestamp = time; hostname = host })
      (behind_colon (span_drop not_colon (span_drop in_host s)))

bsd_rest : Libraries → ℕ × Bytes → Option Syslog
bsd_rest libs (pri, s) =
    let s = span_drop isspace s in
    let (time, s) = bsd_time libs.mktime (scan_bsd s) s in bsd_body libs (with_priority pri) time s

-- `none` is NULL
pub parse_rfc3164 : Libraries → Bytes → Option Syslog
parse_rfc3164 libs line = priority_at line >>= bsd_rest libs

-- `version`, and then a space
version_at : Bytes → Option (ℕ × Bytes)
version_at (c ∷ space ∷ s) = if isdigit c && space == b' ' then some (c - 48, s) else none
version_at _ = none

abbrev pub from_1900 : ℤ → ℤ
from_1900 year = sub_ℕ (pos_part year) (neg_part year + 1900)

abbrev pub from_january : ℤ → ℤ
from_january mon = sub_ℕ (pos_part mon) (neg_part mon + 1)

pub scan_iso : Bytes → Option Tm
unfolding scan_int scan_char
scan_iso s = do
  (year, s) ← scan_int 4 s
  s ← scan_char b'-' s
  (mon, s) ← scan_int 2 s
  s ← scan_char b'-' s
  (day, s) ← scan_int 2 s
  s ← scan_char b'T' s
  (hour, s) ← scan_int 2 s
  s ← scan_char b':' s
  (min, s) ← scan_int 2 s
  s ← scan_char b':' s
  (sec, s) ← scan_int 2 s
  some (record {
    tm_year = from_1900 year;
    tm_mon = from_january mon;
    tm_mday = day;
    tm_hour = hour;
    tm_min = min;
    tm_sec = sec;
  })

-- at most six digits, filled up with zeros
fraction : ℕ → ℕ → Bytes → ℕ
fraction zero usec s = usec
fraction (suc digits) usec [] = fraction digits (usec * 10) []
fraction (suc digits) usec (c ∷ s) =
    let more = fraction digits (usec * 10 + (c - 48)) s in
    let fill = fraction digits (usec * 10) [] in if isdigit c then more else fill

abbrev ends_time : ℕ → Bool
ends_time c = c == b'Z' || c == b'+' || c == b'-'

-- the search for the '.', from the beginning of the timestamp
pub usec_at : Bytes → ℕ
unfolding fraction
usec_at [] = 0
usec_at (c ∷ s) =
    let later = usec_at s in
    let found = fraction 6 0 s in if ends_time c then 0 else if c == b'.' then found else later

-- `timestamp != -1`, and `usec > 0`
with_time : Syslog → ℤ → ℕ → Syslog
with_time root time usec =
    let stamp = if ltb 0 usec then some usec else none in
    if eqb_ℤ time (negsuc 0)
    then root
    else record root { timestamp = some time; timestamp_usec = stamp }

iso_rest : Libraries → Syslog → Option Tm → Bytes → Option Syslog
iso_rest libs root none s = with_message libs root s
iso_rest libs root (some t) s =
    with_message libs (with_time root (libs.mktime t) (usec_at s))
      (span_drop isspace (span_drop (λ c. not (c == b' ')) s))

version_rest : Libraries → Syslog → ℕ × Bytes → Option Syslog
version_rest libs root (version, s) =
    iso_rest libs (record root { syslog_version = some version }) (scan_iso s) s

-- `none` is NULL
pub parse_rfc5424 : Libraries → Bytes → Option Syslog
parse_rfc5424 libs line = do
  (pri, s) ← priority_at line
  version_at s >>= version_rest libs (with_priority pri)

starts_digit : Bytes → Bool
starts_digit [] = false
starts_digit (c ∷ s) = isdigit c

-- what is behind the first '>'
behind_priority : Bytes → Bytes
behind_priority [] = []
behind_priority (c ∷ s) = s

-- a '<' first, and a digit behind the first '>'
pub is_rfc5424 : Bytes → Bool
unfolding starts_digit behind_priority span_drop
is_rfc5424 [] = false
is_rfc5424 (c ∷ s) =
    c == b'<' && starts_digit (behind_priority (span_drop (λ d. not (d == b'>')) s))

pub nblex_parse_syslog_line : Libraries → Bytes → Option Syslog
nblex_parse_syslog_line libs line =
    if is_rfc5424 line then parse_rfc5424 libs line else parse_rfc3164 libs line

-- ===== src/Nginx.antt =====
-- src/parsers/nginx_parser.c: a line of nginx's combined log format. The members are the texts and
-- numbers that jansson is given, of which it takes the texts that are UTF-8. A field that is not found leaves the cursor where the source does.
pub mod Quoted
pub mod Print
mod Tests
use nblex.Base.{
  Bool, ℕ, true, false, not, ◌&&◌, ◌||◌, Option, none, some, [], ◌∷◌, ◌==◌, length, ltb,
  if◌then◌else◌,
}
use nblex.Base.Int.{ℤ}
use nblex.Nginx.Quoted.{escaped_take, escaped_drop}
use nblex.Text.{Bytes, codes, isspace, isdigit, str_eq}
use nblex.Text.Number.{strtol}
use nblex.Text.Scan.{span_take, span_drop}
use nblex.Text.Word.{is_solid, unless_empty, kept}

pub record Request : Type 0 where
  pub request : Option Bytes
  pub method : Option Bytes
  pub path : Option Bytes
  pub protocol : Option Bytes

pub record Nginx : Type 0 where
  pub remote_addr : Option Bytes
  pub remote_user : Option Bytes
  pub time_local : Option Bytes
  pub request : Request
  pub status : Option ℤ
  pub body_bytes_sent : Option ℤ
  pub http_referer : Option Bytes
  pub http_user_agent : Option Bytes

abbrev pub space_or_dash : ℕ → Bool
space_or_dash c = isspace c || c == b'-'

abbrev pub in_user : ℕ → Bool
in_user c = not (isspace c) && not (c == b'[')

abbrev pub in_time : ℕ → Bool
in_time c = not (c == b']')

abbrev pub not_blank : ℕ → Bool
not_blank c = not (c == b' ')

-- remote_user, where `end > pos` and `*pos` is no dash
user_of : Bytes → Option Bytes
user_of [] = none
user_of (c ∷ s) = if c == b'-' then none else some (c ∷ s)

time_closed : Bytes → Bytes → Bytes → Option Bytes × Bytes
time_closed time [] pos = (none, pos)
time_closed time (bracket ∷ rest) pos = (some time, rest)

time_at : Bytes → Option Bytes × Bytes
unfolding time_closed
time_at [] = (none, [])
time_at (c ∷ pos) =
    if c == b'['
    then time_closed (span_take in_time pos) (span_drop in_time pos) pos
    else (none, c ∷ pos)

-- a quoted text, and the position behind its closing quote
quote_closed : Bytes → Bytes → Bytes → Option Bytes × Bytes
quote_closed text [] pos = (none, pos)
quote_closed text (quote ∷ rest) pos = (some text, rest)

quoted_at : Bytes → Option Bytes × Bytes
unfolding quote_closed
quoted_at [] = (none, [])
quoted_at (c ∷ pos) =
    if c == b'"' then quote_closed (escaped_take pos) (escaped_drop pos) pos else (none, c ∷ pos)

-- what is in front of the second blank and behind it
path_of : Bytes → Bytes → Bytes → Request → Request
path_of path [] whole r = record r { path = some whole }
path_of path (blank ∷ protocol) whole r = record r {
  path = some path;
  protocol = unless_empty protocol;
}

method_of : Bytes → Bytes → Request → Request
unfolding path_of span_take span_drop
method_of method [] r = r
method_of method (blank ∷ path) r =
    path_of (span_take not_blank path) (span_drop not_blank path) path
      (record r { method = some method })

request_of : Option Bytes → Request
unfolding method_of span_take span_drop
request_of none = record { request = none; method = none; path = none; protocol = none }
request_of (some text) =
    method_of (span_take not_blank text) (span_drop not_blank text)
      (record { request = some text; method = none; path = none; protocol = none })

number_end : ℤ × Bytes → Bytes → Option ℤ × Bytes
number_end (v, end) pos = if ltb (length end) (length pos) then (some v, end) else (none, pos)

number_at : Bytes → Option ℤ × Bytes
unfolding number_end strtol
number_at [] = (none, [])
number_at (c ∷ s) = if isdigit c then number_end (strtol (c ∷ s)) (c ∷ s) else (none, c ∷ s)

-- a quoted field that is set unless it is empty or "-"
unfoldable pub unless_dash : Option Bytes → Option Bytes
unfolding str_eq
unless_dash none = none
unless_dash (some text) =
    let set = unless_empty text in if str_eq text (b'-' ∷ []) then none else set

fields_of : Bytes → Nginx
fields_of line =
    let addr = span_take is_solid line in
    let pos = span_drop space_or_dash (span_drop is_solid line) in
    let user = user_of (span_take in_user pos) in
    let (time, pos) = time_at (span_drop isspace (span_drop in_user pos)) in
    let (request, pos) = quoted_at (span_drop isspace pos) in
    let (status, pos) = number_at (span_drop isspace pos) in
    let (bytes, pos) = number_at (span_drop isspace pos) in
    let (referer, pos) = quoted_at (span_drop isspace pos) in
    let (agent, pos) = quoted_at (span_drop isspace pos) in
    record {
      remote_addr = unless_empty addr;
      remote_user = user;
      time_local = time;
      request = request_of request;
      status = status;
      body_bytes_sent = bytes;
      http_referer = unless_dash referer;
      http_user_agent = unless_dash agent;
    }

-- the members that jansson takes
abbrev pub kept_request : (Bytes → Bool) → Request → Request
kept_request utf8 r = record {
  request = kept utf8 r.request;
  method = kept utf8 r.method;
  path = kept utf8 r.path;
  protocol = kept utf8 r.protocol;
}

abbrev pub kept_fields : (Bytes → Bool) → Nginx → Nginx
kept_fields utf8 n = record n {
  remote_addr = kept utf8 n.remote_addr;
  remote_user = kept utf8 n.remote_user;
  time_local = kept utf8 n.time_local;
  request = kept_request utf8 n.request;
  http_referer = kept utf8 n.http_referer;
  http_user_agent = kept utf8 n.http_user_agent;
}

-- NULL for the empty line; `utf8` is json_string's test
pub nblex_parse_nginx_line : (Bytes → Bool) → Bytes → Option Nginx
nblex_parse_nginx_line utf8 [] = none
nblex_parse_nginx_line utf8 (c ∷ s) = some (kept_fields utf8 (fields_of (c ∷ s)))

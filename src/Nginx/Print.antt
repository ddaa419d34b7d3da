-- ===== src/Nginx/Print.antt =====
-- src/parsers/nginx_parser.c: lines in the combined log format, as they are written
-- and as nblex_parse_nginx_line reads them.
use nblex.Base.{
  Bool, ℕ, ◌≡◌, refl, ap, ◌∙◌, arith, true, false, ◌==◌, Option, none, some, [], ◌∷◌, ◌++◌, length,
  length-append, ltb, All,
}
use nblex.Nginx.{
  Nginx, space_or_dash, in_user, in_time, not_blank, user_of, time_closed, time_at, quote_closed,
  quoted_at, path_of, method_of, request_of, number_end, number_at, unless_dash, fields_of,
  kept_fields, nblex_parse_nginx_line,
}
use nblex.Nginx.Quoted.{Quotable, escaped_take-Quotable, escaped_drop-Quotable}
use nblex.Text.{Bytes, isspace, isdigit}
use nblex.Text.Number.{number_of, IsNumber, strtol-digits}
use nblex.Text.Scan.{span_take, span_drop, span_take-append, span_drop-append}
use nblex.Text.Word.{unless_empty, IsWord, take_word, drop_word, word_is_set}

-- a user name that can be told from the dash that stands for none
abbrev pub IsUser : Option Bytes → Type 0
IsUser none = Unit
IsUser (some []) = ⊥
IsUser (some (c ∷ w)) = ((c == b'-') ≡ false) × All (λ c. in_user c ≡ true) (c ∷ w)

abbrev pub print_user : Option Bytes → Bytes
print_user none = b'-' ∷ []
print_user (some user) = user

abbrev pub request_text : Bytes → Bytes → Bytes → Bytes
request_text method path protocol = method ++ b' ' ∷ (path ++ b' ' ∷ protocol)

-- the fields of a line
pub record Entry : Type 0 where
  pub addr : Bytes
  pub user : Option Bytes
  pub time : Bytes
  pub method : Bytes
  pub path : Bytes
  pub protocol : Bytes
  pub status : Bytes
  pub bytes : Bytes
  pub referer : Bytes
  pub agent : Bytes
  pub addr_word : IsWord addr
  pub user_name : IsUser user
  pub time_text : All (λ c. in_time c ≡ true) time
  pub method_text : All (λ c. not_blank c ≡ true) method
  pub path_text : All (λ c. not_blank c ≡ true) path
  pub request_quotable : Quotable (request_text method path protocol)
  pub status_number : IsNumber status
  pub bytes_number : IsNumber bytes
  pub referer_quotable : Quotable referer
  pub agent_quotable : Quotable agent

abbrev pub quoted : Bytes → Bytes → Bytes
quoted text rest = b'"' ∷ (text ++ b'"' ∷ rest)

-- '$remote_addr - $remote_user [$time_local] "$request" $status $body_bytes_sent "$http_referer"
-- "$http_user_agent"', and anything behind it
abbrev behind_bytes : Entry → Bytes → Bytes
behind_bytes e rest = b' ' ∷ quoted e.referer (b' ' ∷ quoted e.agent rest)

abbrev behind_request : Entry → Bytes → Bytes
behind_request e rest = b' ' ∷ (e.status ++ b' ' ∷ (e.bytes ++ behind_bytes e rest))

abbrev behind_user : Entry → Bytes → Bytes
behind_user e rest =
    b' '
    ∷ b'['
    ∷ (e.time
        ++ b']' ∷ b' ' ∷ quoted (request_text e.method e.path e.protocol) (behind_request e rest))

abbrev pub print_entry : Entry → Bytes → Bytes
print_entry e rest = e.addr ++ b' ' ∷ b'-' ∷ b' ' ∷ (print_user e.user ++ behind_user e rest)

abbrev pub read_entry : Entry → Nginx
read_entry e = record {
  remote_addr = some e.addr;
  remote_user = e.user;
  time_local = some e.time;
  request = record {
    request = some (request_text e.method e.path e.protocol);
    method = some e.method;
    path = some e.path;
    protocol = unless_empty e.protocol;
  };
  status = some (number_of e.status);
  body_bytes_sent = some (number_of e.bytes);
  http_referer = unless_dash (some e.referer);
  http_user_agent = unless_dash (some e.agent);
}

-- The cursor stands at the user name, or at the bracket where there is none.
abbrev at_user : Option Bytes → Bytes → Bytes
at_user none t = b'[' ∷ t
at_user (some user) t = user ++ b' ' ∷ b'[' ∷ t

skip_to_user :
    (u : Option Bytes) (t : Bytes)
    → IsUser u
    → span_drop space_or_dash (b' ' ∷ b'-' ∷ b' ' ∷ (print_user u ++ b' ' ∷ b'[' ∷ t)) ≡ at_user u t
unfolding span_drop
skip_to_user none t h = refl
skip_to_user (some []) t h = absurd h
skip_to_user (some (c ∷ w)) t h =
    let stays : space_or_dash c ≡ false = ground (arith, h.0, h.1.0) in rw stays refl

user_read :
    (u : Option Bytes) (t : Bytes) → IsUser u → user_of (span_take in_user (at_user u t)) ≡ u
unfolding user_of span_take
user_read none t h = refl
user_read (some []) t h = absurd h
user_read (some (c ∷ w)) t h =
    rw (span_take-append in_user (c ∷ w) (b' ' ∷ b'[' ∷ t) h.1 refl, h.0) refl

skip_user :
    (u : Option Bytes) (t : Bytes)
    → IsUser u
    → span_drop isspace (span_drop in_user (at_user u t)) ≡ b'[' ∷ t
unfolding span_drop
skip_user none t h = refl
skip_user (some []) t h = absurd h
skip_user (some (c ∷ w)) t h = rw (span_drop-append in_user (c ∷ w) (b' ' ∷ b'[' ∷ t) h.1 refl) refl

time_read :
    (time t : Bytes)
    → All (λ c. in_time c ≡ true) time
    → time_at (b'[' ∷ (time ++ b']' ∷ t)) ≡ (some time, t)
unfolding time_at time_closed span_take span_drop
time_read time t h =
    rw
      (
        span_take-append in_time time (b']' ∷ t) h refl,
        span_drop-append in_time time (b']' ∷ t) h refl,
      )
      refl

skip_to_quote : (text t : Bytes) → span_drop isspace (b' ' ∷ quoted text t) ≡ quoted text t
unfolding span_drop
skip_to_quote text t = refl

quoted_read : (text t : Bytes) → Quotable text → quoted_at (quoted text t) ≡ (some text, t)
unfolding quoted_at quote_closed
quoted_read text t h = rw (escaped_take-Quotable text t h, escaped_drop-Quotable text t h) refl

skip_to_number :
    (ds t : Bytes) → IsNumber ds → span_drop isspace (b' ' ∷ (ds ++ b' ' ∷ t)) ≡ ds ++ b' ' ∷ t
unfolding span_drop
skip_to_number [] t h = absurd h
skip_to_number (d ∷ ds) t h = let solid : isspace d ≡ false = ground (arith, h.0) in rw solid refl

blank_take : (t : Bytes) → span_take isdigit (b' ' ∷ t) ≡ []
unfolding span_take
blank_take t = refl

blank_drop : (t : Bytes) → span_drop isdigit (b' ' ∷ t) ≡ b' ' ∷ t
unfolding span_drop
blank_drop t = refl

digits_behind :
    (d : ℕ) (ds t : Bytes) → ltb (length (b' ' ∷ t)) (length (d ∷ (ds ++ b' ' ∷ t))) ≡ true
digits_behind d ds t = let l = length-append ds (b' ' ∷ t) in ground (arith, l)

number_read :
    (ds t : Bytes) → IsNumber ds → number_at (ds ++ b' ' ∷ t) ≡ (some (number_of ds), b' ' ∷ t)
unfolding number_at number_end
number_read [] t h = absurd h
number_read (d ∷ ds) t h =
    rw (h.0, strtol-digits d ds (b' ' ∷ t) h (blank_take t) (blank_drop t), digits_behind d ds t)
      refl

request_read :
    (method path protocol : Bytes)
    → All (λ c. not_blank c ≡ true) method
    → All (λ c. not_blank c ≡ true) path
    → request_of (some (request_text method path protocol)) ≡ record {
      request = some (request_text method path protocol);
      method = some method;
      path = some path;
      protocol = unless_empty protocol;
    }
unfolding request_of method_of path_of span_take span_drop
request_read method path protocol m p =
    rw
      (
        span_take-append not_blank method (b' ' ∷ (path ++ b' ' ∷ protocol)) m refl,
        span_drop-append not_blank method (b' ' ∷ (path ++ b' ' ∷ protocol)) m refl,
        span_take-append not_blank path (b' ' ∷ protocol) p refl,
        span_drop-append not_blank path (b' ' ∷ protocol) p refl,
      )
      refl

fields_read : (e : Entry) (rest : Bytes) → fields_of (print_entry e rest) ≡ read_entry e
unfolding fields_of
fields_read e rest =
    let request = request_text e.method e.path e.protocol in
    let stamp = e.time ++ b']' ∷ b' ' ∷ quoted request (behind_request e rest) in
    let behind_addr = b' ' ∷ b'-' ∷ b' ' ∷ (print_user e.user ++ behind_user e rest) in
    rw
      (
        take_word e.addr behind_addr e.addr_word refl,
        drop_word e.addr behind_addr e.addr_word refl,
        word_is_set e.addr e.addr_word,
        skip_to_user e.user stamp e.user_name,
        user_read e.user stamp e.user_name,
        skip_user e.user stamp e.user_name,
        time_read e.time (b' ' ∷ quoted request (behind_request e rest)) e.time_text,
        skip_to_quote request (behind_request e rest),
        quoted_read request (behind_request e rest) e.request_quotable,
        request_read e.method e.path e.protocol e.method_text e.path_text,
        skip_to_number e.status (e.bytes ++ behind_bytes e rest) e.status_number,
        number_read e.status (e.bytes ++ behind_bytes e rest) e.status_number,
        skip_to_number e.bytes (quoted e.referer (b' ' ∷ quoted e.agent rest)) e.bytes_number,
        number_read e.bytes (quoted e.referer (b' ' ∷ quoted e.agent rest)) e.bytes_number,
        skip_to_quote e.referer (b' ' ∷ quoted e.agent rest),
        quoted_read e.referer (b' ' ∷ quoted e.agent rest) e.referer_quotable,
        skip_to_quote e.agent rest,
        quoted_read e.agent rest e.agent_quotable,
      )
      refl

nonempty :
    (utf8 : Bytes → Bool) (w t : Bytes)
    → IsWord w
    → nblex_parse_nginx_line utf8 (w ++ t) ≡ some (kept_fields utf8 (fields_of (w ++ t)))
unfolding nblex_parse_nginx_line
nonempty utf8 [] t h = absurd h
nonempty utf8 (c ∷ w) t h = refl

-- A written line of the combined log format, whose fields hold nothing that ends them, is read
-- back: its address, its user, which holds no white space and no '[' and does not begin with '-',
-- unless it is "-" for none, its time, its request and the request's method, path and protocol,
-- its numbers as `long`s, and its referer and agent unless they are empty or "-", each text where
-- it is UTF-8. What follows the last quote is not looked at.
pub nblex_parse_nginx_line-print_entry :
    (utf8 : Bytes → Bool) (e : Entry) (rest : Bytes)
    → nblex_parse_nginx_line utf8 (print_entry e rest) ≡ some (kept_fields utf8 (read_entry e))
nblex_parse_nginx_line-print_entry utf8 e rest =
    nonempty utf8 e.addr _ e.addr_word ∙ ap (λ n. some (kept_fields utf8 n)) (fields_read e rest)

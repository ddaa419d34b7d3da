-- ===== src/Http.antt =====
-- src/parsers/http_parser.c: the first line and the headers of an HTTP message. The members are
-- the texts that jansson is given, of which it takes those that are UTF-8; the headers are
-- listed in the order in which they are set, and then set in the object, where a later header
-- replaces an earlier one of the same name.
pub mod Lines
pub mod Request
pub mod Response
mod Tests
use nblex.Base.{
  ℕ, zero, suc, Bool, true, false, not, ◌&&◌, Option, none, some, List, [], ◌∷◌, ◌==◌, length, drop,
  map, if◌then◌else◌,
}
use nblex.Base.Int.{ℤ}
use nblex.Filter.Parse.{at_char}
use nblex.Text.{Bytes, isspace, isdigit, tolower, c_string}
use nblex.Text.Number.{strtol, to_int}
use nblex.Text.Object.{Object, set_members}
use nblex.Text.Scan.{span_take, span_drop}
use nblex.Text.Word.{is_solid, unless_empty, kept}

-- the members of the object, but for its headers
pub record Http : Type 0 where
  pub method : Option Bytes
  pub uri : Option Bytes
  pub version : Option Bytes
  pub status_code : Option ℤ
  pub reason : Option Bytes

abbrev pub no_members : Http
no_members = record { method = none; uri = none; version = none; status_code = none; reason = none }

-- the member that a word makes, and the position behind it and the white space
next_word : Bytes → Option Bytes × Bytes
unfolding span_take span_drop
next_word pos = (unless_empty (span_take is_solid pos), span_drop isspace (span_drop is_solid pos))

request_members : Option Bytes × Bytes → Option Http
unfolding next_word
request_members (none, pos) = none
request_members (some method, pos) =
    let (uri, pos) = next_word pos in
    let (version, pos) = next_word pos in
    some (record no_members { method = some method; uri = uri; version = version })

-- parse_http_request_line: `none` is the return value -1
unfoldable pub parse_http_request_line : Bytes → Option Http
unfolding next_word request_members
parse_http_request_line line = request_members (next_word line)

-- atoi, where digits stand
status_of : Bytes → Bytes → Option ℤ
unfolding strtol to_int
status_of [] pos = none
status_of (d ∷ ds) pos = some (to_int (strtol pos).0)

unfoldable pub parse_http_status_line : Bytes → Option Http
unfolding next_word status_of span_take span_drop
parse_http_status_line line =
    let (version, pos) = next_word line in
    let status = status_of (span_take isdigit pos) pos in
    let (reason, pos) = next_word (span_drop isspace (span_drop isdigit pos)) in
    some (record no_members { version = version; status_code = status; reason = reason })

abbrev pub in_line : ℕ → Bool
in_line c = not (c == b'\r') && not (c == b'\n')

-- a `\r` and then a `\n`, where they are
unfoldable pub skip_eol : Bytes → Bytes
unfolding at_char
skip_eol s =
    let s' = if at_char b'\r' s then drop 1 s else s in if at_char b'\n' s' then drop 1 s' else s'

abbrev not_colon : ℕ → Bool
not_colon c = not (c == b':')

header_at : Bytes → Bytes → Option (Bytes × Bytes)
unfolding c_string span_drop
header_at name [] = none
header_at name (colon ∷ value) =
    some (c_string (map tolower name), c_string (span_drop isspace value))

-- the member that a line sets, if it holds a colon
unfoldable pub header_of : Bytes → Option (Bytes × Bytes)
unfolding header_at span_take span_drop
header_of line = header_at (span_take not_colon line) (span_drop not_colon line)

abbrev pub with_header : Option (Bytes × Bytes) → List (Bytes × Bytes) → List (Bytes × Bytes)
with_header none more = more
with_header (some h) more = h ∷ more

header_line : Bytes → Option (List (Bytes × Bytes)) → Option (List (Bytes × Bytes))
unfolding header_of
header_line [] more = some []
header_line line none = none
header_line line (some more) = some (with_header (header_of line) more)

-- The loop of parse_http_headers, on fuel; `none` is a loop that has not ended.
unfoldable pub headers_loop : ℕ → Bytes → Option (List (Bytes × Bytes))
unfolding skip_eol header_line span_take span_drop
headers_loop zero s = none
headers_loop (suc f) [] = some []
headers_loop (suc f) (c ∷ s) =
    header_line (span_take in_line (c ∷ s)) (headers_loop f (skip_eol (span_drop in_line (c ∷ s))))

unfoldable pub parse_http_headers : Bytes → Option (List (Bytes × Bytes))
unfolding headers_loop
parse_http_headers s = headers_loop (suc (length s)) s

with_headers : Http → Option (List (Bytes × Bytes)) → Option (Option (Http × List (Bytes × Bytes)))
with_headers http none = none
with_headers http (some headers) = some (some (http, headers))

pub parsed_line : Option Http → Bytes → Option (Option (Http × List (Bytes × Bytes)))
unfolding with_headers parse_http_headers skip_eol
parsed_line none rest = some none
parsed_line (some http) rest = with_headers http (parse_http_headers (skip_eol rest))

pub first_line : Bool → Bytes → Bytes → Option (Option (Http × List (Bytes × Bytes)))
unfolding parsed_line parse_http_request_line parse_http_status_line c_string
first_line is_request [] rest = some none
first_line true line rest = parsed_line (parse_http_request_line (c_string line)) rest
first_line false line rest = parsed_line (parse_http_status_line (c_string line)) rest

-- the texts that jansson is given, or NULL
pub read_payload : Bytes → Bool → Option (Option (Http × List (Bytes × Bytes)))
unfolding first_line span_take span_drop
read_payload data' is_request =
    first_line is_request (span_take in_line data') (span_drop in_line data')

-- the members that jansson takes
abbrev pub kept_members : (Bytes → Bool) → Http → Http
kept_members utf8 http = record http {
  method = kept utf8 http.method;
  uri = kept utf8 http.uri;
  version = kept utf8 http.version;
  reason = kept utf8 http.reason;
}

-- the headers that jansson takes
abbrev pub kept_headers : (Bytes → Bool) → List (Bytes × Bytes) → List (Bytes × Bytes)
kept_headers utf8 [] = []
kept_headers utf8 ((name, value) ∷ hs) =
    let rest = kept_headers utf8 hs in
    if utf8 name && utf8 value then (name, value) ∷ rest else rest

-- the object, whose headers are set in order
kept_object :
    (Bytes → Bool)
    → Option (Option (Http × List (Bytes × Bytes)))
    → Option (Option (Http × Object Bytes))
unfolding set_members
kept_object utf8 none = none
kept_object utf8 (some none) = some none
kept_object utf8 (some (some (http, headers))) =
    some (some (kept_members utf8 http, set_members [] (kept_headers utf8 headers)))

-- nblex_parse_http_payload: the object and its headers, or NULL; `utf8` is json_string's test
pub nblex_parse_http_payload : (Bytes → Bool) → Bytes → Bool → Option (Option (Http × Object Bytes))
nblex_parse_http_payload utf8 data' is_request = kept_object utf8 (read_payload data' is_request)

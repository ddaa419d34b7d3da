-- ===== src/Http/Tests.antt =====
-- A request and a response of src/parsers/http_parser.c, and the theorems at them.
use nblex.Base.{Bool, ◌≡◌, refl, arith, true, false, some, none, List, [], ◌∷◌, ◌++◌, map}
use nblex.Base.Int.{pos}
use nblex.Http.{
  kept_object, read_payload, kept_members, kept_headers, no_members, nblex_parse_http_payload,
  parse_http_headers, headers_loop, header_of, parse_http_request_line, parse_http_status_line,
  skip_eol,
}
use nblex.Http.Lines.{Header, member_of, print_headers, parse_http_headers-ends}
use nblex.Http.Request.{Request, request_line, request_of, nblex_parse_http_payload-request}
use nblex.Http.Response.{Response, status_line, response_of, nblex_parse_http_payload-response}
use nblex.Text.{Bytes, codes, c_string, str_eq}
use nblex.Text.Number.{strtol, clamp_long, digits_value, to_int}
use nblex.Text.Object.{Object, member, last_of, set_members}
use nblex.Text.Scan.{span_take, span_drop}

abbrev any_text : Bytes → Bool
any_text s = true

host_header : Header
host_header = record {
  name = codes "Host";
  value = codes "a";
  name_in_line = (refl, (refl, (refl, (refl, tt))));
  no_colon = (refl, (refl, (refl, (refl, tt))));
  name_text = (omega arith, (omega arith, (omega arith, (omega arith, tt))));
  value_in_line = (refl, tt);
  value_solid = refl;
  value_text = (omega arith, tt);
}

get : Request
get = record {
  method = codes "GET";
  uri = codes "/";
  version = codes "H1";
  method_word = (refl, (refl, (refl, tt)));
  uri_word = (refl, tt);
  version_word = (refl, (refl, tt));
  method_text = (omega arith, (omega arith, (omega arith, tt)));
  uri_text = (omega arith, tt);
  version_text = (omega arith, (omega arith, tt));
}

missing : Response
missing = record {
  version = codes "H1";
  digit = 52;
  digits = codes "04";
  reason = codes "Not";
  more_reason = codes " A";
  version_word = (refl, (refl, tt));
  are_digits = (refl, (refl, (refl, tt)));
  reason_word = (refl, (refl, (refl, tt)));
  behind_word = refl;
  more_in_line = (refl, (refl, tt));
  version_text = (omega arith, (omega arith, tt));
  reason_text = (omega arith, (omega arith, (omega arith, tt)));
  more_text = (omega arith, (omega arith, tt));
}

-- the headers "a:1", a line without a colon, "B: \t2", and "A: 3" without an end of line
read_request :
    nblex_parse_http_payload any_text (codes "GET  /x\na:1\r\nnone\nB: \t2\nA: 3") true
    ≡ some (
        some (
          record no_members { method = some (codes "GET"); uri = some (codes "/x") },
          (codes "a", codes "3") ∷ (codes "b", codes "2") ∷ [],
        ))
unfolding nblex_parse_http_payload kept_object read_payload parse_http_headers headers_loop
    header_of parse_http_request_line skip_eol set_members str_eq span_take span_drop c_string
read_request = refl

-- nothing behind the code
read_response :
    nblex_parse_http_payload any_text (codes "HTTP/1.1 404\n") false
    ≡ some (
        some (
          record no_members { version = some (codes "HTTP/1.1"); status_code = some (pos 404) },
          [],
        ))
unfolding nblex_parse_http_payload kept_object read_payload parse_http_headers headers_loop
    header_of parse_http_status_line skip_eol span_take span_drop c_string strtol clamp_long
    digits_value to_int
read_response = refl

empty_line : nblex_parse_http_payload any_text (codes "\nGET / H1") true ≡ some none
unfolding nblex_parse_http_payload kept_object read_payload span_take span_drop
empty_line = refl

headers_end_example : (r : List (Bytes × Bytes)) × (parse_http_headers (codes "a: b\r\nc") ≡ some r)
headers_end_example = parse_http_headers-ends (codes "a: b\r\nc")

nblex_parse_http_payload-request_example :
    (headers : Object Bytes) × (nblex_parse_http_payload any_text
        (request_line get
          ++ b'\r' ∷ b'\n' ∷ print_headers (host_header ∷ host_header ∷ []) (codes "x"))
        true
      ≡ some (some (kept_members any_text (request_of get), headers)))
    × ((name : Bytes)
        → member name headers
          ≡ last_of name (kept_headers any_text (map member_of (host_header ∷ host_header ∷ []))))
nblex_parse_http_payload-request_example =
    nblex_parse_http_payload-request any_text get (host_header ∷ host_header ∷ []) (codes "x")

nblex_parse_http_payload-response_example :
    (headers : Object Bytes) × (nblex_parse_http_payload any_text
        (status_line missing
          ++ b'\r' ∷ b'\n' ∷ print_headers (host_header ∷ host_header ∷ []) (codes "x"))
        false
      ≡ some (some (kept_members any_text (response_of missing), headers)))
    × ((name : Bytes)
        → member name headers
          ≡ last_of name (kept_headers any_text (map member_of (host_header ∷ host_header ∷ []))))
nblex_parse_http_payload-response_example =
    nblex_parse_http_payload-response any_text missing (host_header ∷ host_header ∷ []) (codes "x")

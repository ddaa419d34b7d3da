-- ===== src/Http/Request.antt =====
-- src/parsers/http_parser.c: written requests, as nblex_parse_http_payload reads them, and what
-- requests and responses share.
use nblex.Base.{
  ℕ, ◌≡◌, ◌≢◌, refl, ◌∙◌, arith, Bool, true, false, some, List, [], ◌∷◌, ◌++◌, append-nil, All,
  All-append, map,
}
use nblex.Http.{
  Http, no_members, request_members, parse_http_request_line, parse_http_status_line, in_line,
  with_headers, parsed_line, first_line, nblex_parse_http_payload, read_payload, kept_object,
  kept_members, kept_headers,
}
use nblex.Http.Lines.{Header, print_headers, member_of, skip_crlf, parse_http_headers-print}
use nblex.Text.{Bytes, isspace, c_string, IsText, c_string-IsText}
use nblex.Text.Object.{Object, set_members, member, last_of, member-last_of}
use nblex.Text.Scan.{span_take, span_drop, span_take-append, span_drop-append}
use nblex.Text.Word.{is_solid, IsWord, take_word, drop_word, word_is_set, skip_to_word}

take_all : (w : Bytes) → IsWord w → span_take is_solid w ≡ w
take_all w h = let e = take_word w [] h tt in rw append-nil at e

pub skip_one : (w t : Bytes) → IsWord w → span_drop isspace (b' ' ∷ w ++ t) ≡ w ++ t
unfolding span_drop
skip_one w t h = skip_to_word w t h

-- a request as it is written
pub record Request : Type 0 where
  pub method : Bytes
  pub uri : Bytes
  pub version : Bytes
  pub method_word : IsWord method
  pub uri_word : IsWord uri
  pub version_word : IsWord version
  pub method_text : IsText method
  pub uri_text : IsText uri
  pub version_text : IsText version

abbrev pub request_line : Request → Bytes
request_line r = r.method ++ b' ' ∷ (r.uri ++ b' ' ∷ r.version)

abbrev pub request_of : Request → Http
request_of r = record no_members {
  method = some r.method;
  uri = some r.uri;
  version = some r.version;
}

request_line-read : (r : Request) → parse_http_request_line (request_line r) ≡ some (request_of r)
unfolding parse_http_request_line request_members
request_line-read r =
    rw
      (
        take_word r.method (b' ' ∷ (r.uri ++ b' ' ∷ r.version)) r.method_word refl,
        drop_word r.method (b' ' ∷ (r.uri ++ b' ' ∷ r.version)) r.method_word refl,
        word_is_set r.method r.method_word,
        skip_one r.uri (b' ' ∷ r.version) r.uri_word,
        take_word r.uri (b' ' ∷ r.version) r.uri_word refl,
        drop_word r.uri (b' ' ∷ r.version) r.uri_word refl,
        word_is_set r.uri r.uri_word,
        skip_version,
        take_all r.version r.version_word,
        word_is_set r.version r.version_word,
      )
      refl
  where
    skip_version : span_drop isspace (b' ' ∷ r.version) ≡ r.version
    skip_version = let e = skip_one r.version [] r.version_word in rw append-nil at e

solid_in_line : (c : ℕ) → is_solid c ≡ true → in_line c ≡ true
solid_in_line c h = ground arith

word_in_line : (w : Bytes) → All (λ c. is_solid c ≡ true) w → All (λ c. in_line c ≡ true) w
word_in_line [] h = tt
word_in_line (c ∷ w) h = (solid_in_line c h.0, word_in_line w h.1)

pub solid_word : (w : Bytes) → IsWord w → All (λ c. in_line c ≡ true) w
solid_word [] h = absurd h
solid_word (c ∷ w) h = word_in_line (c ∷ w) h

pub append-IsText : (s t : Bytes) → IsText s → IsText t → IsText (s ++ t)
append-IsText s t h k = All-append (λ c. c ≢ 0) s t h k

pub append_in_line :
    (s t : Bytes)
    → All (λ c. in_line c ≡ true) s
    → All (λ c. in_line c ≡ true) t
    → All (λ c. in_line c ≡ true) (s ++ t)
append_in_line s t h k = All-append (λ c. in_line c ≡ true) s t h k

request_line-IsText : (r : Request) → IsText (request_line r)
request_line-IsText r =
    append-IsText r.method _ r.method_text
      (omega arith, append-IsText r.uri _ r.uri_text (omega arith, r.version_text))

request_line-in_line : (r : Request) → All (λ c. in_line c ≡ true) (request_line r)
request_line-in_line r = append_in_line r.method _ (solid_word r.method r.method_word) (
  refl,
  append_in_line r.uri _ (solid_word r.uri r.uri_word) (refl, solid_word r.version r.version_word),
)

-- a message whose first line is `line`
pub payload_of :
    (is_request : Bool) (line rest : Bytes)
    → All (λ c. in_line c ≡ true) line
    → read_payload (line ++ b'\r' ∷ rest) is_request ≡ first_line is_request line (b'\r' ∷ rest)
unfolding read_payload span_take span_drop
payload_of is_request line rest h =
    rw
      (
        span_take-append in_line line (b'\r' ∷ rest) h refl,
        span_drop-append in_line line (b'\r' ∷ rest) h refl,
      )
      refl

first_request :
    (w s rest : Bytes)
    → IsWord w
    → first_line true (w ++ s) rest ≡ parsed_line (parse_http_request_line (c_string (w ++ s))) rest
unfolding first_line
first_request [] s rest h = absurd h
first_request (c ∷ w) s rest h = refl

pub first_status :
    (w s rest : Bytes)
    → IsWord w
    → first_line false (w ++ s) rest ≡ parsed_line (parse_http_status_line (c_string (w ++ s))) rest
unfolding first_line
first_status [] s rest h = absurd h
first_status (c ∷ w) s rest h = refl

pub parsed_headers :
    (http : Http) (hs : List Header) (body : Bytes)
    → parsed_line (some http) (b'\r' ∷ b'\n' ∷ print_headers hs body)
      ≡ some (some (http, map member_of hs))
unfolding parsed_line with_headers
parsed_headers http hs body =
    rw (skip_crlf (print_headers hs body), parse_http_headers-print hs body) refl

read_payload-request :
    (r : Request) (hs : List Header) (body : Bytes)
    → read_payload (request_line r ++ b'\r' ∷ b'\n' ∷ print_headers hs body) true
      ≡ some (some (request_of r, map member_of hs))
read_payload-request r hs body =
    let rest = b'\n' ∷ print_headers hs body in
    payload_of true (request_line r) rest (request_line-in_line r)
    ∙ (first_request r.method _ (b'\r' ∷ rest) r.method_word
        ∙ rw (c_string-IsText (request_line r) (request_line-IsText r), request_line-read r)
            (parsed_headers (request_of r) hs body))

-- A written request, whose first line is three words and whose headers have no ':' in their names
-- and no white space before their values, all without a NUL or an end of line, is read back: its
-- method, URI and version, where they are UTF-8, and under each lower-case name the value of the
-- last of its headers with that name, of those that are UTF-8; what follows the empty line is not
-- looked at.
pub nblex_parse_http_payload-request :
    (utf8 : Bytes → Bool) (r : Request) (hs : List Header) (body : Bytes)
    → (headers : Object Bytes) × (nblex_parse_http_payload utf8
          (request_line r ++ b'\r' ∷ b'\n' ∷ print_headers hs body)
          true
        ≡ some (some (kept_members utf8 (request_of r), headers)))
      × ((name : Bytes) → member name headers ≡ last_of name (kept_headers utf8 (map member_of hs)))
unfolding nblex_parse_http_payload kept_object
nblex_parse_http_payload-request utf8 r hs body = (
  set_members [] (kept_headers utf8 (map member_of hs)),
  rw (read_payload-request r hs body) refl,
  λ name. member-last_of name (kept_headers utf8 (map member_of hs)),
)

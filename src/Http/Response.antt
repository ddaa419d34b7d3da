-- ===== src/Http/Response.antt =====
-- src/parsers/http_parser.c: written responses, as nblex_parse_http_payload reads them.
use nblex.Base.{
  Bool, ℕ, ◌≡◌, ◌≢◌, refl, ◌∙◌, arith, true, false, some, List, [], ◌∷◌, ◌++◌, All, map,
}
use nblex.Http.{
  Http, no_members, status_of, parse_http_status_line, in_line, nblex_parse_http_payload,
  read_payload, kept_object, kept_members, kept_headers,
}
use nblex.Http.Lines.{Header, print_headers, member_of}
use nblex.Text.{Bytes, isspace, isdigit, IsText, c_string-IsText}
use nblex.Text.Number.{strtol, to_int, clamp_long, digits_value, strtol-digits}
use nblex.Text.Object.{Object, set_members, member, last_of, member-last_of}
use nblex.Text.Scan.{span_take, span_drop, span_take-append, span_drop-append}
use nblex.Text.Word.{IsWord, IsBehindWord, take_word, drop_word, word_is_set}
use nblex.Http.Request.{
  skip_one, append-IsText, append_in_line, solid_word, payload_of, first_status, parsed_headers,
}

-- a response as it is written: its reason phrase is a word and what follows it
pub record Response : Type 0 where
  pub version : Bytes
  pub digit : ℕ
  pub digits : Bytes
  pub reason : Bytes
  pub more_reason : Bytes
  pub version_word : IsWord version
  pub are_digits : All (λ c. isdigit c ≡ true) (digit ∷ digits)
  pub reason_word : IsWord reason
  pub behind_word : IsBehindWord more_reason
  pub more_in_line : All (λ c. in_line c ≡ true) more_reason
  pub version_text : IsText version
  pub reason_text : IsText reason
  pub more_text : IsText more_reason

abbrev pub status_line : Response → Bytes
status_line r = r.version ++ b' ' ∷ r.digit ∷ (r.digits ++ b' ' ∷ (r.reason ++ r.more_reason))

-- atoi converts the `long` to `int`
unfoldable pub response_of : Response → Http
unfolding to_int clamp_long digits_value
response_of r = record no_members {
  version = some r.version;
  status_code = some (to_int (clamp_long false (digits_value 0 (r.digit ∷ r.digits))));
  reason = some r.reason;
}

skip_to_digit : (d : ℕ) (s : Bytes) → isdigit d ≡ true → span_drop isspace (b' ' ∷ d ∷ s) ≡ d ∷ s
unfolding span_drop
skip_to_digit d s h = let solid : isspace d ≡ false = ground arith in rw solid refl

take_digits :
    (d : ℕ) (ds t : Bytes)
    → All (λ c. isdigit c ≡ true) (d ∷ ds)
    → span_take isdigit (d ∷ (ds ++ b' ' ∷ t)) ≡ d ∷ ds
unfolding span_take
take_digits d ds t h = span_take-append isdigit (d ∷ ds) (b' ' ∷ t) h refl

drop_digits :
    (d : ℕ) (ds t : Bytes)
    → All (λ c. isdigit c ≡ true) (d ∷ ds)
    → span_drop isdigit (d ∷ (ds ++ b' ' ∷ t)) ≡ b' ' ∷ t
unfolding span_drop
drop_digits d ds t h = span_drop-append isdigit (d ∷ ds) (b' ' ∷ t) h refl

number_at :
    (d : ℕ) (ds t : Bytes)
    → All (λ c. isdigit c ≡ true) (d ∷ ds)
    → strtol (d ∷ (ds ++ b' ' ∷ t)) ≡ (clamp_long false (digits_value 0 (d ∷ ds)), b' ' ∷ t)
unfolding span_take span_drop
number_at d ds t h = strtol-digits d ds (b' ' ∷ t) h refl refl

status_line-read : (r : Response) → parse_http_status_line (status_line r) ≡ some (response_of r)
unfolding parse_http_status_line status_of response_of
status_line-read r =
    let phrase = r.reason ++ r.more_reason in
    rw
      (
        take_word r.version (b' ' ∷ r.digit ∷ (r.digits ++ b' ' ∷ phrase)) r.version_word refl,
        drop_word r.version (b' ' ∷ r.digit ∷ (r.digits ++ b' ' ∷ phrase)) r.version_word refl,
        word_is_set r.version r.version_word,
        skip_to_digit r.digit (r.digits ++ b' ' ∷ phrase) r.are_digits.0,
        take_digits r.digit r.digits phrase r.are_digits,
        drop_digits r.digit r.digits phrase r.are_digits,
        number_at r.digit r.digits phrase r.are_digits,
        skip_one r.reason r.more_reason r.reason_word,
        take_word r.reason r.more_reason r.reason_word r.behind_word,
        word_is_set r.reason r.reason_word,
      )
      refl

digits_in_line : (ds : Bytes) → All (λ c. isdigit c ≡ true) ds → All (λ c. in_line c ≡ true) ds
digits_in_line [] h = tt
digits_in_line (c ∷ ds) h =
    let k : in_line c ≡ true = ground (arith, h.0) in (k, digits_in_line ds h.1)

digits-IsText : (ds : Bytes) → All (λ c. isdigit c ≡ true) ds → IsText ds
digits-IsText [] h = tt
digits-IsText (c ∷ ds) h = let k : c ≢ 0 = ground (arith, h.0) in (k, digits-IsText ds h.1)

status_line-IsText : (r : Response) → IsText (status_line r)
status_line-IsText r = append-IsText r.version _ r.version_text (
  omega arith,
  append-IsText (r.digit ∷ r.digits) _ (digits-IsText (r.digit ∷ r.digits) r.are_digits)
      (omega arith, append-IsText r.reason _ r.reason_text r.more_text),
)

status_line-in_line : (r : Response) → All (λ c. in_line c ≡ true) (status_line r)
status_line-in_line r = append_in_line r.version _ (solid_word r.version r.version_word) (
  refl,
  append_in_line (r.digit ∷ r.digits) _ (digits_in_line (r.digit ∷ r.digits) r.are_digits)
      (refl, append_in_line r.reason _ (solid_word r.reason r.reason_word) r.more_in_line),
)

read_payload-response :
    (r : Response) (hs : List Header) (body : Bytes)
    → read_payload (status_line r ++ b'\r' ∷ b'\n' ∷ print_headers hs body) false
      ≡ some (some (response_of r, map member_of hs))
read_payload-response r hs body =
    let rest = b'\n' ∷ print_headers hs body in
    payload_of false (status_line r) rest (status_line-in_line r)
    ∙ (first_status r.version _ (b'\r' ∷ rest) r.version_word
        ∙ rw (c_string-IsText (status_line r) (status_line-IsText r), status_line-read r)
            (parsed_headers (response_of r) hs body))

-- A written response, whose first line is a word, digits and a reason phrase and whose headers
-- have no ':' in their names and no white space before their values, all without a NUL or an end
-- of line, is read back: its version, its code as an `int` and the first word of its reason
-- phrase, each where it is UTF-8, and under each lower-case name the value of the last of its
-- headers with that name, of those that are UTF-8.
pub nblex_parse_http_payload-response :
    (utf8 : Bytes → Bool) (r : Response) (hs : List Header) (body : Bytes)
    → (headers : Object Bytes) × (nblex_parse_http_payload utf8
          (status_line r ++ b'\r' ∷ b'\n' ∷ print_headers hs body)
          false
        ≡ some (some (kept_members utf8 (response_of r), headers)))
      × ((name : Bytes) → member name headers ≡ last_of name (kept_headers utf8 (map member_of hs)))
unfolding nblex_parse_http_payload kept_object
nblex_parse_http_payload-response utf8 r hs body = (
  set_members [] (kept_headers utf8 (map member_of hs)),
  rw (read_payload-response r hs body) refl,
  λ name. member-last_of name (kept_headers utf8 (map member_of hs)),
)

-- ===== src/Http/Lines.antt =====
-- src/parsers/http_parser.c: the loop over the lines of the headers, and what it makes of lines
-- as they are written.
use nblex.Base.{
  ℕ, zero, suc, ◌≤◌, ◌<◌, ◌≡◌, ◌≢◌, refl, ap, ◌∙◌, arith, true, false, Option, some, List, [], ◌∷◌,
  ◌++◌, length, length-append, map, All, All-append, Bool-cases, inl, inr,
}
use nblex.Filter.Parse.{at_char}
use nblex.Http.{
  in_line, skip_eol, not_colon, header_at, header_of, with_header, header_line, headers_loop,
  parse_http_headers,
}
use nblex.Text.{Bytes, isspace, tolower, IsText, c_string-IsText}
use nblex.Text.Scan.{span_take, span_drop, span_take-append, span_drop-append, length-span_drop-le}

length-skip_eol-le : (s : Bytes) → length (skip_eol s) ≤ length s
unfolding skip_eol at_char
length-skip_eol-le [] = omega arith
length-skip_eol-le (c ∷ []) = ground arith
length-skip_eol-le (c ∷ d ∷ s) = ground arith

any_line :
    (line : Bytes) (more : Option (List (Bytes × Bytes)))
    → (line ≢ [] → (r : List (Bytes × Bytes)) × (more ≡ some r))
    → (r : List (Bytes × Bytes)) × (header_line line more ≡ some r)
unfolding header_line
any_line [] more h = ([], refl)
any_line (c ∷ s) more h = let (r, e) = h (λ p. cc) in (with_header (header_of (c ∷ s)) r, rw e refl)

-- the line that begins at a place is not empty, so its end is further on
behind_line-lt :
    (c : ℕ) (s : Bytes)
    → span_take in_line (c ∷ s) ≢ []
    → length (span_drop in_line (c ∷ s)) ≤ length s
unfolding span_take span_drop
behind_line-lt c s h = elim (Bool-cases (in_line c)) [
  | inl e ↦ rw e (length-span_drop-le in_line s)
  | inr e ↦ absurd (h (rw e refl))
]

headers_loop-ends :
    (f : ℕ) (s : Bytes) → length s < f → (r : List (Bytes × Bytes)) × (headers_loop f s ≡ some r)
unfolding headers_loop
headers_loop-ends zero s h = absurd (omega arith)
headers_loop-ends (suc f) [] h = ([], refl)
headers_loop-ends (suc f) (c ∷ s) h =
    any_line (span_take in_line (c ∷ s)) (headers_loop f (skip_eol (span_drop in_line (c ∷ s))))
      λ line.
        headers_loop-ends f (skip_eol (span_drop in_line (c ∷ s))) (
          omega (arith, h, behind_line-lt c s line, length-skip_eol-le (span_drop in_line (c ∷ s))))

-- The loop over the headers ends: every round passes over a character.
pub parse_http_headers-ends :
    (s : Bytes) → (r : List (Bytes × Bytes)) × (parse_http_headers s ≡ some r)
unfolding parse_http_headers
parse_http_headers-ends s = headers_loop-ends (suc (length s)) s (omega arith)

abbrev StartsSolid : Bytes → Type 0
StartsSolid [] = Unit
StartsSolid (c ∷ s) = isspace c ≡ false

-- a name and a value that a header line can hold
pub record Header : Type 0 where
  pub name : Bytes
  pub value : Bytes
  pub name_in_line : All (λ c. in_line c ≡ true) name
  pub no_colon : All (λ c. not_colon c ≡ true) name
  pub name_text : IsText name
  pub value_in_line : All (λ c. in_line c ≡ true) value
  pub value_solid : StartsSolid value
  pub value_text : IsText value

abbrev pub line_of : Header → Bytes
line_of h = h.name ++ b':' ∷ b' ' ∷ h.value

-- the lines of the headers, the empty line and the body
unfoldable pub print_headers : List Header → Bytes → Bytes
print_headers [] body = b'\r' ∷ b'\n' ∷ body
print_headers (h ∷ hs) body = line_of h ++ b'\r' ∷ b'\n' ∷ print_headers hs body

-- what is kept of a header: the name in lower case
abbrev pub member_of : Header → Bytes × Bytes
member_of h = (map tolower h.name, h.value)

tolower-IsText : (s : Bytes) → IsText s → IsText (map tolower s)
tolower-IsText [] h = tt
tolower-IsText (c ∷ s) h = let k : c ≢ 0 = h.0 in (ground (arith, k), tolower-IsText s h.1)

skip_solid : (s : Bytes) → StartsSolid s → span_drop isspace s ≡ s
unfolding span_drop
skip_solid [] h = refl
skip_solid (c ∷ s) h = rw h refl

header_of-line_of : (h : Header) → header_of (line_of h) ≡ some (member_of h)
unfolding header_of header_at span_take span_drop
header_of-line_of h =
    rw
      (
        span_take-append not_colon h.name (b':' ∷ b' ' ∷ h.value) h.no_colon refl,
        span_drop-append not_colon h.name (b':' ∷ b' ' ∷ h.value) h.no_colon refl,
        c_string-IsText (map tolower h.name) (tolower-IsText h.name h.name_text),
        skip_solid h.value h.value_solid,
        c_string-IsText h.value h.value_text,
      )
      refl

header_line-some :
    (name v : Bytes) (c : ℕ) (more : List (Bytes × Bytes))
    → header_line (name ++ c ∷ v) (some more) ≡ some (with_header (header_of (name ++ c ∷ v)) more)
unfolding header_line
header_line-some [] v c more = refl
header_line-some (x ∷ name) v c more = refl

headers_loop-round :
    (f : ℕ) (s : Bytes)
    → headers_loop (suc f) s
      ≡ header_line (span_take in_line s) (headers_loop f (skip_eol (span_drop in_line s)))
unfolding headers_loop header_line span_take
headers_loop-round f [] = refl
headers_loop-round f (c ∷ s) = refl

line-in_line : (h : Header) → All (λ c. in_line c ≡ true) (line_of h)
line-in_line h =
    All-append (λ c. in_line c ≡ true) h.name (b':' ∷ b' ' ∷ h.value) h.name_in_line
      (refl, (refl, h.value_in_line))

no_line : (more : Option (List (Bytes × Bytes))) → header_line [] more ≡ some []
unfolding header_line
no_line more = refl

pub skip_crlf : (t : Bytes) → skip_eol (b'\r' ∷ b'\n' ∷ t) ≡ t
unfolding skip_eol at_char
skip_crlf t = refl

headers_loop-print :
    (hs : List Header) (body : Bytes) (f : ℕ)
    → length hs < f
    → headers_loop f (print_headers hs body) ≡ some (map member_of hs)
unfolding print_headers span_take span_drop
headers_loop-print hs body zero k = absurd (omega arith)
headers_loop-print [] body (suc f) k = headers_loop-round f (b'\r' ∷ b'\n' ∷ body) ∙ no_line _
headers_loop-print (h ∷ hs) body (suc f) k =
    let rest = print_headers hs body in
    rw
      (
        headers_loop-round f (line_of h ++ b'\r' ∷ b'\n' ∷ rest),
        span_take-append in_line (line_of h) (b'\r' ∷ b'\n' ∷ rest) (line-in_line h) refl,
        span_drop-append in_line (line_of h) (b'\r' ∷ b'\n' ∷ rest) (line-in_line h) refl,
        skip_crlf rest,
        headers_loop-print hs body f (omega arith),
      )
      (header_line-some h.name (b' ' ∷ h.value) b':' (map member_of hs)
        ∙ ap (λ m. some (with_header m (map member_of hs))) (header_of-line_of h))

length-print_headers-le :
    (hs : List Header) (body : Bytes) → length hs ≤ length (print_headers hs body)
unfolding print_headers
length-print_headers-le [] body = omega arith
length-print_headers-le (h ∷ hs) body =
    let l = length-append (line_of h) (b'\r' ∷ b'\n' ∷ print_headers hs body) in
    omega (arith, l, length-print_headers-le hs body)

-- Written headers are read back, with their names in lower case.
pub parse_http_headers-print :
    (hs : List Header) (body : Bytes)
    → parse_http_headers (print_headers hs body) ≡ some (map member_of hs)
unfolding parse_http_headers
parse_http_headers-print hs body =
    headers_loop-print hs body (suc (length (print_headers hs body)))
      (omega (arith, length-print_headers-le hs body))

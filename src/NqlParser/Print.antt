-- ===== src/NqlParser/Print.antt =====
-- Queries as they are written: the stages of a pipeline with a bar between each two, a correlation
-- with its filters and its window in order, a duration with its unit behind its digits. What is
-- written goes in front of `tail`.
use nblex.Base.{
  ℕ, ◌*◌, ◌%◌, ◌^◌, ◌==◌, ◌||◌, ◌≡◌, Bool, true, false, not, Option, none, some, List, [], ◌∷◌,
  ◌++◌, All, if◌then◌else◌,
}
use nblex.Filter.{FilterNode}
use nblex.Filter.Parse.{nblex_filter_new}
use nblex.NqlParser.Query.{Stage, filter, correlate, default_within_ms}
use nblex.NqlParser.Segment.Free.{IsExpression}
use nblex.Runtime.{Runtime}
use nblex.Text.{Bytes, codes, isdigit, tolower}
use nblex.Text.Number.{clamp_ull, digits_value}

pub data TimeUnit : Type 0 where
  milliseconds seconds minutes hours : TimeUnit

abbrev pub unit_text : TimeUnit → Bytes
unit_text milliseconds = codes "ms"
unit_text seconds = codes "s"
unit_text minutes = codes "m"
unit_text hours = codes "h"

abbrev pub unit_ms : TimeUnit → ℕ
unit_ms milliseconds = 1
unit_ms seconds = 1000
unit_ms minutes = 60 * 1000
unit_ms hours = 60 * 60 * 1000

pub record Duration : Type 0 where
  pub first : ℕ
  pub more : Bytes
  pub unit : TimeUnit
  pub are_digits : All (λ c. isdigit c ≡ true) (first ∷ more)

abbrev pub print_duration : Duration → Bytes → Bytes
print_duration d tail = d.first ∷ d.more ++ (unit_text d.unit ++ tail)

-- uint64_t: a number that is too large is ULLONG_MAX, and the product wraps
unfoldable pub duration_ms : Duration → ℕ
unfolding clamp_ull digits_value
duration_ms d = clamp_ull false (digits_value 0 (d.first ∷ d.more)) * unit_ms d.unit % 2 ^ 64

-- the window of a correlation: one of zero and none at all are the default
unfoldable pub within_of : Option Duration → ℕ
unfolding duration_ms
within_of none = default_within_ms
within_of (some d) = if duration_ms d == 0 then default_within_ms else duration_ms d

abbrev pub print_within : Option Duration → Bytes → Bytes
print_within none tail = tail
print_within (some d) tail = codes " within " ++ print_duration d tail

-- whether no other kind of query begins with this letter
abbrev pub is_unclaimed : Bytes → Bool
is_unclaimed [] = false
is_unclaimed (c ∷ s) =
    not (tolower c == b'c' || (tolower c == b'a' || (tolower c == b's' || c == b'*')))

module _ {J R X : Type 0} (rt : Runtime J R X) where
  -- a filter expression that the filter engine reads
  pub record Expression : Type 0 where
    pub text : Bytes
    pub root : Option (FilterNode R X)
    pub is_expression : IsExpression text
    pub parsed : nblex_filter_new rt (some text) ≡ some root

  pub data Clause : Type 0 where
    filtering : (e : Expression) → is_unclaimed e.text ≡ true → Clause
    correlating : Expression → Expression → Option Duration → Clause

  abbrev pub print_clause : Clause → Bytes → Bytes
  print_clause (filtering e u) tail = e.text ++ tail
  print_clause (correlating l r d) tail =
      codes "correlate " ++ (l.text ++ (codes " with " ++ (r.text ++ print_within d tail)))

  abbrev pub stage_of : Clause → Stage R X
  stage_of (filtering e u) = filter e.root
  stage_of (correlating l r d) =
      correlate
        (record { left_filter = some l.root; right_filter = some r.root; within_ms = within_of d })

  unfoldable pub print_more : List Clause → Bytes
  print_more [] = []
  print_more (c ∷ cs) = codes " | " ++ print_clause c (print_more cs)

  abbrev pub print_pipeline : Clause → List Clause → Bytes
  unfolding print_more
  print_pipeline c cs = print_clause c (print_more cs)

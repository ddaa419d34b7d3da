-- ===== src/NqlParser/Total.antt =====
-- The parser ends for every text: with a query, or with one message.
use nblex.Base.{
  ℕ, ◌≤◌, ◌<◌, arith, Option, none, some, [], ◌∷◌, ◌==◌, length, length-drop, drop, if◌then◌else◌,
  Bool-cases, inl, inr, ◌&&◌,
}
use nblex.Filter.Parse.{skip_space, at_char}
use nblex.NqlParser.{
  Reply, ok, failed, out_of_fuel, ◌>>=◌, branch, consume_char, match_keyword, ends_word, expect,
  parse_identifier, identifier_at, is_name_char, is_name_start, parse_unit, parse_duration,
  duration_of, scaled,
}
use nblex.Text.{Bytes, isspace, starts_with_nocase}
use nblex.Text.Number.{strtoull, strtoull-le, LeavesAtMost}
use nblex.Text.Scan.{length-span_drop-le}

-- a reply leaves at most `n` characters and has not run out of fuel
abbrev pub Leaves {ℓ} : {A : Type ℓ} → ℕ → Reply A → Type 0
Leaves n (ok (a, rest)) = length rest ≤ n
Leaves n (failed e) = Unit
Leaves n out_of_fuel = ⊥

-- a parsing function that ends for every text, and gives back no more of it
abbrev pub IsTotal {ℓ} : {A : Type ℓ} → (Bytes → Reply A) → Type 0
IsTotal item = (pos : Bytes) (n : ℕ) → length pos ≤ n → Leaves n (item pos)

pub Leaves-bind {ℓ κ} :
    {A : Type ℓ} {B : Type κ} (m n : ℕ) (r : Reply A) (f : A × Bytes → Reply B)
    → Leaves m r
    → ((a : A) (rest : Bytes) → length rest ≤ m → Leaves n (f (a, rest)))
    → Leaves n (r >>= f)
Leaves-bind m n (ok (a, rest)) f h k = k a rest h
Leaves-bind m n (failed e) f h k = tt
Leaves-bind m n out_of_fuel f h k = h

-- an optional token, and the positions behind it
abbrev pub Within : ℕ → Option Bytes → Type 0
Within n none = Unit
Within n (some rest) = length rest ≤ n

pub Leaves-branch {ℓ} :
    {A : Type ℓ} (m n : ℕ) (o : Option Bytes) (a : Reply A) (g : Bytes → Reply A)
    → Within m o
    → Leaves n a
    → ((rest : Bytes) → length rest ≤ m → Leaves n (g rest))
    → Leaves n (branch o a g)
Leaves-branch m n none a g h p q = p
Leaves-branch m n (some rest) a g h p q = q rest h

pub skip-le : (pos : Bytes) → length (skip_space pos) ≤ length pos
skip-le pos = length-span_drop-le isspace pos

-- what stands behind a character that was read is shorter
abbrev pub Below : ℕ → Option Bytes → Type 0
Below n none = Unit
Below n (some rest) = length rest < n

pub Leaves-Below {ℓ} :
    {A : Type ℓ} (m n : ℕ) (o : Option Bytes) (a : Reply A) (g : Bytes → Reply A)
    → Below m o
    → Leaves n a
    → ((rest : Bytes) → length rest < m → Leaves n (g rest))
    → Leaves n (branch o a g)
Leaves-Below m n none a g h p q = p
Leaves-Below m n (some rest) a g h p q = q rest h

drop_char :
    (c : ℕ) (s : Bytes) (n : ℕ)
    → length s ≤ n
    → Below n (if at_char c s then some (drop 1 s) else none)
unfolding at_char
drop_char c [] n h = tt
drop_char c (x ∷ s) n h = elim (Bool-cases (x == c)) [
  | inl e ↦ rw e (omega arith)
  | inr e ↦ rw e tt
]

pub consume_char-Below :
    (c : ℕ) (pos : Bytes) (n : ℕ) → length pos ≤ n → Below n (consume_char c pos)
unfolding consume_char
consume_char-Below c pos n h = drop_char c (skip_space pos) n (omega (arith, skip-le pos))

drop_char_any :
    (c : ℕ) (s : Bytes) (n : ℕ)
    → length s ≤ n
    → Within n (if at_char c s then some (drop 1 s) else none)
drop_char_any c s n h = elim (Bool-cases (at_char c s)) [
  | inl e ↦ rw e (omega (arith, length-drop 1 s))
  | inr e ↦ rw e tt
]

pub consume_char-Within :
    (c : ℕ) (pos : Bytes) (n : ℕ) → length pos ≤ n → Within n (consume_char c pos)
unfolding consume_char
consume_char-Within c pos n h = drop_char_any c (skip_space pos) n (omega (arith, skip-le pos))

pub match_keyword-Within : (k pos : Bytes) (n : ℕ) → length pos ≤ n → Within n (match_keyword k pos)
unfolding match_keyword
match_keyword-Within k pos n h =
    let rest = drop (length k) (skip_space pos) in
    elim (Bool-cases (starts_with_nocase k (skip_space pos) && ends_word rest)) [
      | inl e ↦ rw e (omega (arith, length-drop (length k) (skip_space pos), skip-le pos))
      | inr e ↦ rw e tt
    ]

pub expect-Leaves :
    (c : ℕ) (pos message : Bytes) (n : ℕ) → length pos ≤ n → Leaves n (expect c pos message)
unfolding expect
expect-Leaves c pos message n h =
    Leaves-branch n n (consume_char c pos) (failed message) (λ rest. ok (tt, rest))
      (consume_char-Within c pos n h) tt (λ rest le. le)

identifier_at-Leaves :
    (message s : Bytes) (n : ℕ) → length s ≤ n → Leaves n (identifier_at message s)
unfolding identifier_at
identifier_at-Leaves message [] n h = tt
identifier_at-Leaves message (c ∷ s) n h = elim (Bool-cases (is_name_start c)) [
  | inl e ↦ rw e (omega (arith, length-span_drop-le is_name_char (c ∷ s)))
  | inr e ↦ rw e tt
]

pub parse_identifier-Leaves :
    (message pos : Bytes) (n : ℕ) → length pos ≤ n → Leaves n (parse_identifier message pos)
unfolding parse_identifier
parse_identifier-Leaves message pos n h =
    identifier_at-Leaves message (skip_space pos) n (omega (arith, skip-le pos))

parse_unit-Leaves : (s : Bytes) (n : ℕ) → length s ≤ n → Leaves n (parse_unit s)
unfolding parse_unit
parse_unit-Leaves s n h = ground (arith, length-drop 1 s, length-drop 2 s)

duration_of-Leaves : (o : Option (ℕ × Bytes)) (n : ℕ) → LeavesAtMost n o → Leaves n (duration_of o)
unfolding duration_of scaled
duration_of-Leaves none n h = tt
duration_of-Leaves (some (v, rest)) n h =
    Leaves-bind n n (parse_unit (skip_space rest)) _
      (parse_unit-Leaves (skip_space rest) n (omega (arith, skip-le rest))) (λ m rest le. le)

pub parse_duration-Leaves : (pos : Bytes) (n : ℕ) → length pos ≤ n → Leaves n (parse_duration pos)
unfolding parse_duration
parse_duration-Leaves pos n h =
    duration_of-Leaves (strtoull (skip_space pos)) n
      (strtoull-le (skip_space pos) n (omega (arith, skip-le pos)))

-- ===== src/Text/Word.antt =====
-- Words: runs of characters that are no white space, as most of the parsers take them from a
-- line, and the white space between them.
use nblex.Base.{
  if◌then◌else◌, ℕ, ◌≡◌, refl, arith, Bool, true, false, not, Option, none, some, [], ◌∷◌, ◌++◌,
  All,
}
use nblex.Text.{Bytes, isspace}
use nblex.Text.Scan.{span_take, span_drop, span_take-append, span_drop-append}

abbrev pub is_solid : ℕ → Bool
is_solid c = not (isspace c)

-- a text that is set only where it is not empty
abbrev pub unless_empty : Bytes → Option Bytes
unless_empty [] = none
unless_empty (c ∷ s) = some (c ∷ s)

-- jansson takes no text that is not UTF-8: its member is not set
abbrev pub kept : (Bytes → Bool) → Option Bytes → Option Bytes
kept utf8 none = none
kept utf8 (some s) = if utf8 s then some s else none

-- a word is not empty
abbrev pub IsWord : Bytes → Type 0
IsWord [] = ⊥
IsWord (c ∷ s) = All (λ c. is_solid c ≡ true) (c ∷ s)

-- the text behind a word: nothing, or white space first
abbrev pub IsBehindWord : Bytes → Type 0
IsBehindWord [] = Unit
IsBehindWord (c ∷ t) = isspace c ≡ true

behind_take : (t : Bytes) → IsBehindWord t → span_take is_solid t ≡ []
unfolding span_take
behind_take [] h = refl
behind_take (c ∷ t) h = rw h refl

behind_drop : (t : Bytes) → IsBehindWord t → span_drop is_solid t ≡ t
unfolding span_drop
behind_drop [] h = refl
behind_drop (c ∷ t) h = rw h refl

all_solid : (w : Bytes) → IsWord w → All (λ c. is_solid c ≡ true) w
all_solid [] h = absurd h
all_solid (c ∷ w) h = h

-- A word in front of white space or the end is taken, and what is behind it left.
pub take_word : (w t : Bytes) → IsWord w → IsBehindWord t → span_take is_solid (w ++ t) ≡ w
take_word w t h b = span_take-append is_solid w t (all_solid w h) (behind_take t b)

pub drop_word : (w t : Bytes) → IsWord w → IsBehindWord t → span_drop is_solid (w ++ t) ≡ t
drop_word w t h b = span_drop-append is_solid w t (all_solid w h) (behind_drop t b)

pub word_is_set : (w : Bytes) → IsWord w → unless_empty w ≡ some w
word_is_set [] h = absurd h
word_is_set (c ∷ w) h = refl

-- The white space in front of a word is skipped.
pub skip_to_word : (w t : Bytes) → IsWord w → span_drop isspace (w ++ t) ≡ w ++ t
unfolding span_drop
skip_to_word [] t h = absurd h
skip_to_word (c ∷ w) t h = let solid : isspace c ≡ false = ground (arith, h.0) in rw solid refl

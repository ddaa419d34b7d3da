-- ===== src/FileInput/Tail.antt =====
-- src/input/file_input.c: what is made of a file that grows, over the calls of file_read_new_data.
use nblex.Base.{
  ℕ, zero, suc, ◌-◌, ◌<◌, ◌≡◌, ◌≢◌, refl, sym, ◌∙◌, arith, Bool, true, false, not, Option, none,
  some, List, [], ◌∷◌, ◌++◌, length, length-append, drop, if◌then◌else◌,
}
use nblex.FileInput.{
  buffer_size, fgets_take, fgets_drop, line_in, Parsed, Parsers, take_line, read_loop, FileInput,
  may_read, at_end, read_to_end, file_read_new_data,
}
use nblex.Input.{LogFormat, format_logfmt}
use nblex.Text.{Bytes}
use nblex.Text.Scanf.{◌>>=◌}
use nblex.FileInput.Lines.{Text, print_lines, fgets_drop-lt, data_of-ends}
use nblex.FileInput.Rounds.{take_lines, read_loop-round, read_loop-stop, read_lines}

-- what is written between one call and the next: some lines
pub record Batch : Type 0 where
  pub lines : List Text
  pub some_lines : lines ≢ []

abbrev pub all_lines : List Batch → List Text
all_lines [] = []
all_lines (b ∷ bs) = b.lines ++ all_lines bs

any_branch :
    {A : Type 0} (a b : Bool) (x z : A) (y : Option A)
    → (r : A) × (y ≡ some r)
    → (r : A) × ((if a then some x else if b then y else some z) ≡ some r)
any_branch true b x z y h = (x, refl)
any_branch false true x z y h = h
any_branch false false x z y h = (z, refl)

module _ {J R X W : Type 0} (ps : Parsers J R X) (emit : Parsed J R → W → W)
    (format : LogFormat) where
  -- the calls, each after its batch was written
  abbrev pub polls : Bytes → List Batch → FileInput → W → Option (FileInput × W)
  polls old [] d w = some (d, w)
  polls old (b ∷ bs) d w =
      let content = old ++ print_lines b.lines in
      file_read_new_data ps emit format (some (length content)) content d w >>= λ (d', w').
      polls content bs d' w'

  take_lines-append :
      (ls ms : List Text) (w : W)
      → take_lines ps emit format (ls ++ ms) w
        ≡ take_lines ps emit format ls w >>= take_lines ps emit format ms
  unfolding take_lines
  take_lines-append [] ms w = refl
  take_lines-append (l ∷ ls) ms w = go (take_line ps emit format l.text w) (take_lines-append ls ms)
    where
      go :
          (x : Option W)
          → ((w' : W)
              → take_lines ps emit format (ls ++ ms) w'
                ≡ take_lines ps emit format ls w' >>= take_lines ps emit format ms)
          → x >>= take_lines ps emit format (ls ++ ms)
            ≡ (x >>= take_lines ps emit format ls) >>= take_lines ps emit format ms
      go none h = refl
      go (some w') h = h w'

  -- what the events have made of the world
  abbrev pub world_of : Option (FileInput × W) → Option W
  world_of none = none
  world_of (some (d, w)) = some w

  -- one call, and what comes after it
  call_then :
      (n : ℕ) (d : FileInput) (taken : Option W) (next : FileInput × W → Option (FileInput × W))
      (spec : W → Option W)
      → ((w : W) → world_of (next (at_end n d, w)) ≡ spec w)
      → world_of (read_to_end n d taken >>= next) ≡ taken >>= spec
  unfolding read_to_end
  call_then n d none next spec h = refl
  call_then n d (some w) next spec h = h w

  at_end-position :
      (old new : Bytes) (d : FileInput)
      → d.position ≡ length old
      → (at_end (length new) d).position ≡ length (old ++ new)
  unfolding at_end
  at_end-position old new d at = omega (arith, length-append old new, at)

  at_end-file : (n : ℕ) (d : FileInput) → (at_end n d).file ≡ d.file
  unfolding at_end
  at_end-file n d = refl

  -- However the lines of a file are spread over the calls, the events are those of the lines, one
  -- for each that is not empty, in order, when every call finds whole lines written.
  pub polls-print_lines :
      (old : Bytes) (bs : List Batch) (d : FileInput) (w : W)
      → d.file ≡ true
      → d.position ≡ length old
      → world_of (polls old bs d w) ≡ take_lines ps emit format (all_lines bs) w
  unfolding take_lines
  polls-print_lines old [] d w is_open at = refl
  polls-print_lines old (b ∷ bs) d w is_open at =
      let new = print_lines b.lines in
      let content = old ++ new in
      rw (read_lines ps emit format old b.lines d w is_open at b.some_lines) (
        call_then (length new) d (take_lines ps emit format b.lines w) _
          (take_lines ps emit format (all_lines bs))
          (λ w'.
            polls-print_lines content bs (at_end (length new) d) w'
              (at_end-file (length new) d ∙ is_open) (at_end-position old new d at))
        ∙ sym (take_lines-append b.lines (all_lines bs) w))

  -- A parser that always ends, as all but the logfmt parser do, makes the reading end.
  taken-ends :
      (b : Bytes) (w : W)
      → format ≢ format_logfmt
      → (w' : W) × (take_line ps emit format b w ≡ some w')
  unfolding take_line
  taken-ends [] w h = (w, refl)
  taken-ends (c ∷ b) w h = let (r, e) = data_of-ends ps format (c ∷ b) h in rw e (emit r w, refl)

  read_loop-ends :
      (f : ℕ) (s : Bytes) (w : W)
      → length s < f
      → format ≢ format_logfmt
      → (w' : W) × (read_loop ps emit format f s w ≡ some w')
  read_loop-ends zero s w k h = absurd (omega arith)
  read_loop-ends (suc f) [] w k h = (w, read_loop-stop ps emit format f w)
  read_loop-ends (suc f) (c ∷ s) w k h =
      let (w1, e1) = taken-ends (line_in (fgets_take (buffer_size - 1) (c ∷ s))) w h in
      let (w2, e2) =
        read_loop-ends f (fgets_drop (buffer_size - 1) (c ∷ s)) w1
          (omega (arith, k, fgets_drop-lt 4094 c s)) h in
      (w2, read_loop-round ps emit format f c s w ∙ rw e1 e2)

  -- Whatever the file holds, a call returns, unless the format is logfmt.
  pub file_read_new_data-ends :
      (st : Option ℕ) (content : Bytes) (d : FileInput) (w : W)
      → format ≢ format_logfmt
      → (r : FileInput × W) × (file_read_new_data ps emit format st content d w ≡ some r)
  unfolding file_read_new_data read_to_end
  file_read_new_data-ends st content d w h =
      let s = drop d.position content in
      let (w', e) = read_loop-ends (suc (length s)) s w (omega arith) h in
      any_branch (not d.file) (may_read st d) (d, w) (d, w) _
        (rw e ((at_end (length s) d, w'), refl))

-- ===== src/FileInput/Rounds.antt =====
-- src/input/file_input.c: the rounds of the loop over the lines, and a call behind what was read.
use nblex.Base.{
  ℕ, zero, suc, ◌-◌, ◌<◌, ◌≡◌, ◌≢◌, refl, sym, ap, ◌∙◌, arith, true, Option, some, List, [], ◌∷◌,
  ◌++◌, length, length-append, drop-append,
}
use nblex.FileInput.{
  buffer_size, fgets_take, fgets_drop, line_in, Parsed, Parsers, take_line, read_loop, FileInput,
  read_to_end, file_read_new_data,
}
use nblex.Input.{LogFormat}
use nblex.Text.{Bytes}
use nblex.Text.Scanf.{◌>>=◌}
use nblex.FileInput.Lines.{
  Text, print_lines, fgets_take-line, fgets_drop-line, fgets_take-end, fgets_drop-end, line_in-Text,
  line_in-end, bind_same, bind_some, grown, print_lines-ne_nil,
}

module _ {J R X W : Type 0} (ps : Parsers J R X) (emit : Parsed J R → W → W)
    (format : LogFormat) where
  -- one event after another, for the lines that are not empty
  unfoldable pub take_lines : List Text → W → Option W
  take_lines [] w = some w
  take_lines (l ∷ ls) w = take_line ps emit format l.text w >>= take_lines ls

  pub read_loop-round :
      (f c : ℕ) (s : Bytes) (w : W)
      → read_loop ps emit format (suc f) (c ∷ s) w
        ≡ take_line ps emit format (line_in (fgets_take (buffer_size - 1) (c ∷ s))) w
          >>= read_loop ps emit format f (fgets_drop (buffer_size - 1) (c ∷ s))
  unfolding read_loop
  read_loop-round f c s w = refl

  -- the round of a whole line
  read_loop-line :
      (f : ℕ) (l : Text) (s : Bytes) (w : W)
      → read_loop ps emit format (suc f) (l.text ++ b'\n' ∷ s) w
        ≡ take_line ps emit format l.text w >>= read_loop ps emit format f s
  read_loop-line f l s w =
      cons l.text refl
      ∙ rw
          (
            fgets_take-line (buffer_size - 1) l.text s l.one_line l.short,
            fgets_drop-line (buffer_size - 1) l.text s l.one_line l.short,
            line_in-Text l,
          )
          refl
    where
      cons :
          (t : Bytes)
          → t ≡ l.text
          → read_loop ps emit format (suc f) (l.text ++ b'\n' ∷ s) w
            ≡ take_line ps emit format
                (line_in (fgets_take (buffer_size - 1) (l.text ++ b'\n' ∷ s)))
                w
              >>= read_loop ps emit format f (fgets_drop (buffer_size - 1) (l.text ++ b'\n' ∷ s))
      cons [] e = rw (← e) (read_loop-round f b'\n' s w)
      cons (c ∷ t) e = rw (← e) (read_loop-round f c (t ++ b'\n' ∷ s) w)

  pub read_loop-stop : (f : ℕ) (w : W) → read_loop ps emit format (suc f) [] w ≡ some w
  unfolding read_loop
  read_loop-stop f w = refl

  read_loop-lines :
      (f : ℕ) (ls : List Text) (w : W)
      → length (print_lines ls) < f
      → read_loop ps emit format f (print_lines ls) w ≡ take_lines ls w
  unfolding print_lines take_lines
  read_loop-lines zero ls w k = absurd (omega arith)
  read_loop-lines (suc f) [] w k = read_loop-stop f w
  read_loop-lines (suc f) (l ∷ ls) w k =
      let n = length-append l.text (b'\n' ∷ print_lines ls) in
      read_loop-line f l (print_lines ls) w
      ∙ bind_same (take_line ps emit format l.text w) _ _
          λ w'. read_loop-lines f ls w' (omega (arith, k, n))

  -- a line whose end is not written yet
  pub read_loop-part :
      (f : ℕ) (l : Text) (w : W)
      → 1 < f
      → l.text ≢ []
      → read_loop ps emit format f l.text w ≡ take_line ps emit format l.text w
  read_loop-part zero l w k h = absurd (omega arith)
  read_loop-part (suc zero) l w k h = absurd (omega arith)
  read_loop-part (suc (suc f)) l w k h =
      cons l.text refl
      ∙ rw
          (
            fgets_take-end (buffer_size - 1) l.text l.one_line l.short,
            fgets_drop-end (buffer_size - 1) l.text l.one_line l.short,
            line_in-end l,
          )
          (bind_same (take_line ps emit format l.text w) _ some (read_loop-stop f)
            ∙ bind_some (take_line ps emit format l.text w))
    where
      cons :
          (t : Bytes)
          → t ≡ l.text
          → read_loop ps emit format (suc (suc f)) l.text w
            ≡ take_line ps emit format (line_in (fgets_take (buffer_size - 1) l.text)) w
              >>= read_loop ps emit format (suc f) (fgets_drop (buffer_size - 1) l.text)
      cons [] e = absurd (h (sym e))
      cons (c ∷ t) e = rw (← e) (read_loop-round (suc f) c t w)

  -- the call with the stream at `old`, when `new` has been written behind it
  pub read_behind :
      (old new : Bytes) (d : FileInput) (w : W)
      → d.file ≡ true
      → d.position ≡ length old
      → new ≢ []
      → file_read_new_data ps emit format (some (length (old ++ new))) (old ++ new) d w
        ≡ read_to_end (length new) d (read_loop ps emit format (suc (length new)) new w)
  unfolding file_read_new_data
  read_behind old new d w is_open at h = rw (at, drop-append old new, is_open, grown old new h) refl

  -- Whole lines that were written behind the position of the stream are taken one after another,
  -- and the stream is at their end.
  pub read_lines :
      (old : Bytes) (ls : List Text) (d : FileInput) (w : W)
      → d.file ≡ true
      → d.position ≡ length old
      → ls ≢ []
      → file_read_new_data ps emit format
          (some (length (old ++ print_lines ls)))
          (old ++ print_lines ls)
          d
          w
        ≡ read_to_end (length (print_lines ls)) d (take_lines ls w)
  read_lines old ls d w is_open at h =
      read_behind old (print_lines ls) d w is_open at (print_lines-ne_nil ls h)
      ∙ ap (read_to_end (length (print_lines ls)) d)
          (read_loop-lines (suc (length (print_lines ls))) ls w (omega arith))

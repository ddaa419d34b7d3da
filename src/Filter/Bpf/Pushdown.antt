-- ===== src/Filter/Bpf/Pushdown.antt =====
-- The BPF text against its specification: the conjuncts of the filter that have a BPF form.
use nblex.Base.{
  true, false, List, [], ◌∷◌, ◌++◌, Option, none, some, ◌≡◌, refl, ap, take-take-append, ◌-◌,
  if◌then◌else◌,
}
use nblex.Filter.{FilterNode, and_node, or_node, not_node, expr_node}
use nblex.Filter.Bpf.{
  Buffer, fit, bpf_size, add_predicate, add_extracted, extract_bpf_from_expr, extract_bpf_recursive,
  nblex_filter_to_bpf,
}
use nblex.Runtime.{Runtime}
use nblex.Text.{Bytes, codes}

-- the predicates joined by " and ", in front of `done`
abbrev pub joined_onto : Bytes → List Bytes → Bytes
joined_onto done [] = done
joined_onto done (p ∷ ps) = joined_onto (done ++ (codes " and " ++ p)) ps

abbrev pub joined : List Bytes → Option Bytes
joined [] = none
joined (p ∷ ps) = some (fit bpf_size (joined_onto p ps))

abbrev add_all : Buffer → List Bytes → Buffer
add_all b [] = b
add_all b (p ∷ ps) = add_all (add_predicate b p) ps

add_all-append :
    (b : Buffer) (ps qs : List Bytes) → add_all b (ps ++ qs) ≡ add_all (add_all b ps) qs
add_all-append b [] qs = refl
add_all-append b (p ∷ ps) qs = add_all-append (add_predicate b p) ps qs

abbrev filled : Bytes → Buffer
filled s = record { text = fit bpf_size s; has_content = true }

add_predicate-filled :
    (s p : Bytes) → add_predicate (filled s) p ≡ filled (s ++ (codes " and " ++ p))
unfolding add_predicate
add_predicate-filled s p = ap filled' (take-take-append (bpf_size - 1) s (codes " and " ++ p))
  where
    filled' : Bytes → Buffer
    filled' t = record { text = t; has_content = true }

add_all-filled : (ps : List Bytes) (s : Bytes) → add_all (filled s) ps ≡ filled (joined_onto s ps)
add_all-filled [] s = refl
add_all-filled (p ∷ ps) s = rw (add_predicate-filled s p) (add_all-filled ps _)

abbrev pub to_list : Option Bytes → List Bytes
to_list none = []
to_list (some p) = p ∷ []

module _ {J R X : Type 0} (rt : Runtime J R X) where
  -- The predicates of the comparisons under AND alone.
  abbrev pub texts : FilterNode R X → List Bytes
  texts (and_node l r) = texts l ++ texts r
  texts (or_node l r) = []
  texts (not_node n) = []
  texts (expr_node e) = to_list (extract_bpf_from_expr rt e)

  add_extracted-add_all :
      (b : Buffer) (o : Option Bytes) → add_extracted rt b o ≡ add_all b (to_list o)
  unfolding add_extracted
  add_extracted-add_all b none = refl
  add_extracted-add_all b (some p) = refl

  extract-add_all :
      (n : FilterNode R X) (b : Buffer) → extract_bpf_recursive rt n b ≡ add_all b (texts n)
  unfolding extract_bpf_recursive
  extract-add_all (and_node l r) b =
      rw (add_all-append b (texts l) (texts r), extract-add_all l b) (extract-add_all r _)
  extract-add_all (or_node l r) b = refl
  extract-add_all (not_node n) b = refl
  extract-add_all (expr_node e) b = add_extracted-add_all b (extract_bpf_from_expr rt e)

  -- The BPF text is the pushed predicates, in the order of the filter, joined by " and " and cut
  -- to what the buffer holds; it is NULL exactly when there are none.
  pub nblex_filter_to_bpf-joined :
      (n : FilterNode R X) → nblex_filter_to_bpf rt (some (some n)) ≡ joined (texts n)
  unfolding nblex_filter_to_bpf
  nblex_filter_to_bpf-joined n = rw (extract-add_all n _) (from_empty (texts n))
    where
      from_empty :
          (ps : List Bytes)
          → (if (add_all (record { text = []; has_content = false }) ps).has_content
              then some (add_all (record { text = []; has_content = false }) ps).text
              else none)
            ≡ joined ps
      from_empty [] = refl
      from_empty (p ∷ ps) = unfold add_predicate in rw (add_all-filled ps p)

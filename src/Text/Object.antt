-- ===== src/Text/Object.antt =====
-- The JSON objects that the parsers make: association lists, each key once. A key that is set again
-- keeps its place and takes the new value, as jansson documents json_object_set_new.
use nblex.Base.{
  true, false, Option, none, some, List, [], ◌∷◌, ◌≡◌, refl, sym, ap, ◌∙◌, if◌then◌else◌,
  Bool-cases, inl, inr,
}
use nblex.Text.{Bytes, str_eq, str_eq→eq, str_eq_self}

abbrev pub Object : Type 0 → Type 0
Object A = List (Bytes × A)

unfoldable pub set_member : {A : Type 0} → Bytes → A → Object A → Object A
set_member key v [] = (key, v) ∷ []
set_member key v ((k, x) ∷ o) =
    let rest = set_member key v o in if str_eq key k then (k, v) ∷ o else (k, x) ∷ rest

-- the members set in order
unfoldable pub set_members : {A : Type 0} → Object A → List (Bytes × A) → Object A
unfolding set_member
set_members o [] = o
set_members o ((key, v) ∷ ps) = set_members (set_member key v o) ps

unfoldable pub member : {A : Type 0} → Bytes → Object A → Option A
unfolding str_eq
member key [] = none
member key ((k, x) ∷ o) = let rest = member key o in if str_eq key k then some x else rest

abbrev pub or_else : {A : Type 0} → Option A → Option A → Option A
or_else none y = y
or_else (some x) y = some x

-- the value of the last pair with this key
unfoldable pub last_of : {A : Type 0} → Bytes → List (Bytes × A) → Option A
unfolding str_eq
last_of key [] = none
last_of key ((k, x) ∷ ps) = or_else (last_of key ps) (if str_eq key k then some x else none)

or_else_assoc : {A : Type 0} (x y z : Option A) → or_else x (or_else y z) ≡ or_else (or_else x y) z
or_else_assoc none y z = refl
or_else_assoc (some x) y z = refl

or_else-none : {A : Type 0} (x : Option A) → or_else x none ≡ x
or_else-none none = refl
or_else-none (some x) = refl

one_key : (key k k' : Bytes) → str_eq key k ≡ true → str_eq key k' ≡ true → str_eq k k' ≡ false → ⊥
one_key key k k' h h' n =
    let same : k ≡ k' = sym (str_eq→eq key k h) ∙ str_eq→eq key k' h' in
    let e : str_eq k k' ≡ true = ap (str_eq k) (sym same) ∙ str_eq_self k in cc

member-set_member :
    {A : Type 0} (key k : Bytes) (v : A) (o : Object A)
    → member key (set_member k v o) ≡ or_else (if str_eq key k then some v else none) (member key o)
unfolding member set_member
member-set_member key k v [] = elim (Bool-cases (str_eq key k)) [
  | inl e ↦ rw e refl
  | inr e ↦ rw e refl
]
member-set_member key k v ((k', x) ∷ o) = elim (Bool-cases (str_eq k k')) [
  | inl e ↦
      let same : k ≡ k' = str_eq→eq k k' e in
      rw (e, same) (elim (Bool-cases (str_eq key k')) [ inl e' ↦ rw e' refl | inr e' ↦ rw e' refl ])
  | inr e ↦ rw e (elim (Bool-cases (str_eq key k')) [
    | inl e' ↦ elim (Bool-cases (str_eq key k)) [
      | inl e2 ↦ absurd (one_key key k k' e2 e' e)
      | inr e2 ↦ rw (e', e2) refl
    ]
    | inr e' ↦ rw e' (member-set_member key k v o)
  ])
]

member-set_members :
    {A : Type 0} (key : Bytes) (ps : List (Bytes × A)) (o : Object A)
    → member key (set_members o ps) ≡ or_else (last_of key ps) (member key o)
unfolding set_members last_of
member-set_members key [] o = refl
member-set_members key ((k, v) ∷ ps) o =
    member-set_members key ps (set_member k v o)
    ∙ rw (member-set_member key k v o)
        (or_else_assoc (last_of key ps) (if str_eq key k then some v else none) (member key o))

-- Of the pairs with one key, the object holds the last.
pub member-last_of :
    {A : Type 0} (key : Bytes) (ps : List (Bytes × A))
    → member key (set_members [] ps) ≡ last_of key ps
unfolding member
member-last_of key ps = member-set_members key ps [] ∙ or_else-none (last_of key ps)

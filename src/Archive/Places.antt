-- ===== src/Archive/Places.antt =====
-- The places that paths of the archive lead to.
use esignet_relay_authentica.Prelude.{
  ◌≡◌, subst, ◌≢◌, inl, inr, ◌||◌, some, List, [], ◌∷◌, ◌++◌, ◌==◌, ==_iff, All, arith, Bool-cases,
  Option-cases,
}
use esignet_relay_authentica.Text.{
  Text, txt, text_eq, is_empty, is_empty_iff, split_on, Lacks, split_on-Lacks,
}
use esignet_relay_authentica.Archive.Defs.{
  strip_prefix, Place, enter_part, drop_part, walk, local_place, place_of,
}

-- A part without a slash that names neither its own directory nor the one above.
abbrev pub IsPlain : Text → Type 0
IsPlain part = Lacks b'/' part × (part ≢ []) × (part ≢ txt ".") × (part ≢ txt "..")

-- A place under the destination, by plain parts.
abbrev pub IsUnder : Place → Place → Type 0
IsUnder destination target = (place : Place) × All IsPlain place × (target ≡ place ++ destination)

drop_part-Plain :
    (place after : Place) → All IsPlain place → drop_part place ≡ some after → All IsPlain after
drop_part-Plain [] after h e = absurd (cc e)
drop_part-Plain (part ∷ place) after h e = subst (All IsPlain) (cc e) h.1

enter_part-Plain :
    (part : Text) (place after : Place)
    → Lacks b'/' part
    → All IsPlain place
    → enter_part part place ≡ some after
    → All IsPlain after
enter_part-Plain part place after one h e = elim (Bool-cases (is_empty part || part == txt ".")) [
  | inl same ↦ subst (All IsPlain) (ground arith) h
  | inr named ↦ elim (Bool-cases (part == txt "..")) [
    | inl up ↦ drop_part-Plain place after h (ground arith)
    | inr down ↦
        let entered : part ∷ place ≡ after = ground arith in
        subst (All IsPlain) entered (
          (
            one,
            (λ z. ground (arith, is_empty_iff part, z)),
            (λ z. ground (arith, ==_iff part (txt "."), z)),
            (λ z. ground (arith, ==_iff part (txt ".."), z)),
          ),
          h,
        )
  ]
]

walk-Plain :
    (parts : List Text) (place after : Place)
    → All (Lacks b'/') parts
    → All IsPlain place
    → walk parts place ≡ some after
    → All IsPlain after
unfolding walk
walk-Plain [] place after ones h e = subst (All IsPlain) (cc e) h
walk-Plain (part ∷ parts) place after ones h e = elim (Option-cases (enter_part part place)) [
  | inl lost ↦ absurd (ground (arith, lost))
  | inr (mid, into) ↦
      walk-Plain parts mid after ones.1 (enter_part-Plain part place mid ones.0 h into)
        (rw into at e)
]

local_place-Plain :
    (path : Text) (place : Place) → local_place path ≡ some place → All IsPlain place
unfolding local_place
local_place-Plain path place e =
    walk-Plain (split_on b'/' path) [] place (split_on-Lacks b'/' path) tt (ground arith)

pub place_of-Plain :
    (prefix name : Text) (place : Place) → place_of prefix name ≡ some place → All IsPlain place
unfolding place_of
place_of-Plain prefix name place e = elim (Option-cases (strip_prefix (prefix ++ txt "/") name)) [
  | inl lost ↦ absurd (ground (arith, lost))
  | inr (relative, found) ↦ local_place-Plain relative place (rw found at e)
]

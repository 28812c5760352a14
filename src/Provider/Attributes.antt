-- ===== src/Provider/Attributes.antt =====
-- What `GetAttributes` asks the registry for, and what it releases.
use esignet_relay_authentica.Prelude.{
  ◌≡◌, refl, sym, ap, subst, ◌≢◌, ◌⊎◌, ◌↔◌, inl, inr, ◌&&◌, not, some, List, [], ◌∷◌, ◌++◌, ◌==◌,
  ==_iff, contains, contains_iff, In, Distinct, lookup, arith, Option-cases, if_elim,
}
use esignet_relay_authentica.Text.{Text, text_eq}
use esignet_relay_authentica.Config.{Config, psut_source}
use esignet_relay_authentica.Provider.Identity.{push_source, push_field, fields_from}

-- A claim whose source is a provisioned field.
abbrev pub IsSource : Config → Text → Text → Type 0
IsSource c claim source =
    (lookup claim c.claim_map ≡ some source)
    × (source ≢ psut_source)
    × In source c.breg.provisioned_fields

In-snoc : (a b : Text) (xs : List Text) → In a (xs ++ b ∷ []) ↔ (In a xs ⊎ (b ≡ a))
In-snoc a b [] = ground arith
In-snoc a b (x ∷ xs) = ground (arith, In-snoc a b xs)

Distinct-snoc : (b : Text) (xs : List Text) → Distinct xs → ¬ In b xs → Distinct (xs ++ b ∷ [])
Distinct-snoc b [] d h = (λ i. i, tt)
Distinct-snoc b (x ∷ xs) d h = (
  (λ i. elim ((In-snoc x b xs).0 i) [ inl j ↦ d.0 j | inr e ↦ h (inl (sym e)) ]),
  Distinct-snoc b xs d.1 (λ i. h (inr i)),
)

push_source_lem :
    (c : Config) (fields : List Text) (source field : Text)
    → In field (push_source c fields source) ↔ (
        In field fields
        ⊎ ((source ≡ field) × (field ≢ psut_source) × In field c.breg.provisioned_fields))
unfolding push_source
push_source_lem c fields source field =
    let new = In-snoc field source fields in
    let given = contains_iff c.breg.provisioned_fields source in
    let known = contains_iff fields source in
    let special = ==_iff source psut_source in
    if_elim
      (λ l. In field l ↔ (
        In field fields
        ⊎ ((source ≡ field) × (field ≢ psut_source) × In field c.breg.provisioned_fields)))
      (not (source == psut_source)
        && contains c.breg.provisioned_fields source
        && not (contains fields source))
      (λ t. (
        (λ i. elim (new.0 i) [
          | inl old ↦ inl old
          | inr same ↦ inr (
            same,
            subst (λ x. x ≢ psut_source) same (ground (arith, special)),
            subst (λ x. In x c.breg.provisioned_fields) same (ground (arith, given)),
          )
        ]),
        elim [ inl old ↦ new.1 (inl old) | inr (same, own, listed) ↦ new.1 (inr same) ],
      ))
      (λ f. (
        inl,
        elim [
          | inl i ↦ i
          | inr (same, own, listed) ↦
              subst (λ x. In x fields) same
                (known.0 (
                  ground (
                    arith,
                    given,
                    special,
                    subst (λ x. x ≢ psut_source) (sym same) own,
                    subst (λ x. In x c.breg.provisioned_fields) (sym same) listed,
                  )))
        ],
      ))

push_source-Distinct :
    (c : Config) (fields : List Text) (source : Text)
    → Distinct fields
    → Distinct (push_source c fields source)
unfolding push_source
push_source-Distinct c fields source d =
    if_elim Distinct
      (not (source == psut_source)
        && contains c.breg.provisioned_fields source
        && not (contains fields source))
      (λ t. Distinct-snoc source fields d (λ i. ground (arith, (contains_iff fields source).1 i)))
      (λ f. d)

-- One claim adds its source, if it has one, and no field twice.
push_field_lem :
    (c : Config) (fields : List Text) (claim source : Text)
    → In source (push_field c fields claim) ↔ (In source fields ⊎ IsSource c claim source)
unfolding push_field
push_field_lem c fields claim source = elim (Option-cases (lookup claim c.claim_map)) [
  | inl lost ↦ rw (lost, push_field) (inl, elim [ inl i ↦ i | inr s ↦ absurd (cc (s.0)) ])
  | inr (t, found) ↦
      let (to, from) = push_source_lem c fields t source in
      rw (found, push_field)
        (
          (λ i. elim (to i) [
            | inl j ↦ inl j
            | inr (e, own, listed) ↦ inr (ap some e, own, listed)
          ]),
          elim [ inl j ↦ from (inl j) | inr (e, own, listed) ↦ from (inr (cc e, own, listed)) ],
        )
]

push_field-Distinct :
    (c : Config) (fields : List Text) (claim : Text)
    → Distinct fields
    → Distinct (push_field c fields claim)
unfolding push_field
push_field-Distinct c fields claim d = elim (Option-cases (lookup claim c.claim_map)) [
  | inl lost ↦ rw (lost, push_field) d
  | inr (t, found) ↦ rw (found, push_field) (push_source-Distinct c fields t d)
]

-- What the claims of a list add.
fields_from_lem :
    (c : Config) (fields claims : List Text) (source : Text)
    → In source (fields_from c fields claims)
      ↔ (In source fields ⊎ ((claim : Text) × In claim claims × IsSource c claim source))
unfolding fields_from
fields_from_lem c fields [] source = (inl, elim [ inl i ↦ i | inr (claim, i, s) ↦ absurd i ])
fields_from_lem c fields (claim ∷ claims) source =
    let (to, from) = fields_from_lem c (push_field c fields claim) claims source in
    let (one, back) = push_field_lem c fields claim source in
    (
      (λ i. elim (to i) [
        | inl j ↦ elim (one j) [ inl old ↦ inl old | inr s ↦ inr (claim, inl refl, s) ]
        | inr (other, j, s) ↦ inr (other, inr j, s)
      ]),
      elim [
        | inl old ↦ from (inl (back (inl old)))
        | inr (other, inl same, s) ↦
            from (inl (back (inr (subst (λ k. IsSource c k source) (sym same) s))))
        | inr (other, inr j, s) ↦ from (inr (other, j, s))
      ],
    )

fields_from-Distinct :
    (c : Config) (fields claims : List Text)
    → Distinct fields
    → Distinct (fields_from c fields claims)
unfolding fields_from
fields_from-Distinct c fields [] d = d
fields_from-Distinct c fields (claim ∷ claims) d =
    fields_from-Distinct c (push_field c fields claim) claims (push_field-Distinct c fields claim d)

-- The fields of a lookup are exactly the provisioned sources of the approved claims other than the
-- subject, each once.
pub fields_from-minimal :
    (c : Config) (approved : List Text)
    → Distinct (fields_from c [] approved)
      × ((source : Text)
          → In source (fields_from c [] approved)
            ↔ ((claim : Text) × In claim approved × IsSource c claim source))
fields_from-minimal c approved = (
  fields_from-Distinct c [] approved tt,
  λ source.
      let (to, from) = fields_from_lem c [] approved source in
      ((λ i. elim (to i) [ inl none_yet ↦ absurd none_yet | inr s ↦ s ]), λ s. from (inr s)),
)

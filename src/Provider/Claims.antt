-- ===== src/Provider/Claims.antt =====
-- `SupportedClaims`: the claims whose source is there, sorted.
use esignet_relay_authentica.Prelude.{
  ◌≡◌, refl, sym, ap, subst, ◌⊎◌, ◌↔◌, inl, inr, true, false, List, [], ◌∷◌, ==_iff, keep, map, In,
  contains_iff, if_elim, arith,
}
use esignet_relay_authentica.Text.{Text, text_eq}
use esignet_relay_authentica.Json.{text_lt, insert_sorted, sort_members}
use esignet_relay_authentica.Config.{Config, psut_source}
use esignet_relay_authentica.Provider.Identity.{claim_supported, supported_claims}

-- No name is less than the one before it.
abbrev pub Follows : Text → List Text → Type 0
Follows a [] = Unit {0}
Follows a (b ∷ l) = text_lt b a ≡ false

abbrev pub Ordered : List Text → Type 0
Ordered [] = Unit {0}
Ordered (a ∷ l) = Follows a l × Ordered l

pub text_lt_asym : (s t : Text) → text_lt s t ≡ true → text_lt t s ≡ false
unfolding text_lt
text_lt_asym s [] h = absurd (cc h)
text_lt_asym [] (b ∷ t) h = refl
text_lt_asym (a ∷ s) (b ∷ t) h = ground (arith, text_lt_asym s t)

Follows-insert :
    (a : Text) (entry : Text × Text) (l : List (Text × Text))
    → text_lt entry.0 a ≡ false
    → Follows a (map (λ e. e.0) l)
    → Follows a (map (λ e. e.0) (insert_sorted entry l))
unfolding insert_sorted
Follows-insert a entry [] h f = h
Follows-insert a entry (other ∷ rest) h f = ground arith

insert_sorted-Ordered :
    (entry : Text × Text) (l : List (Text × Text))
    → Ordered (map (λ e. e.0) l)
    → Ordered (map (λ e. e.0) (insert_sorted entry l))
unfolding insert_sorted
insert_sorted-Ordered entry [] o = (tt, tt)
insert_sorted-Ordered entry (other ∷ rest) o =
    if_elim (λ l. Ordered (map (λ (e : Text × Text). e.0) l)) (text_lt other.0 entry.0)
      (λ less. (
        Follows-insert other.0 entry rest (text_lt_asym other.0 entry.0 less) o.0,
        insert_sorted-Ordered entry rest o.1,
      ))
      (λ more. (more, o))

sort_members-Ordered : (l : List (Text × Text)) → Ordered (map (λ e. e.0) (sort_members l))
unfolding sort_members
sort_members-Ordered [] = tt
sort_members-Ordered (entry ∷ rest) =
    insert_sorted-Ordered entry (sort_members rest) (sort_members-Ordered rest)

In-insert_sorted :
    (claim : Text) (entry : Text × Text) (l : List (Text × Text))
    → In claim (map (λ e. e.0) (insert_sorted entry l))
      ↔ ((entry.0 ≡ claim) ⊎ In claim (map (λ e. e.0) l))
unfolding insert_sorted
In-insert_sorted claim entry [] = (λ i. i, λ i. i)
In-insert_sorted claim entry (other ∷ rest) =
    if_elim
      (λ l.
        In claim (map (λ (e : Text × Text). e.0) l)
        ↔ ((entry.0 ≡ claim) ⊎ In claim (map (λ (e : Text × Text). e.0) (other ∷ rest))))
      (text_lt other.0 entry.0) (λ less. ground (arith, In-insert_sorted claim entry rest))
      (λ more. (λ i. i, λ i. i))

In-sort_members :
    (claim : Text) (l : List (Text × Text))
    → In claim (map (λ e. e.0) (sort_members l)) ↔ In claim (map (λ e. e.0) l)
unfolding sort_members
In-sort_members claim [] = (λ i. i, λ i. i)
In-sort_members claim (entry ∷ rest) =
    let (to, from) = In-insert_sorted claim entry (sort_members rest) in
    let (go, back) = In-sort_members claim rest in
    (
      (λ i. elim (to i) [ inl e ↦ inl e | inr j ↦ inr (go j) ]),
      elim [ inl e ↦ from (inl e) | inr j ↦ from (inr (back j)) ],
    )

-- A source that is the subject or a provisioned field.
abbrev pub IsAvailable : Config → Text → Type 0
IsAvailable c source = (source ≡ psut_source) ⊎ In source c.breg.provisioned_fields

claim_supported_iff :
    (c : Config) (entry : Text × Text) → (claim_supported c entry ≡ true) ↔ IsAvailable c entry.1
unfolding claim_supported
claim_supported_iff c (claim, source) =
    ground (arith, ==_iff source psut_source, contains_iff c.breg.provisioned_fields source)

In-keep :
    (c : Config) (claim : Text) (m : List (Text × Text))
    → In claim (map (λ e. e.0) (keep (claim_supported c) m))
      ↔ ((source : Text) × In (claim, source) m × IsAvailable c source)
In-keep c claim [] = (λ i. absurd i, λ (source, i, _). absurd i)
In-keep c claim ((k, v) ∷ m) =
    let (to, from) = In-keep c claim m in
    let fits = claim_supported_iff c (k, v) in
    if_elim
      (λ l.
        In claim (map (λ (e : Text × Text). e.0) l)
        ↔ ((source : Text) × In (claim, source) ((k, v) ∷ m) × IsAvailable c source))
      (claim_supported c (k, v))
      (λ kept. (
        elim [
          | inl e ↦ (v, inl (ap (λ (x : Text). (x, v)) e), fits.0 kept)
          | inr i ↦ let (source, j, p) = to i in (source, inr j, p)
        ],
        λ (source, i, p). elim i [
          | inl e ↦ inl (ap (λ (x : Text × Text). x.0) e)
          | inr j ↦ inr (from (source, j, p))
        ],
      ))
      (λ left. (
        (λ i. let (source, j, p) = to i in (source, inr j, p)),
        λ (source, i, p). elim i [
          | inl e ↦
              absurd (
                cc (fits.1 (subst (IsAvailable c) (ap (λ (x : Text × Text). x.1) (sym e)) p), left))
          | inr j ↦ from (source, j, p)
        ],
      ))

-- The supported claims are those that the claim map gives the subject or a provisioned field as a
-- source, in the order of their bytes, whatever the order of the map.
pub supported_claims_lem :
    (c : Config)
    → Ordered (supported_claims c)
      × ((claim : Text)
          → In claim (supported_claims c)
            ↔ ((source : Text) × In (claim, source) c.claim_map × IsAvailable c source))
unfolding supported_claims
supported_claims_lem c = (
  sort_members-Ordered (keep (claim_supported c) c.claim_map),
  λ claim.
      let (to, from) = In-sort_members claim (keep (claim_supported c) c.claim_map) in
      let (go, back) = In-keep c claim c.claim_map in ((λ i. go (to i)), λ p. from (back p)),
)

-- ===== src/Provider/ClaimOrder.antt =====
-- `SupportedClaims` does not depend on the order in which Go walks the claim map.
use mathlib.Core.List.{Perm, Permᴰ}
use mathlib.Core.Logic.{∥∥₁_elim}
use esignet_relay_authentica.Prelude.{
  ◌≡◌, refl, sym, ap, ◌∙◌, Bool, true, false, List, [], ◌∷◌, if◌then◌else◌, if_elim, keep, map,
  arith, Bool-cases, inl, inr,
}
use esignet_relay_authentica.Text.{Text}
use esignet_relay_authentica.Json.{text_lt, insert_sorted, sort_members}
use esignet_relay_authentica.Config.{Config}
use esignet_relay_authentica.Provider.Claims.{text_lt_asym}
use esignet_relay_authentica.Provider.Identity.{claim_supported, supported_claims}

-- The order on names is total: what is not less on either side is the same, and it is transitive.
text_lt_antisym : (s t : Text) → text_lt s t ≡ false → text_lt t s ≡ false → s ≡ t
unfolding text_lt
text_lt_antisym [] [] h k = refl
text_lt_antisym [] (b ∷ t) h k = absurd (cc h)
text_lt_antisym (a ∷ s) [] h k = absurd (cc k)
text_lt_antisym (a ∷ s) (b ∷ t) h k = ground (arith, text_lt_antisym s t)

-- From b ≤ x and x < a.
text_lt_trans : (b x a : Text) → text_lt x b ≡ false → text_lt x a ≡ true → text_lt b a ≡ true
unfolding text_lt
text_lt_trans [] x [] h k = absurd (cc k)
text_lt_trans [] x (c ∷ a) h k = refl
text_lt_trans (b ∷ s) [] a h k = absurd (cc h)
text_lt_trans (b ∷ s) (x ∷ t) [] h k = absurd (cc k)
text_lt_trans (b ∷ s) (x ∷ t) (c ∷ a) h k = ground (arith, text_lt_trans s t a)

-- The names alone, as they are sorted in.
insert_name : Text → List Text → List Text
insert_name a [] = a ∷ []
insert_name a (x ∷ l) = if text_lt x a then x ∷ insert_name a l else a ∷ x ∷ l

names : List (Text × Text) → List Text
names l = map (λ e. e.0) l

names-insert_sorted :
    (e : Text × Text) (l : List (Text × Text))
    → names (insert_sorted e l) ≡ insert_name e.0 (names l)
unfolding insert_sorted insert_name names
names-insert_sorted e [] = refl
names-insert_sorted e (x ∷ l) = ground (arith, names-insert_sorted e l)

-- Two names in front of a list.
in_front :
    (a b : Text) (l : List Text)
    → (if text_lt b a then b ∷ a ∷ l else a ∷ b ∷ l)
      ≡ (if text_lt a b then a ∷ b ∷ l else b ∷ a ∷ l)
in_front a b l = elim (Bool-cases (text_lt b a)) [
  | inl less ↦ rw (less, text_lt_asym b a less) refl
  | inr more ↦ elim (Bool-cases (text_lt a b)) [
    | inl less ↦ rw (more, less) refl
    | inr same ↦ rw (more, same, text_lt_antisym a b same more) refl
  ]
]

insert_name-less :
    (a x : Text) (l : List Text) → text_lt x a ≡ true → insert_name a (x ∷ l) ≡ x ∷ insert_name a l
unfolding insert_name
insert_name-less a x l h = rw h refl

insert_name-front :
    (a x : Text) (l : List Text) → text_lt x a ≡ false → insert_name a (x ∷ l) ≡ a ∷ x ∷ l
unfolding insert_name
insert_name-front a x l h = rw h refl

-- Behind one that is less than the other, and where both come to the front.
insert_name-past :
    (a b x : Text) (l : List Text)
    → text_lt x b ≡ false
    → text_lt x a ≡ true
    → insert_name a (b ∷ x ∷ l) ≡ insert_name b (x ∷ insert_name a l)
insert_name-past a b x l h k =
    insert_name-less a b (x ∷ l) (text_lt_trans b x a h k)
    ∙ ap (◌∷◌ b) (insert_name-less a x l k)
    ∙ sym (insert_name-front b x (insert_name a l) h)

insert_name-both :
    (a b x : Text) (l : List Text)
    → text_lt x a ≡ false
    → insert_name a (b ∷ x ∷ l) ≡ (if text_lt b a then b ∷ a ∷ x ∷ l else a ∷ b ∷ x ∷ l)
unfolding insert_name
insert_name-both a b x l h =
    ap (λ t. if text_lt b a then b ∷ t else a ∷ b ∷ x ∷ l) (insert_name-front a x l h)

nothing_comm : (a b : Text) → insert_name a (insert_name b []) ≡ insert_name b (insert_name a [])
unfolding insert_name
nothing_comm a b = in_front a b []

insert_name_comm :
    (a b : Text) (l : List Text) → insert_name a (insert_name b l) ≡ insert_name b (insert_name a l)
insert_name_comm a b [] = nothing_comm a b
insert_name_comm a b (x ∷ l) = elim (Bool-cases (text_lt x b)) [
  | inl xb ↦
      let one = ap (insert_name a) (insert_name-less b x l xb) in
      elim (Bool-cases (text_lt x a)) [
        | inl xa ↦
            one
            ∙ insert_name-less a x (insert_name b l) xa
            ∙ ap (◌∷◌ x) (insert_name_comm a b l)
            ∙ sym (insert_name-less b x (insert_name a l) xb)
            ∙ ap (insert_name b) (sym (insert_name-less a x l xa))
        | inr xa ↦
            one
            ∙ sym (insert_name-past b a x l xa xb)
            ∙ ap (insert_name b) (sym (insert_name-front a x l xa))
      ]
  | inr xb ↦
      let one = ap (insert_name a) (insert_name-front b x l xb) in
      elim (Bool-cases (text_lt x a)) [
        | inl xa ↦
            one
            ∙ insert_name-past a b x l xb xa
            ∙ ap (insert_name b) (sym (insert_name-less a x l xa))
        | inr xa ↦
            one
            ∙ insert_name-both a b x l xa
            ∙ in_front a b (x ∷ l)
            ∙ sym (insert_name-both b a x l xb)
            ∙ ap (insert_name b) (sym (insert_name-front a x l xa))
      ]
]

module _ (p : Text × Text → Bool) where
  sorted_names : List (Text × Text) → List Text
  sorted_names m = names (sort_members (keep p m))

  sorted_names-cons :
      (e : Text × Text) (m : List (Text × Text))
      → sorted_names (e ∷ m) ≡ (if p e then insert_name e.0 (sorted_names m) else sorted_names m)
  unfolding sorted_names sort_members
  sorted_names-cons e m =
      if_elim
        (λ l.
          names (sort_members l)
          ≡ (if p e then insert_name e.0 (sorted_names m) else sorted_names m))
        (p e) (λ t. rw t (names-insert_sorted e (sort_members (keep p m)))) (λ f. rw f refl)

  put_comm :
      (a b : Text × Text) (t : List Text)
      → (if p a
          then insert_name a.0 (if p b then insert_name b.0 t else t)
          else (if p b then insert_name b.0 t else t))
        ≡ (if p b
            then insert_name b.0 (if p a then insert_name a.0 t else t)
            else (if p a then insert_name a.0 t else t))
  put_comm a b t = ground (arith, insert_name_comm a.0 b.0 t)

  sorted_names_swap :
      (a b : Text × Text) (l : List (Text × Text))
      → sorted_names (a ∷ b ∷ l) ≡ sorted_names (b ∷ a ∷ l)
  sorted_names_swap a b l =
      let ns = sorted_names l in
      let put = λ (e : Text × Text) (t : List Text). if p e then insert_name e.0 t else t in
      sorted_names-cons a (b ∷ l)
      ∙ ap (put a) (sorted_names-cons b l)
      ∙ put_comm a b ns
      ∙ ap (put b) (sym (sorted_names-cons a l))
      ∙ sym (sorted_names-cons b (a ∷ l))

  sorted_names-Permᴰ : {m n : List (Text × Text)} → Permᴰ m n → sorted_names m ≡ sorted_names n
  sorted_names-Permᴰ Permᴰ.nil = refl
  sorted_names-Permᴰ (Permᴰ.cons {a = a} {b = b} {l₁ = l} {l₂ = r} e d) =
      sorted_names-cons a l
      ∙ ap (λ c. if p c then insert_name c.0 (sorted_names l) else sorted_names l) e
      ∙ ap (λ t. if p b then insert_name b.0 t else t) (sorted_names-Permᴰ d)
      ∙ sym (sorted_names-cons b r)
  sorted_names-Permᴰ (Permᴰ.swap {a = a} {b = b} {a' = c} {b' = d} {l = l} e f) =
      sorted_names_swap a b l
      ∙ ap (λ x. sorted_names (x ∷ a ∷ l)) f
      ∙ ap (λ x. sorted_names (c ∷ x ∷ l)) e
  sorted_names-Permᴰ (Permᴰ.trans d e) = sorted_names-Permᴰ d ∙ sorted_names-Permᴰ e

-- Whatever the order of the claim map, SupportedClaims gives the same list.
pub supported_claims-Perm :
    (c : Config) (m : List (Text × Text))
    → Perm c.claim_map m
    → supported_claims c ≡ supported_claims (record c { claim_map = m })
unfolding supported_claims sorted_names names
supported_claims-Perm c m h = ∥∥₁_elim h (hlevel) (λ d. sorted_names-Permᴰ (claim_supported c) d)

-- ===== src/Config/Scopes.antt =====
-- Scope lists: what validation accepts is read back from a token response.
use esignet_relay_authentica.Prelude.{
  ◌≤◌, ◌≡◌, refl, sym, ◌≢◌, inl, inr, true, false, some, List, [], ◌∷◌, length, all, contains,
  contains_iff, All, In, Distinct, arith,
}
use esignet_relay_authentica.Text.{Text, txt, text_eq, is_empty, join, Lacks, split_on-join}
use esignet_relay_authentica.Config.Checks.{
  scope_byte, valid_scope_token, valid_scopes_from, valid_scopes, parse_scope,
}

bytes_lack : (s : Text) → all scope_byte s ≡ true → Lacks b' ' s
bytes_lack [] h = tt
bytes_lack (b ∷ s) h = (ground arith, bytes_lack s (ground arith))

-- What the loop of `validScopes` has checked of the scopes that are left.
record IsFresh (seen scopes : List Text) : Type 0 where
  distinct : Distinct scopes
  unseen : All (λ s. ¬ In s seen) scopes
  tokens : all valid_scope_token scopes ≡ true
  separable : All (Lacks b' ') scopes

unseen_tail :
    (s : Text) (seen scopes : List Text)
    → All (λ t. ¬ In t (s ∷ seen)) scopes
    → All (λ t. ¬ In t seen) scopes × (¬ In s scopes)
unseen_tail s seen [] h = (tt, λ i. i)
unseen_tail s seen (t ∷ ts) h =
    let (rest, away) = unseen_tail s seen ts h.1 in
    (((λ i. h.0 (inr i)), rest), elim [ inl e ↦ h.0 (inl (sym e)) | inr i ↦ away i ])

IsFresh-cons :
    (s : Text) (seen ss : List Text)
    → IsFresh (s ∷ seen) ss
    → contains seen s ≡ false
    → valid_scope_token s ≡ true
    → IsFresh seen (s ∷ ss)
unfolding valid_scope_token
IsFresh-cons s seen ss rest new token =
    let (unseen, away) = unseen_tail s seen ss rest.unseen in
    record {
      distinct = (away, rest.distinct);
      unseen = ((λ i. cc ((contains_iff seen s).1 i, new)), unseen);
      tokens = ground (arith, rest.tokens);
      separable = (bytes_lack s (ground arith), rest.separable);
    }

valid_scopes_from-IsFresh :
    (seen scopes : List Text) → valid_scopes_from seen scopes ≡ true → IsFresh seen scopes
unfolding valid_scopes_from
valid_scopes_from-IsFresh seen [] h = record {
  distinct = tt;
  unseen = tt;
  tokens = refl;
  separable = tt;
}
valid_scopes_from-IsFresh seen (s ∷ ss) h =
    IsFresh-cons s seen ss (valid_scopes_from-IsFresh (s ∷ seen) ss (ground arith)) (ground arith)
      (ground arith)

is_empty-join :
    (sep s : Text) (ss : List Text) → is_empty s ≡ false → is_empty (join sep (s ∷ ss)) ≡ false
unfolding join
is_empty-join sep [] ss h = cc
is_empty-join sep (b ∷ s) [] h = refl
is_empty-join sep (b ∷ s) (t ∷ ss) h = refl

first_nonempty :
    (s : Text) (ss : List Text) → all valid_scope_token (s ∷ ss) ≡ true → is_empty s ≡ false
unfolding valid_scope_token
first_nonempty [] ss h = cc
first_nonempty (b ∷ s) ss h = refl

-- What `validScopes` accepts.
pub valid_scopes_sound :
    (scopes : List Text)
    → valid_scopes scopes ≡ true
    → (scopes ≢ []) × (length scopes ≤ 32) × Distinct scopes
unfolding valid_scopes
valid_scopes_sound scopes h = (
  (λ e. ground arith),
  ground arith,
  (valid_scopes_from-IsFresh [] scopes (ground arith)).distinct,
)

-- A scope list that validation accepts, sent as the source joins it and echoed by the issuer, is
-- read back as the same list.
pub parse_scope-join :
    (scopes : List Text)
    → valid_scopes scopes ≡ true
    → parse_scope (join (txt " ") scopes) ≡ some scopes
unfolding valid_scopes parse_scope
parse_scope-join [] h = cc
parse_scope-join (s ∷ ss) h =
    let f = valid_scopes_from-IsFresh [] (s ∷ ss) (ground arith) in
    rw (split_on-join b' ' s ss f.separable)
      (ground (arith, f.tokens, is_empty-join (txt " ") s ss (first_nonempty s ss f.tokens)))

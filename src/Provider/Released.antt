-- ===== src/Provider/Released.antt =====
-- What `GetAttributes` releases: for each claim, and to whom.
use esignet_relay_authentica.Prelude.{
  ◌+◌, ◌≡◌, refl, sym, ap, subst, ◌∙◌, ◌⊎◌, inl, inr, false, Option, none, some, List, [], ◌∷◌,
  if◌then◌else◌, ◌==◌, ==_iff, contains, contains_iff, In, lookup, insert, lookup-insert, arith,
  Option-cases, Bool-cases,
}
use esignet_relay_authentica.Text.{Text, text_eq, is_empty}
use esignet_relay_authentica.Types.{ok, Binding}
use esignet_relay_authentica.Json.{Value, str}
use esignet_relay_authentica.Config.{Config, psut_source}
use esignet_relay_authentica.Provider.Psut.{AuthContext, psut}
use esignet_relay_authentica.Provider.Restore.{IsRestored, restore-IsRestored}
use esignet_relay_authentica.Provider.Runtime.{Env, World, return, after_bind, after_now}
use esignet_relay_authentica.Provider.Lookup.{registry_lookup}
use esignet_relay_authentica.Provider.Identity.{fields_from, release, release_from, get_attributes}
use esignet_relay_authentica.Provider.Attributes.{fields_from-minimal}

-- What a claim is worth: the subject, or a provisioned field among the values.
abbrev pub claim_value : Config → Text → List (Text × Value) → Text → Option Value
claim_value c subject values claim = elim (lookup claim c.claim_map) [
  | none ↦ none
  | some source ↦
      if source == psut_source
      then some (str subject)
      else (if contains c.breg.provisioned_fields source then lookup source values else none)
]

abbrev or_else : Option Value → Option Value → Option Value
or_else none v = v
or_else (some u) v = some u

or_else-none : (o : Option Value) → or_else o none ≡ o
or_else-none none = refl
or_else-none (some v) = refl

release_from-lookup :
    (c : Config) (subject : Text) (fields : List Text) (values : List (Text × Value))
    (claims : List Text) (result : List (Text × Value)) (claim : Text)
    → lookup claim (release_from c subject fields values claims result) ≡ (
        if contains claims claim
        then or_else (release c subject fields values claim) (lookup claim result)
        else lookup claim result)
unfolding release_from contains
release_from-lookup c subject fields values [] result claim = refl
release_from-lookup c subject fields values (k ∷ claims) result claim =
    elim (Option-cases (release c subject fields values k)) [
      | inl lost ↦
          let later = release_from-lookup c subject fields values claims result claim in
          elim (Bool-cases (k == claim)) [
            | inl same ↦
                let gone =
                  subst (λ x. release c subject fields values x ≡ none) ((==_iff k claim).0 same)
                    lost in
                rw (lost, release_from, later, gone) (ground arith)
            | inr other ↦ rw (lost, release_from, later) (ground arith)
          ]
      | inr (v, found) ↦
          let later =
            release_from-lookup c subject fields values claims (insert k v result) claim in
          let put = lookup-insert k claim v result in
          elim (Bool-cases (k == claim)) [
            | inl same ↦
                let there =
                  subst (λ x. release c subject fields values x ≡ some v) ((==_iff k claim).0 same)
                    found in
                rw (found, release_from, later, put, there) (ground arith)
            | inr other ↦ rw (found, release_from, later, put) (ground arith)
          ]
    ]

release-claim_value :
    (c : Config) (subject : Text) (approved : List Text) (values : List (Text × Value))
    (claim : Text)
    → In claim approved
    → release c subject (fields_from c [] approved) values claim
      ≡ claim_value c subject values claim
unfolding release
release-claim_value c subject approved values claim i =
    elim (Option-cases (lookup claim c.claim_map)) [
      | inl lost ↦ rw (lost, release, claim_value) refl
      | inr (source, found) ↦
          let fields = fields_from c [] approved in
          let (to, from) = (fields_from-minimal c approved).1 source in
          let fetched = contains_iff fields source in
          let given = contains_iff c.breg.provisioned_fields source in
          elim (Bool-cases (source == psut_source)) [
            | inl same ↦ rw (found, release, claim_value, same) refl
            | inr own ↦ elim (Bool-cases (contains c.breg.provisioned_fields source)) [
              | inl listed ↦
                  let met = fetched.1 (
                    from (
                      claim,
                      i,
                      (
                        found,
                        (λ e. ground (arith, own, ==_iff source psut_source, e)),
                        given.0 listed,
                      ),
                    )) in
                  rw (found, release, claim_value, own, met, listed) refl
              | inr unlisted ↦
                  let unmet : contains fields source ≡ false =
                    elim (Bool-cases (contains fields source)) [
                      | inl met ↦
                          let (k, j, s) = to (fetched.0 met) in absurd (cc (given.1 s.2, unlisted))
                      | inr unmet ↦ unmet
                    ] in
                  rw (found, release, claim_value, own, unmet, unlisted) refl
            ]
          ]
    ]

pub released_value :
    (c : Config) (subject : Text) (approved : List Text) (values : List (Text × Value))
    (claim : Text)
    → lookup claim (release_from c subject (fields_from c [] approved) values approved [])
      ≡ (if contains approved claim then claim_value c subject values claim else none)
unfolding lookup
released_value c subject approved values claim =
    release_from-lookup c subject (fields_from c [] approved) values approved [] claim
    ∙ elim (Bool-cases (contains approved claim)) [
      | inl met ↦
          rw
            (
              met,
              release-claim_value c subject approved values claim
                  ((contains_iff approved claim).0 met),
            )
            (or_else-none (claim_value c subject values claim))
      | inr unmet ↦ rw unmet refl
    ]

-- What a successful call of `GetAttributes` in a world shows.
pub record IsConsented (env : Env) (c : Config) (secret : Text)
    (state : Option (List (Text × Value))) (b : Binding) (approval : Option (List Text))
    (w after : World) (result : List (Text × Value)) : Type 0 where
  pub approved : List Text
  pub consent : approval ≡ some approved
  pub session : AuthContext
  pub restored : IsRestored c (env.clock w.looks) state b session
  pub values : List (Text × Value)
  -- The registry is asked about the identifier of the session, or not at all.
  pub asked :
      ((fields_from c [] approved ≡ []) × (values ≡ []) × (after.log ≡ w.log))
      ⊎ (registry_lookup env c session.identifier
            (fields_from c [] approved)
            (record w { looks = w.looks + 1 })
          ≡ (ok values, after))
  pub released :
      (claim : Text)
      → lookup claim result ≡ (
          if contains approved claim
          then claim_value c (psut env.hmac secret session) values claim
          else none)

fetch_cases :
    (env : Env) (c : Config) (id : Text) (fields : List Text) (values : List (Text × Value))
    (w after : World)
    → (if is_empty fields then return [] else registry_lookup env c id fields) w
      ≡ (ok values, after)
    → ((fields ≡ []) × (values ≡ []) × (after.log ≡ w.log))
      ⊎ (registry_lookup env c id fields w ≡ (ok values, after))
fetch_cases env c id [] values w after h = inl (refl, cc h, cc h)
fetch_cases env c id (f ∷ fs) values w after h = inr h

-- What `GetAttributes` returns was consented to: the list of approved claims is not nil, the session
-- is restored under the caller's binding, and the result has for each approved claim just the subject
-- of the session or the value that the registry gave for its provisioned field, and nothing for any
-- other claim. The registry is asked for the session's identifier, and only if a field is wanted.
pub get_attributes-IsConsented :
    (env : Env) (c : Config) (secret : Text) (state : Option (List (Text × Value))) (b : Binding)
    (approval : Option (List Text)) (w after : World) (result : List (Text × Value))
    → get_attributes env c secret state b approval w ≡ (ok result, after)
    → IsConsented env c secret state b approval w after result
unfolding get_attributes
get_attributes-IsConsented env c secret state b none w after result h =
    after_bind _ _ _ h (λ approved mid e h1. absurd (cc e))
get_attributes-IsConsented env c secret state b (some approved) w after result h =
    after_bind _ _ _ h (λ claims w1 e h1. after_bind _ _ _ h1 (λ s w2 back h2.
      after_bind _ _ _ h2 (λ values w3 got h3.
        let claims_same : claims ≡ approved = cc e in
        let world_same : w1 ≡ w = cc e in
        let back_now = after_now env _ _ back in
        let moved : record w1 { looks = w1.looks + 1 } ≡ w2 = cc back_now in
        let last : w3 ≡ after = cc h3 in
        let shown : release_from c (psut env.hmac secret s) (fields_from c [] claims) values claims
              []
            ≡ result =
          cc h3 in
        let consented : IsConsented env c secret state b (some claims) w1 after result = record {
          approved = claims;
          consent = refl;
          session = s;
          restored = restore-IsRestored c (env.clock w1.looks) state b s (cc back_now);
          values = values;
          asked =
              fetch_cases env c s.identifier (fields_from c [] claims) values
                (record w1 { looks = w1.looks + 1 }) after
                (rw moved (got ∙ ap (λ (v : World). (ok values, v)) last));
          released = λ claim.
              rw (sym shown) (released_value c (psut env.hmac secret s) claims values claim);
        } in
        subst (λ (v : World). IsConsented env c secret state b (some approved) v after result)
          world_same
          (subst (λ l. IsConsented env c secret state b (some l) w1 after result) claims_same
            consented))))

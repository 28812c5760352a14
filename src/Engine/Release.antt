-- ===== src/Engine/Release.antt =====
-- What reaches the engine from the provider: attributes that were asked for, of the session's person.
use esignet_relay_authentica.Prelude.{
  ◌≡◌, refl, sym, subst, ◌∙◌, inl, inr, true, false, not, Option, none, some, List, [], ◌∷◌,
  if◌then◌else◌, ◌==◌, ==_iff, any, arith, Bool-cases, Option-cases, lookup, contains,
}
use esignet_relay_authentica.Text.{Text, text_eq, is_empty}
use esignet_relay_authentica.Types.{Binding, ok}
use esignet_relay_authentica.Json.{Value}
use esignet_relay_authentica.Config.{Config}
use esignet_relay_authentica.Provider.{
  Env, World, ◌>>=◌, return, psut, authenticate, send_otp, get_attributes, IsConsented,
  get_attributes-IsConsented, claim_value,
}
use esignet_relay_authentica.Engine.Defs.{
  done, Identity, Authenticator, Metadata, Requested, names_of, pick, engine_get_attributes,
}
use esignet_relay_authentica.Engine.Binding.{IsResolved, binding-IsResolved}
use esignet_relay_authentica.Engine.Rules.{after_reply, after_answer, or_fault-done, demand-done}

-- The provider as the adapter's `identityProvider`.
unfoldable pub provider_identity : Env → Config → Text → Identity
provider_identity env c secret = record {
  send_otp = send_otp env c secret;
  authenticate = λ r. authenticate env c secret r >>= λ l. return (l.subject, some l.context);
  get_attributes = get_attributes env c secret;
}

lookup-pick :
    (names : List Text) (values : List (Text × Value)) (name : Text)
    → lookup name (pick names values) ≡ (if contains names name then lookup name values else none)
unfolding pick contains lookup
lookup-pick [] values name = refl
lookup-pick (n ∷ names) values name = elim (Option-cases (lookup n values)) [
  | inl lost ↦ elim (Bool-cases (n == name)) [
    | inl same ↦
        let gone = subst (λ x. lookup x values ≡ none) ((==_iff n name).0 same) lost in
        rw (lost, pick) (ground (arith, lookup-pick names values name, gone))
    | inr other ↦ rw (lost, pick) (ground (arith, lookup-pick names values name))
  ]
  | inr (v, there) ↦ elim (Bool-cases (n == name)) [
    | inl same ↦
        let here = subst (λ x. lookup x values ≡ some v) ((==_iff n name).0 same) there in
        rw (there, pick) (ground (arith, here))
    | inr other ↦ rw (there, pick) (ground (arith, lookup-pick names values name))
  ]
]

-- A release by the adapter over the provider.
pub record IsRelease (env : Env) (c : Config) (secret : Text) (p : Authenticator)
    (token : Option (List (Text × Value))) (asked : Option Requested) (metadata : Option Metadata)
    (w after : World) (result : List (Text × Value)) : Type 0 where
  pub requested : Requested
  pub request : asked ≡ some requested
  pub unverified : requested.verifications ≡ []
  pub unconstrained : any (λ e. e.1) requested.attributes ≡ false
  pub m : Metadata
  pub metadata_given : metadata ≡ some m
  pub b : Binding
  pub resolved : IsResolved p m true b
  pub values : List (Text × Value)
  pub consented : IsConsented env c secret token b (some (names_of requested)) w after values
  pub released :
      (name : Text)
      → lookup name result ≡ (
          if contains (names_of requested) name
          then claim_value c (psut env.hmac secret consented.session) consented.values name
          else none)

unconstrained_lem :
    (r : Requested) → not (any (λ e. e.1) r.attributes) ≡ true → any (λ e. e.1) r.attributes ≡ false
unconstrained_lem r h = ground arith

some_inj : {A : Type 0} {x y : A} → Path (Option A) (some x) (some y) → x ≡ y
some_inj h = cc h

-- The same test twice is one test.
twice :
    (names approved : List Text)
    → names ≡ approved
    → (name : Text) (got worth : Option Value)
    → got ≡ (if contains approved name then worth else none)
    → (if contains names name then got else none) ≡ (if contains names name then worth else none)
twice names approved same name got worth h = elim (Bool-cases (contains names name)) [
  | inl met ↦ ground (arith, same, h, met)
  | inr unmet ↦ rw unmet refl
]

no_verifications : (vs : List Text) → is_empty vs ≡ true → vs ≡ []
no_verifications [] h = refl
no_verifications (v ∷ vs) h = absurd (cc h)

-- The engine gets attributes only for a request without verifications and constraints and under the
-- binding of a registered client and a transaction; the provider restored the session under that
-- binding; and the result has for each name that was asked for what the provider's claim map makes
-- of the session and the registry's values, and nothing for any other name.
pub engine_get_attributes-IsRelease :
    (env : Env) (c : Config) (secret : Text) (p : Authenticator)
    (token : Option (List (Text × Value))) (asked : Option Requested) (metadata : Option Metadata)
    (w after : World) (result : List (Text × Value))
    → p.identity ≡ provider_identity env c secret
    → engine_get_attributes p token asked metadata w ≡ (done result, after)
    → IsRelease env c secret p token asked metadata w after result
unfolding engine_get_attributes provider_identity
engine_get_attributes-IsRelease env c secret p token asked metadata w after result over h =
    after_reply _ _ _ h (λ requested e1 h1. after_reply _ _ _ h1 (λ m e2 h2.
      after_reply _ _ _ h2 (λ u1 plain h3. after_reply _ _ _ h3 (λ state e3 h4.
        after_reply _ _ _ h4 (λ b e4 h5. after_reply _ _ _ h5 (λ u2 open_ended h6.
          after_answer _ _ h6 (λ values got shown.
            let names = names_of requested in
            let asked_provider : get_attributes env c secret (some state) b (some names) w
                ≡ (ok values, after) =
              subst
                (λ (i : Identity).
                  i.get_attributes (some state) b (some names) w ≡ (ok values, after))
                over got in
            let for_state =
              get_attributes-IsConsented env c secret (some state) b (some names) w after values
                asked_provider in
            let k : IsConsented env c secret token b (some names) w after values =
              subst (λ t. IsConsented env c secret t b (some names) w after values)
                (sym (or_fault-done token state e3)) for_state in
            let picked : pick names values ≡ result = cc shown in
            record {
              requested = requested;
              request = or_fault-done asked requested e1;
              unverified = no_verifications requested.verifications (demand-done _ plain);
              unconstrained = unconstrained_lem requested (demand-done _ open_ended);
              m = m;
              metadata_given = or_fault-done metadata m e2;
              b = b;
              resolved = binding-IsResolved p m true b e4;
              values = values;
              consented = k;
              released = λ name. rw (sym picked) (
                  lookup-pick names values name
                  ∙ twice names k.approved (some_inj k.consent) name _ _ (k.released name));
            })))))))

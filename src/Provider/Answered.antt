-- ===== src/Provider/Answered.antt =====
-- `GetAttributes` with the context of a login, where the registry answers.
use esignet_relay_authentica.Prelude.{
  ◌+◌, ◌≤◌, ◌<◌, ◌≡◌, refl, sym, ap, ◌∙◌, ◌⊎◌, inl, inr, true, ◌&&◌, Option, none, some, List, [],
  ◌∷◌, lt→ltb, if◌then◌else◌, ◌==◌, ==_iff, lookup, contains, arith,
}
use esignet_relay_authentica.Text.{Text, text_eq, is_empty}
use esignet_relay_authentica.Types.{unix, Binding, binding_eq, ok, ChallengeRequest, valid_binding}
use esignet_relay_authentica.Json.{Value}
use esignet_relay_authentica.Config.{Config}
use esignet_relay_authentica.Provider.Psut.{AuthContext, psut}
use esignet_relay_authentica.Provider.Context.{restore}
use esignet_relay_authentica.Provider.Restore.{restore-context_map}
use esignet_relay_authentica.Provider.Runtime.{Env, World, ◌>>=◌, ◌>>◌, return}
use esignet_relay_authentica.Provider.Lookup.{registry_lookup}
use esignet_relay_authentica.Provider.Identity.{
  Login, valid_request, authenticate, get_attributes, fields_from, release_from,
}
use esignet_relay_authentica.Provider.Released.{claim_value, released_value}
use esignet_relay_authentica.Provider.Session.{
  second_of_login, session_of, IsKept, authenticate-IsOpened, valid_request-subject,
}

-- The registry was asked and answered, or there was nothing to ask for.
abbrev pub IsAnswered :
    Env → Config → Text → List Text → World → List (Text × Value) → World → Type 0
IsAnswered env c id fields w values after =
    ((fields ≡ []) × (values ≡ []) × (after ≡ w))
    ⊎ (registry_lookup env c id fields w ≡ (ok values, after))

fetch-IsAnswered :
    (env : Env) (c : Config) (id : Text) (fields : List Text) (w after : World)
    (values : List (Text × Value))
    → IsAnswered env c id fields w values after
    → (if is_empty fields then return [] else registry_lookup env c id fields) w
      ≡ (ok values, after)
unfolding registry_lookup ◌>>=◌ ◌>>◌
fetch-IsAnswered env c id [] w after values (inl (e, f, g)) = rw (f, g) refl
fetch-IsAnswered env c id [] w after values (inr h) = absurd (cc h)
fetch-IsAnswered env c id (x ∷ xs) w after values (inl (e, f, g)) = absurd (cc e)
fetch-IsAnswered env c id (x ∷ xs) w after values (inr h) = h

-- Both steps of `GetAttributes` went well.
get_attributes-restored :
    (env : Env) (c : Config) (secret : Text) (state : Option (List (Text × Value))) (b : Binding)
    (approved : List Text) (s : AuthContext) (w after : World) (values : List (Text × Value))
    → restore c (env.clock w.looks) state b ≡ ok s
    → IsAnswered env c s.identifier
        (fields_from c [] approved)
        (record w { looks = w.looks + 1 })
        values
        after
    → get_attributes env c secret state b (some approved) w ≡ (
      ok (release_from c (psut env.hmac secret s) (fields_from c [] approved) values approved []),
      after,
    )
unfolding get_attributes ◌>>=◌
get_attributes-restored env c secret state b approved s w after values back answered =
    let fetched =
      fetch-IsAnswered env c s.identifier (fields_from c [] approved)
        (record w { looks = w.looks + 1 }) after values answered in
    rw (back, fetched) refl

module _ (env later : Env) (c : Config) (secret : Text) (same_hmac : later.hmac ≡ env.hmac) where
  -- If Authenticate granted a login at a second from 1 on, its session is one that the store keeps as it
  -- is, and the clock is not before that second and less than 300 seconds past it, then GetAttributes
  -- with the login's context under the binding of the request succeeds for any list of approved claims,
  -- if the registry answers for the login's identifier or there is nothing to ask it for. Each approved
  -- claim has just the subject of the login or the registry's value for its provisioned field, and no
  -- other claim has any.
  pub get_attributes_answers :
      (r : ChallengeRequest) (w after v last : World) (login : Login) (approved : List Text)
      (values : List (Text × Value))
      → authenticate env c secret r w ≡ (ok login, after)
      → IsKept env after r
      → 1 ≤ second_of_login env after
      → second_of_login env after ≤ unix (later.clock v.looks)
      → unix (later.clock v.looks) < second_of_login env after + 300
      → IsAnswered later c r.identifier
          (fields_from c [] approved)
          (record v { looks = v.looks + 1 })
          values
          last
      → (result : List (Text × Value)) × (get_attributes later c secret
            (some login.context)
            r.binding
            (some approved)
            v
          ≡ (ok result, last))
        × ((claim : Text)
            → lookup claim result ≡ (
                if contains approved claim then claim_value c login.subject values claim else none))
  unfolding valid_request
  get_attributes_answers r w after v last login approved values h st begun past live answered =
      let k = authenticate-IsOpened env c secret r w after login h in
      let valid : (valid_binding r.binding && r.binding == r.binding) ≡ true =
        ground (arith, k.request, ==_iff r.binding r.binding) in
      let opens =
        restore-context_map (second_of_login env after) r.identifier r.identifier_type r.binding st
          c (later.clock v.looks) r.binding (valid_request-subject c r k.request) begun past in
      let back : restore c (later.clock v.looks) (some login.context) r.binding
          ≡ ok (session_of env after r) =
        ap (λ state. restore c (later.clock v.looks) (some state) r.binding) (k.context)
        ∙ opens
        ∙ rw (valid, lt→ltb (unix (later.clock v.looks)) (second_of_login env after + 300) live)
            refl in
      let subject : psut later.hmac secret (session_of env after r) ≡ login.subject =
        ap (λ (h : Text → Text → Text). psut h secret (session_of env after r)) same_hmac
        ∙ sym k.subject in
      (
        release_from c login.subject (fields_from c [] approved) values approved [],
        get_attributes-restored later c secret (some login.context) r.binding approved
              (session_of env after r) v last values back answered
            ∙ ap
                (λ text.
                  (ok (release_from c text (fields_from c [] approved) values approved []), last))
                subject,
        released_value c login.subject approved values,
      )

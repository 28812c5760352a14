-- ===== src/Provider/Attributed.antt =====
-- What `GetAttributes` gives for the context that `Authenticate` handed out.
use esignet_relay_authentica.Prelude.{
  ◌+◌, ◌≤◌, ◌<◌, ◌≡◌, subst, ◌⊎◌, Option, none, some, List, [], if◌then◌else◌, lookup, contains,
}
use esignet_relay_authentica.Text.{Text, text_eq}
use esignet_relay_authentica.Types.{unix, Binding, binding_eq, ok, ChallengeRequest}
use esignet_relay_authentica.Json.{Value}
use esignet_relay_authentica.Config.{Config}
use esignet_relay_authentica.Provider.Psut.{AuthContext, psut}
use esignet_relay_authentica.Provider.Restore.{IsRestored, redecode-opened}
use esignet_relay_authentica.Provider.Runtime.{Env, World}
use esignet_relay_authentica.Provider.Lookup.{registry_lookup}
use esignet_relay_authentica.Provider.Identity.{Login, authenticate, get_attributes, fields_from}
use esignet_relay_authentica.Provider.Released.{claim_value, get_attributes-IsConsented}
use esignet_relay_authentica.Provider.Session.{
  second_of_login, session_of, IsKept, authenticate-IsOpened,
}

-- What `GetAttributes` returned for the context of a login, with the clock of a later environment.
pub record IsAttributed (env later : Env) (c : Config) (r : ChallengeRequest) (after : World)
    (login : Login) (caller : Binding) (approval : Option (List Text)) (v last : World)
    (result : List (Text × Value)) : Type 0 where
  pub bound : r.binding ≡ caller
  pub begun : second_of_login env after ≤ unix (later.clock v.looks)
  pub live : unix (later.clock v.looks) < second_of_login env after + 300
  pub approved : List Text
  pub consent : approval ≡ some approved
  pub values : List (Text × Value)
  pub asked :
      ((fields_from c [] approved ≡ []) × (values ≡ []) × (last.log ≡ v.log))
      ⊎ (registry_lookup later c r.identifier
            (fields_from c [] approved)
            (record v { looks = v.looks + 1 })
          ≡ (ok values, last))
  pub released :
      (claim : Text)
      → lookup claim result
        ≡ (if contains approved claim then claim_value c login.subject values claim else none)

same_binding :
    (a b : Binding)
    → a.relying_party_id ≡ b.relying_party_id
    → a.client_id ≡ b.client_id
    → a.transaction_id ≡ b.transaction_id
    → a ≡ b
same_binding a b p q t =
    λ i. record { relying_party_id = p i; client_id = q i; transaction_id = t i }

module _ (env later : Env) (c : Config) (secret : Text) (same_hmac : later.hmac ≡ env.hmac) where
  -- If Authenticate granted a login whose session is one that the store keeps as it is, and a later
  -- GetAttributes with the login's context, under the same HMAC, succeeds, then the caller's binding is
  -- that of the request, the clock has not gone back behind the second of the login and is less than
  -- 300 seconds past it, the registry was asked for the identifier of the login or not at all, and each
  -- approved claim has just the subject of the login or the registry's value for its provisioned field,
  -- and no other claim has any.
  pub get_attributes-authenticate :
      (r : ChallengeRequest) (w after v last : World) (login : Login) (caller : Binding)
      (approval : Option (List Text)) (result : List (Text × Value))
      → authenticate env c secret r w ≡ (ok login, after)
      → IsKept env after r
      → get_attributes later c secret (some login.context) caller approval v ≡ (ok result, last)
      → IsAttributed env later c r after login caller approval v last result
  get_attributes-authenticate r w after v last login caller approval result h st got =
      let k = authenticate-IsOpened env c secret r w after login h in
      let g =
        get_attributes-IsConsented later c secret (some login.context) caller approval v last result
          got in
      let kept =
        redecode-opened (second_of_login env after) r.identifier r.identifier_type r.binding st in
      let is : g.session ≡ session_of env after r =
        cc (g.restored.given, g.restored.decoded, k.context, kept) in
      let session =
        subst (IsRestored c (later.clock v.looks) (some login.context) caller) is (g.restored) in
      let known : psut later.hmac secret g.session ≡ login.subject =
        cc (same_hmac, is, k.subject) in
      record {
        bound =
            same_binding r.binding caller session.relying_party session.client session.transaction;
        begun = session.begun.1;
        live = session.live.0;
        approved = g.approved;
        consent = g.consent;
        values = g.values;
        asked =
            subst
              (λ (s : AuthContext).
                ((fields_from c [] g.approved ≡ []) × (g.values ≡ []) × (last.log ≡ v.log))
                ⊎ (registry_lookup later c s.identifier (fields_from c [] g.approved)
                      (record v { looks = v.looks + 1 })
                    ≡ (ok g.values, last)))
              is g.asked;
        released =
            subst
              (λ (text : Text).
                (claim : Text)
                → lookup claim result
                  ≡ (if contains g.approved claim then claim_value c text g.values claim else none))
              known g.released;
      }

-- ===== src/Engine/Tests.antt =====
-- A login and a release through the adapter, and the theorems at them.
use esignet_relay_authentica.Prelude.{
  ◌≡◌, ◌≢◌, ◌⊎◌, refl, ap, true, false, Option, none, some, List, [], ◌∷◌, if◌then◌else◌, ◌==◌,
}
use esignet_relay_authentica.Text.{Text, txt, text_eq}
use esignet_relay_authentica.Json.{Value, str}
use esignet_relay_authentica.Provider.{World, psut, context_map, opened}
use esignet_relay_authentica.Provider.Samples.{runs, good, sample, key, caller, idle}
use esignet_relay_authentica.Engine.Defs.{
  Reply, ClientAnswer, invalid_request_error, client_not_found_error, done, fault, found, not_found,
  Authenticator, Metadata, transaction_of, of_client, binding, provider_error, with_reply, answered,
  Requested, names_of, pick, engine_authenticate, engine_get_attributes,
}
use esignet_relay_authentica.Engine.Consent.{
  ConsentProvider, essential_denied, with_fresh_consent, IsFresh, with_fresh_consent_lem,
}
use esignet_relay_authentica.Engine.Release.{
  provider_identity, IsRelease, engine_get_attributes-IsRelease,
}
use esignet_relay_authentica.Engine.SignOn.{IsSignedOn, engine_authenticate-IsSignedOn}
use esignet_relay_authentica.Engine.Startup.{init, IsAuthentic, init-IsAuthentic}
use esignet_relay_authentica.Engine.Startup
use esignet_relay_authentica.Config.{Outcome, defaults, load_config}
use esignet_relay_authentica.Config
use esignet_relay_authentica.Config.Samples.{sample_net, sample_yaml}
use esignet_relay_authentica.Config.Samples
use esignet_relay_authentica.Provider.Keys.Samples.{sample_crypto}
use esignet_relay_authentica.Provider.Startup.Samples.{
  files, certificates, pending, registry, ready, started, working,
}

engine : Unit {0}
unfolding runs transaction_of of_client binding provider_error with_reply answered names_of pick
    engine_authenticate engine_get_attributes provider_identity
engine = tt

-- One client `q` of the party `p` is registered.
abbrev registered : Text → ClientAnswer
registered id =
    if id == txt "q" then found (record { client_id = txt "q"; rp_id = txt "p" }) else not_found

abbrev adapter : Authenticator
adapter = record {
  identity = provider_identity good sample key;
  clients = some registered;
  identifier_type = txt "uin";
  channels = txt "email" ∷ [];
}

abbrev metadata : Metadata
metadata =
    (txt "initiator_query_client_id", txt "q" ∷ [])
    ∷ (txt "provider_ext_TransactionID", txt "x" ∷ [])
    ∷ []

abbrev stranger : Metadata
stranger = (txt "initiator_query_client_id", txt "r" ∷ []) ∷ []

binds :
    (binding adapter metadata true ≡ done caller)
    × (binding adapter stranger false ≡ fault client_not_found_error)
    × (binding adapter [] false ≡ fault invalid_request_error)
unfolding engine
binds = (refl, refl, refl)

abbrev names : List (Text × Value)
names = (txt "username", str (txt "7")) ∷ []

abbrev codes : List (Text × Value)
codes = (txt "otp", str (txt "111111")) ∷ []

abbrev subject : Text
subject = psut good.hmac key (opened 1000 (txt "7") (txt "uin") caller)

abbrev token : List (Text × Value)
token = context_map (opened 1000 (txt "7") (txt "uin") caller)

abbrev world_signed_on : World
world_signed_on = (engine_authenticate adapter names codes (some metadata) idle).1

signs_on :
    engine_authenticate adapter names codes (some metadata) idle
    ≡ (done (subject, token), world_signed_on)
unfolding engine
signs_on = refl

engine_authenticate-IsSignedOn_example :
    IsSignedOn good sample key adapter names codes (some metadata) idle subject token
engine_authenticate-IsSignedOn_example =
    engine_authenticate-IsSignedOn good sample key adapter names codes (some metadata) idle
      world_signed_on subject token refl signs_on

abbrev asked : Requested
asked = record { verifications = []; attributes = (txt "sub", false) ∷ (txt "name", false) ∷ [] }

abbrev attributes : List (Text × Value)
attributes = (txt "name", str (txt "N")) ∷ (txt "sub", str subject) ∷ []

abbrev world_released : World
world_released = (engine_get_attributes adapter (some token) (some asked) (some metadata) idle).1

releases :
    engine_get_attributes adapter (some token) (some asked) (some metadata) idle
    ≡ (done attributes, world_released)
unfolding engine
releases = refl

engine_get_attributes-IsRelease_example :
    IsRelease good sample key adapter
      (some token)
      (some asked)
      (some metadata)
      idle
      world_released
      attributes
engine_get_attributes-IsRelease_example =
    engine_get_attributes-IsRelease good sample key adapter (some token) (some asked)
      (some metadata) idle world_released attributes refl releases

-- An engine that denies every consent.
abbrev strict : ConsentProvider Text Text
strict = record {
  record_consent = λ args. (args, some (record { code = essential_denied; detail = [] }));
  resolve_consent = λ args forced. (args, none);
}

fresh : ConsentProvider Text Text
fresh = with_fresh_consent (txt "breg") strict

refuses :
    (fresh.record_consent (txt "a")
      ≡ (txt "a", some (record { code = txt "AUTH-CES-1006"; detail = [] })))
    × (fresh.resolve_consent (txt "a") false ≡ (txt "a", none))
unfolding fresh with_fresh_consent
refuses = (refl, refl)

with_fresh_consent_lem_example :
    (((txt "breg" ≡ txt "breg") × IsFresh strict (with_fresh_consent (txt "breg") strict))
      ⊎ ((txt "breg" ≢ txt "breg") × (with_fresh_consent (txt "breg") strict ≡ strict)))
    × (with_fresh_consent (txt "breg") (with_fresh_consent (txt "breg") strict)
        ≡ with_fresh_consent (txt "breg") strict)
with_fresh_consent_lem_example = with_fresh_consent_lem (txt "breg") strict

-- An adapter from the file `y`, over the provider of its configuration.
abbrev with_config : Text → Option Text
with_config path = if path == txt "y" then some (txt "x") else files path

abbrev initial : Outcome Authenticator
initial =
    init sample_net sample_yaml sample_crypto with_config certificates pending registry (txt "y")
      registered

abbrev started_adapter : Authenticator
started_adapter = Startup.adapter pending registry registered (defaults Samples.sample) ready

starting : Unit {0}
unfolding started engine working init Startup.adapter load_config
starting = tt

inits : initial ≡ Config.done started_adapter
unfolding starting
inits = refl

abbrev mailed_code : List (Text × Value)
mailed_code = (txt "otp", str (txt "000042")) ∷ []

abbrev outcome : Reply (Text × List (Text × Value)) × World
outcome = engine_authenticate started_adapter names mailed_code (some metadata) idle

abbrev reply_of : Reply (Text × List (Text × Value)) → Text × List (Text × Value)
reply_of (done a) = a
reply_of (fault e) = ([], [])

authenticates : outcome.0 ≡ done (reply_of outcome.0)
unfolding starting
authenticates = refl

init-IsAuthentic_example :
    IsAuthentic sample_net sample_yaml sample_crypto with_config certificates pending registry
      (txt "y")
      registered
      started_adapter
      names
      mailed_code
      (some metadata)
      idle
      (reply_of outcome.0).0
      (reply_of outcome.0).1
init-IsAuthentic_example =
    init-IsAuthentic sample_net sample_yaml sample_crypto with_config certificates pending registry
      (txt "y") registered started_adapter names mailed_code (some metadata) idle outcome.1
      (reply_of outcome.0).0 (reply_of outcome.0).1 inits
      (ap (λ (r : Reply (Text × List (Text × Value))). (r, outcome.1)) authenticates)

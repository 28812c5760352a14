-- ===== src/Engine/Startup.antt =====
-- `Init`, and what then stands behind an authentication, from the file of the configuration on.
use esignet_relay_authentica.Prelude.{
  ◌≡◌, refl, sym, ap, subst, ◌∙◌, Bool, true, Option, none, some, List, [], ◌⊎◌, inl, inr,
}
use esignet_relay_authentica.Text.{Text}
use esignet_relay_authentica.Json.{Value}
use esignet_relay_authentica.Config.{
  Config, defaults, defaults_idempotent, Net, Yaml, Outcome, load_config_from_env, load_config,
  IsLoaded, load_config-IsLoaded,
}
use esignet_relay_authentica.Config
use esignet_relay_authentica.Provider.{Env, World, supported_otp_channels}
use esignet_relay_authentica.Provider.Keys.{Crypto}
use esignet_relay_authentica.Provider.Startup.{
  Verifier, custom, mailpit, static, Provider, IsChosen, new, IsReady, new-IsReady, Scene, running,
  Vouches, verified-Vouches,
}
use esignet_relay_authentica.Engine.Defs.{
  done, ClientAnswer, Authenticator, Metadata, engine_authenticate,
}
use esignet_relay_authentica.Engine.Release.{provider_identity}
use esignet_relay_authentica.Engine.SignOn.{IsSignedOn, engine_authenticate-IsSignedOn}

abbrev pub then_start : {A B : Type 0} → Outcome A → (A → Outcome B) → Outcome B
then_start (Config.done a) next = next a
then_start (Config.failed message) next = Config.failed message

then_start-done :
    {A B : Type 0} (o : Outcome A) (next : A → Outcome B) (b : B)
    → then_start o next ≡ Config.done b
    → (a : A) × (o ≡ Config.done a) × (next a ≡ Config.done b)
then_start-done (Config.done a) next b h = (a, refl, h)
then_start-done (Config.failed message) next b h = absurd (cc h)

module _ {V : Type 0} (scene : Scene V) (env : Env) where
  -- The `authenticator` that `Init` returns, for its configuration and its provider. Its resolver of
  -- clients is never nil, since it holds a value of the type `*clientmgmt.Service`.
  unfoldable pub adapter : (Text → ClientAnswer) → Config → Provider V → Authenticator
  adapter clients c p = record {
    identity = provider_identity (running scene p env) p.config p.secret;
    clients = some clients;
    identifier_type = c.subject_id_type;
    channels = supported_otp_channels p.config;
  }

module _ (net : Net) (yaml : Yaml) (crypto : Crypto) (read : Text → Option Text)
    (has_certificate : Text → Bool) {V : Type 0} (scene : Scene V) (env : Env) where
  unfoldable pub init : Text → (Text → ClientAnswer) → Outcome Authenticator
  unfolding adapter new load_config
  init path clients = then_start (load_config_from_env net yaml read path) (λ c.
      then_start (new net crypto read has_certificate {V = V} c [])
        (λ p. Config.done (adapter scene env clients c p)))

  -- What an adapter of `Init` runs on.
  pub record IsInit (path : Text) (clients : Text → ClientAnswer) (a : Authenticator) : Type 0 where
    pub c : Config
    pub loaded : IsLoaded net yaml (read path) c
    pub p : Provider V
    pub config : p.config ≡ c
    pub ready : IsReady crypto read has_certificate c none p
    pub is : a ≡ adapter scene env clients c p

  done_injective :
      (a b : Authenticator)
      → ◌≡◌ {A = Outcome Authenticator} (Config.done a) (Config.done b)
      → a ≡ b
  done_injective a b h = cc h

  -- An adapter that `Init` returns runs on the loaded configuration, with nothing filled in twice, and
  -- on a provider that `New` made of it without any option.
  pub init-IsInit :
      (path : Text) (clients : Text → ClientAnswer) (a : Authenticator)
      → init path clients ≡ Config.done a
      → IsInit path clients a
  unfolding init
  init-IsInit path clients a h =
      let (c, loads, h1) = then_start-done (load_config_from_env net yaml read path) _ a h in
      let (p, starts, h2) =
        then_start-done (new net crypto read has_certificate {V = V} c []) _ a h1 in
      let loaded = load_config-IsLoaded net yaml (read path) c loads in
      let ready = new-IsReady net crypto read has_certificate c [] p starts in
      record {
        c = c;
        loaded = loaded;
        p = p;
        config =
            ready.config
            ∙ ap defaults loaded.filled
            ∙ defaults_idempotent loaded.given
            ∙ sym loaded.filled;
        ready = ready;
        is = sym (done_injective (adapter scene env clients c p) a h2);
      }

  -- An authentication by an adapter from `Init`.
  pub record IsAuthentic (path : Text) (clients : Text → ClientAnswer) (a : Authenticator)
      (identifiers credentials : List (Text × Value)) (metadata : Option Metadata) (w : World)
      (reference : Text) (token : List (Text × Value)) : Type 0 where
    pub started : IsInit path clients a
    pub signed_on :
        IsSignedOn
          (running scene started.p env)
          started.p.config
          started.p.secret
          a
          identifiers
          credentials
          metadata
          w
          reference
          token
    pub vouched : Vouches scene started.p.verifier (record {
      identifier = signed_on.identifier;
      identifier_type = a.identifier_type;
      challenge = signed_on.challenge;
      binding = signed_on.b;
    })
    pub demo : (started.c.demo.mailpit.enabled ≡ true) ⊎ (started.c.demo.static_otp_enabled ≡ true)

  demo_mode :
      (c : Config) (v : Verifier V)
      → IsChosen read c none v
      → (c.demo.mailpit.enabled ≡ true) ⊎ (c.demo.static_otp_enabled ≡ true)
  demo_mode c (custom v) h = absurd (cc h)
  demo_mode c (mailpit m timeout) h = inl h.1
  demo_mode c (static otp) h = inr h.2

  -- If `Init` returned the adapter and it authenticates, the configuration was loaded from the file of
  -- the environment's path, `New` made the provider of it, the provider granted the login of the
  -- request's name and code under the binding of a registered client, the configured verifier
  -- vouches for that code, and it is one for demonstrations: one of their two modes is on.
  pub init-IsAuthentic :
      (path : Text) (clients : Text → ClientAnswer) (a : Authenticator)
      (identifiers credentials : List (Text × Value)) (metadata : Option Metadata) (w after : World)
      (reference : Text) (token : List (Text × Value))
      → init path clients ≡ Config.done a
      → engine_authenticate a identifiers credentials metadata w ≡ (done (reference, token), after)
      → IsAuthentic path clients a identifiers credentials metadata w reference token
  unfolding adapter running
  init-IsAuthentic path clients a identifiers credentials metadata w after reference token h k =
      let started = init-IsInit path clients a h in
      let p = started.p in
      let signed_on =
        engine_authenticate-IsSignedOn (running scene p env) p.config p.secret a identifiers
          credentials metadata w after reference token
          (ap (λ (b : Authenticator). b.identity) started.is) k in
      record {
        started = started;
        signed_on = signed_on;
        vouched =
            verified-Vouches scene p.verifier
              (record {
                identifier = signed_on.identifier;
                identifier_type = a.identifier_type;
                challenge = signed_on.challenge;
                binding = signed_on.b;
              })
              signed_on.granted.challenge;
        demo =
            subst
              (λ (c : Config). (c.demo.mailpit.enabled ≡ true) ⊎ (c.demo.static_otp_enabled ≡ true))
              started.config (demo_mode p.config p.verifier started.ready.chosen);
      }

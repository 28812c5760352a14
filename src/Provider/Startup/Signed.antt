-- ===== src/Provider/Startup/Signed.antt =====
-- The token requests of a provider that `New` returned.
use esignet_relay_authentica.Prelude.{
  ◌+◌, ◌≤◌, ◌≡◌, Bool, true, Option, none, List, ℤ, pos, negsuc, nat_of, arith,
}
use esignet_relay_authentica.Text.{Text}
use esignet_relay_authentica.Types.{Time, unix, ok}
use esignet_relay_authentica.Config.{Config, Net, done}
use esignet_relay_authentica.Provider.Runtime.{Env, World}
use esignet_relay_authentica.Provider.Http.{positive, acquire}
use esignet_relay_authentica.Provider.Issued.{IsIssued, acquire-IsIssued}
use esignet_relay_authentica.Provider.Assertion.{IsAsserted, assertion-IsAsserted}
use esignet_relay_authentica.Provider.Keys.{Crypto}
use esignet_relay_authentica.Provider.Startup.Defs.{Provider, with_options, new}
use esignet_relay_authentica.Provider.Startup.Ready.{IsReady, new-IsReady}
use esignet_relay_authentica.Provider.Startup.Vouched.{Scene, running}

positive_at_least : (i : ℤ) → 1 ≤ nat_of i → positive i ≡ true
positive_at_least (pos n) h = ground arith
positive_at_least (negsuc n) h = absurd (omega arith)

module _ {V : Type 0} (scene : Scene V) where
  pub record IsSigned (crypto : Crypto) (read : Text → Option Text) (has_certificate : Text → Bool)
      (given : Config) (verifier : Option V) (p : Provider V) (env : Env) (start : Time)
      (w after : World) (token : Text) (lifetime : Time) : Type 0 where
    pub ready : IsReady crypto read has_certificate given verifier p
    pub issued : IsIssued (running scene p env) p.config start w after token lifetime
    pub asserted :
        IsAsserted scene.sha256 p.key scene.random p.config.token_client.client_id
          p.config.token_client.assertion_audience
          (pos (unix start))
          (pos (unix start + nat_of p.config.token_client.assertion_ttl_seconds))
          issued.assertion

  -- If `New` returned the provider and it acquires a token, the token was issued as it has to be, for
  -- an assertion in three parts that the loaded key signed, and the key is one that signs.
  pub acquire-IsSigned :
      (net : Net) (crypto : Crypto) (read : Text → Option Text) (has_certificate : Text → Bool)
      (given : Config) (options : List (Option (Option V))) (p : Provider V) (env : Env)
      (start : Time) (w after : World) (token : Text) (lifetime : Time)
      → new net crypto read has_certificate given options ≡ done p
      → acquire (running scene p env) p.config start w ≡ (ok (token, lifetime), after)
      → IsSigned crypto read has_certificate given
          (with_options none options)
          p
          env
          start
          w
          after
          token
          lifetime
  unfolding running
  acquire-IsSigned net crypto read has_certificate given options p env start w after token lifetime
        h k =
      let ready = new-IsReady net crypto read has_certificate given options p h in
      let cap =
        positive_at_least p.config.token_client.token_cache_max_seconds ready.accepted.cache.0 in
      let issued =
        acquire-IsIssued (running scene p env) p.config start w after token lifetime cap k in
      record {
        ready = ready;
        issued = issued;
        asserted =
            assertion-IsAsserted scene.sha256 p.key scene.random p.config.token_client.client_id
              p.config.token_client.assertion_audience (pos (unix start))
              (pos (unix start + nat_of p.config.token_client.assertion_ttl_seconds))
              issued.assertion issued.signed;
      }

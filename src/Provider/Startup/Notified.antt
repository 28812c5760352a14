-- ===== src/Provider/Startup/Notified.antt =====
-- The one-time codes of a provider that `New` returned.
use esignet_relay_authentica.Prelude.{◌+◌, ◌≡◌, refl, Bool, true, not, Option, none, some, List}
use esignet_relay_authentica.Text.{Text}
use esignet_relay_authentica.Types.{OtpRequest, Error, unavailable, ok}
use esignet_relay_authentica.Config.{Config, Net, done}
use esignet_relay_authentica.Mailpit.{IsMailed, send_otp-IsMailed}
use esignet_relay_authentica.Provider.Runtime.{
  Env, World, Action, require, fail, after_require, after_is_done,
}
use esignet_relay_authentica.Provider.Identity.{valid_otp_request, send_otp}
use esignet_relay_authentica.Provider.Keys.{Crypto}
use esignet_relay_authentica.Provider.Startup.Defs.{
  Verifier, custom, mailpit, static, Provider, with_options, new,
}
use esignet_relay_authentica.Provider.Startup.Ready.{IsReady, new-IsReady}
use esignet_relay_authentica.Provider.Startup.Vouched.{
  Scene, mailed, notified, error_of-none, running,
}

module _ {V : Type 0} (scene : Scene V) where
  -- What a verifier without an error has done.
  abbrev pub Notifies : Verifier V → OtpRequest → Type 0
  Notifies (custom v) r = scene.custom_send v r ≡ none
  Notifies (mailpit m timeout) r =
      IsMailed scene.sha256 scene.server m scene.delivery r (mailed scene m r).0
  Notifies (static otp) r = scene.canceled ≡ none

  notified-Notifies : (v : Verifier V) (r : OtpRequest) → notified scene v r ≡ none → Notifies v r
  notified-Notifies (custom v) r h = h
  notified-Notifies (mailpit m timeout) r h =
      send_otp-IsMailed scene.sha256 scene.server m scene.late scene.delivery r scene.challenges
        (error_of-none (mailed scene m r).1 h)
  notified-Notifies (static otp) r h = h

  pub record IsNotified (crypto : Crypto) (read : Text → Option Text)
      (has_certificate : Text → Bool) (given : Config) (verifier : Option V) (p : Provider V)
      (r : OtpRequest) : Type 0 where
    pub ready : IsReady crypto read has_certificate given verifier p
    pub valid : valid_otp_request p.config r ≡ true
    pub notified : Notifies p.verifier r

  pub sent_none :
      (o : Option Error) (expired : Bool) (w after : World)
      → (elim o as (λ _. Action (Unit {0})) [
        | none ↦ require (not expired) unavailable
        | some e ↦ fail unavailable
      ])
          w
        ≡ (ok tt, after)
      → o ≡ none
  sent_none none expired w after h = refl
  sent_none (some e) expired w after h = absurd (cc h)

  -- If `New` returned the provider and its SendOTP succeeds, the request is valid and the configured
  -- verifier did its part: with the mailing one, the mail server acknowledged one six-digit code,
  -- which then opens under just this request's identifier and binding, and for five minutes.
  pub send_otp-IsNotified :
      (net : Net) (crypto : Crypto) (read : Text → Option Text) (has_certificate : Text → Bool)
      (given : Config) (options : List (Option (Option V))) (p : Provider V) (env : Env)
      (r : OtpRequest) (w after : World)
      → new net crypto read has_certificate given options ≡ done p
      → send_otp (running scene p env) p.config p.secret r w ≡ (ok tt, after)
      → IsNotified crypto read has_certificate given (with_options none options) p r
  unfolding running send_otp
  send_otp-IsNotified net crypto read has_certificate given options p env r w after h k =
      after_require _ _ _ _ k (λ valid k1.
        let k2 = after_is_done (running scene p env) _ _ k1 in
        record {
          ready = new-IsReady net crypto read has_certificate given options p h;
          valid = valid;
          notified = notified-Notifies p.verifier r (
              sent_none (notified scene p.verifier r) (env.ended w.looks)
                (record w { looks = w.looks + 1 }) after k2);
        })

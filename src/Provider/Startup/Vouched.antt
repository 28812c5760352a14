-- ===== src/Provider/Startup/Vouched.antt =====
-- A provider at work: its verifier, its key and its secret where the environment had them.
use esignet_relay_authentica.Prelude.{
  ◌≡◌, refl, sym, ap, ◌∙◌, Bool, Option, none, some, List, pos, arith, ==_iff,
}
use esignet_relay_authentica.Text.{Text, text_eq}
use esignet_relay_authentica.Types.{Time, Error, ChallengeRequest, OtpRequest, Result, ok, err}
use esignet_relay_authentica.Config.{Config, Net, MailpitConfig, done}
use esignet_relay_authentica.Mailpit.{
  Delivery, Server, through, challenge_key, key_eq, verify, Accepts, verify-eq-ok_iff,
  verify_canceled,
}
use esignet_relay_authentica.Mailpit
use esignet_relay_authentica.Provider.Runtime.{Env, World}
use esignet_relay_authentica.Provider.Identity.{Login, static_verify, static_send_otp, authenticate}
use esignet_relay_authentica.Provider.Granted.{IsGranted, authenticate-IsGranted}
use esignet_relay_authentica.Provider.Assertion.{assertion}
use esignet_relay_authentica.Provider.Keys.{Crypto}
use esignet_relay_authentica.Provider.Startup.Defs.{
  Verifier, custom, mailpit, static, Provider, with_options, new,
}
use esignet_relay_authentica.Provider.Startup.Ready.{IsReady, new-IsReady}

-- What a call meets beside the environment: SHA-256, the random bytes, the context, the clock and the
-- challenges that are pending at the moment of verification, the deployment's verifiers, and for a
-- mailed code what `SendOTP` meets: its draws, the mail server, and the context's error at the end.
pub record Scene (V : Type 0) : Type 0 where
  pub sha256 : Text → Text
  pub random : Option Text
  pub ended : Bool
  pub canceled : Option Error
  pub moment : Time
  pub challenges : Mailpit.Verifier
  pub custom_verify : V → ChallengeRequest → Option Error
  pub custom_send : V → OtpRequest → Option Error
  pub delivery : Delivery
  pub server : Server
  pub late : Option Error

abbrev pub error_of : Result (Unit {0}) → Option Error
error_of (ok u) = none
error_of (err e) = some e

pub error_of-none : (r : Result (Unit {0})) → error_of r ≡ none → r ≡ ok tt
error_of-none (ok u) h = refl
error_of-none (err e) h = absurd (cc h)

module _ {V : Type 0} (scene : Scene V) where
  -- `p.verifier.Verify`.
  unfoldable pub verified : Verifier V → ChallengeRequest → Option Error
  unfolding static_verify
  verified (custom v) r = scene.custom_verify v r
  verified (mailpit m timeout) r =
      error_of (verify scene.sha256 scene.canceled scene.moment r scene.challenges).1
  verified (static otp) r = static_verify otp scene.ended r

  -- `SendOTP` of the mailing verifier, with its dialogue.
  abbrev pub mailed : MailpitConfig → OtpRequest → Mailpit.Verifier × Result (Unit {0})
  mailed m r =
      Mailpit.send_otp scene.sha256 (through scene.server m scene.late scene.delivery) r
        scene.challenges

  -- `p.verifier.SendOTP`.
  abbrev pub notified : Verifier V → OtpRequest → Option Error
  notified (custom v) r = scene.custom_send v r
  notified (mailpit m timeout) r = error_of (mailed m r).1
  notified (static otp) r = static_send_otp scene.canceled r

  unfoldable pub running : Provider V → Env → Env
  running p env = record env {
    verify = verified p.verifier;
    send_otp = notified p.verifier;
    assertion = λ client audience iat exp.
        assertion scene.sha256 p.key scene.random client audience (pos iat) (pos exp);
  }

  -- What the verifier vouches for when it has no error.
  abbrev pub Vouches : Verifier V → ChallengeRequest → Type 0
  Vouches (custom v) r = scene.custom_verify v r ≡ none
  Vouches (mailpit m timeout) r = Accepts scene.sha256 scene.moment r scene.challenges
  Vouches (static otp) r = r.challenge ≡ otp

  mailpit-Accepts :
      (canceled : Option Error) (r : ChallengeRequest)
      → error_of (verify scene.sha256 canceled scene.moment r scene.challenges).1 ≡ none
      → Accepts scene.sha256 scene.moment r scene.challenges
  mailpit-Accepts none r h =
      (verify-eq-ok_iff scene.sha256 scene.moment r scene.challenges).0 (error_of-none _ h)
  mailpit-Accepts (some e) r h =
      let ended = verify_canceled scene.sha256 e scene.moment r scene.challenges in
      absurd (cc (ap (λ out. error_of out.1) (sym ended) ∙ h))

  pub verified-Vouches : (v : Verifier V) (r : ChallengeRequest) → verified v r ≡ none → Vouches v r
  unfolding verified
  verified-Vouches (custom v) r h = h
  verified-Vouches (mailpit m timeout) r h = mailpit-Accepts scene.canceled r h
  verified-Vouches (static otp) r h = ground (arith, ==_iff otp r.challenge)

  pub record IsVouched (crypto : Crypto) (read : Text → Option Text) (has_certificate : Text → Bool)
      (given : Config) (verifier : Option V) (p : Provider V) (env : Env) (r : ChallengeRequest)
      (w : World) (login : Login) : Type 0 where
    pub ready : IsReady crypto read has_certificate given verifier p
    pub granted : IsGranted (running p env) p.config p.secret r w login
    pub vouched : Vouches p.verifier r

  -- If `New` returned the provider and its Authenticate grants a login, the provider has its accepted
  -- configuration and files, the request is valid and the account was checked, and the configured
  -- verifier vouches for the challenge: the deployment's own accepted it, or a mailed code of just this
  -- identifier and binding was pending and had not expired, or it is the demo file's code.
  pub authenticate-IsVouched :
      (net : Net) (crypto : Crypto) (read : Text → Option Text) (has_certificate : Text → Bool)
      (given : Config) (options : List (Option (Option V))) (p : Provider V) (env : Env)
      (r : ChallengeRequest) (w after : World) (login : Login)
      → new net crypto read has_certificate given options ≡ done p
      → authenticate (running p env) p.config p.secret r w ≡ (ok login, after)
      → IsVouched crypto read has_certificate given (with_options none options) p env r w login
  unfolding running
  authenticate-IsVouched net crypto read has_certificate given options p env r w after login h k =
      let granted = authenticate-IsGranted (running p env) p.config p.secret r w after login k in
      record {
        ready = new-IsReady net crypto read has_certificate given options p h;
        granted = granted;
        vouched = verified-Vouches p.verifier r granted.challenge;
      }

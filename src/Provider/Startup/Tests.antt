-- ===== src/Provider/Startup/Tests.antt =====
-- A provider that is put together from a configuration and files, and the theorems at it.
use esignet_relay_authentica.Prelude.{
  ◌+◌, ◌*◌, ◌≡◌, refl, ap, Bool, true, false, Option, none, some, List, [], ◌∷◌, arith,
}
use esignet_relay_authentica.Text.{Text, txt, text_eq}
use esignet_relay_authentica.Types.{Result, Time, second, unix, ok, err}
use esignet_relay_authentica.Config.{Config, Outcome, done, failed}
use esignet_relay_authentica.Config.Samples.{sample, sample_net}
use esignet_relay_authentica.Provider.Runtime.{World}
use esignet_relay_authentica.Provider.Samples.{good, idle}
use esignet_relay_authentica.Provider.Identity.{Login, valid_otp_request, account_ok, authenticate}
use esignet_relay_authentica.Provider.Lookup.{registry_lookup}
use esignet_relay_authentica.Provider.Psut.{psut}
use esignet_relay_authentica.Provider.Context.{context_map}
use esignet_relay_authentica.Provider.Restore.{opened}
use esignet_relay_authentica.Json.{Value, str}
use esignet_relay_authentica.Provider.Identity
use esignet_relay_authentica.Provider.Http.{acquire}
use esignet_relay_authentica.Provider.Keys.Samples.{sample_crypto}
use esignet_relay_authentica.Provider.Startup.Defs.{Verifier, static, Provider, new}
use esignet_relay_authentica.Provider.Startup.Ready.{IsReady, new-IsReady}
use esignet_relay_authentica.Provider.Startup.Complete.{IsStartable, new-IsStartable}
use esignet_relay_authentica.Provider.Startup.Vouched.{Scene, mailed, running}
use esignet_relay_authentica.Provider.Startup.Signed.{IsSigned, acquire-IsSigned}
use esignet_relay_authentica.Provider.Startup.Notified.{IsNotified, send_otp-IsNotified}
use esignet_relay_authentica.Provider.Startup.Completed.{IsFollowed, authenticate-send_otp}
use esignet_relay_authentica.Provider.Startup.Samples.{
  files, certificates, started, ready, wanted, scene, working, registry, pending, attempt,
}

abbrev start_with : Config → Outcome (Provider (Unit {0}))
start_with c = new sample_net sample_crypto files certificates c []

abbrev in_demo : Bool → Bool → Config
in_demo mailing fixed = record sample {
  demo = record sample.demo {
    static_otp_enabled = fixed;
    static_otp_file = txt "o";
    mailpit = record sample.demo.mailpit { enabled = mailing };
  };
}

abbrev verifier_of : Outcome (Provider (Unit {0})) → Option (Verifier (Unit {0}))
verifier_of (done p) = some p.verifier
verifier_of (failed message) = none

-- Without a demo mode or a verifier, with the static one, and with a secret that is too short.
start_tests :
    (start_with (in_demo false false) ≡ failed (txt "production challenge verifier required"))
    × (verifier_of (start_with (in_demo false true)) ≡ some (static (txt "77")))
    × (start_with (record sample { psut_secret_file = txt "k" })
        ≡ failed (txt "PSUT secret file must contain at least 32 bytes"))
unfolding started
start_tests = (refl, refl, refl)

starts : start_with sample ≡ done ready
unfolding started
starts = refl

new-IsReady_example : IsReady sample_crypto files certificates sample none ready
unfolding started
new-IsReady_example = new-IsReady sample_net sample_crypto files certificates sample [] ready starts

abbrev mailed_otp : Result (Unit {0}) × World
mailed_otp = Identity.send_otp (running scene ready good) ready.config ready.secret wanted idle

mails : mailed_otp.0 ≡ ok tt
unfolding working
mails = refl

send_otp-IsNotified_example :
    IsNotified scene sample_crypto files certificates sample none ready wanted
unfolding started
send_otp-IsNotified_example =
    send_otp-IsNotified scene sample_net sample_crypto files certificates sample [] ready good
      wanted idle mailed_otp.1 starts (ap (λ (r : Result (Unit {0})). (r, mailed_otp.1)) mails)

abbrev granted : Result Login × World
granted = authenticate (running pending ready registry) ready.config ready.secret attempt idle

abbrev login_of : Result Login → Login
login_of (ok login) = login
login_of (err e) = record { subject = []; context = [] }

grants : granted.0 ≡ ok (login_of granted.0)
unfolding working
grants = refl

abbrev issued : Result (Text × Time) × World
issued = acquire (running scene ready registry) ready.config 0 idle

issues : issued.0 ≡ ok (txt "tok", 300 * second)
unfolding working
issues = refl

acquire-IsSigned_example :
    IsSigned scene sample_crypto files certificates sample none ready registry 0 idle issued.1
      (txt "tok")
      (300 * second)
unfolding started
acquire-IsSigned_example =
    acquire-IsSigned scene sample_net sample_crypto files certificates sample [] ready registry 0
      idle issued.1 (txt "tok") (300 * second) starts
      (ap (λ (r : Result (Text × Time)). (r, issued.1)) issues)

startable :
    IsStartable sample_net sample_crypto files certificates ready.config none ready.verifier
      ready.secret ready.key ready.roots
unfolding started
startable = record {
  valid = refl;
  chosen = (refl, refl, refl, refl);
  secret_file = record { file = refl; small = omega arith };
  secret_length = omega arith;
  loaded = refl;
  certificates = refl;
}

new-IsStartable_example : start_with sample ≡ done ready
unfolding started
new-IsStartable_example =
    new-IsStartable sample_net sample_crypto files certificates sample [] ready.verifier
      ready.secret ready.key ready.roots startable

-- The code that was mailed is submitted.
abbrev afterwards : Scene (Unit {0})
afterwards = record scene { challenges = (mailed scene sample.demo.mailpit wanted).0 }

abbrev answer : Result (List (Text × Value)) × World
answer =
    registry_lookup (running afterwards ready registry) ready.config (txt "7")
      ready.config.breg.account_check_fields (record idle { looks = 2 })

abbrev account : List (Text × Value)
account = (txt "uin", str (txt "7")) ∷ (txt "status", str (txt "active")) ∷ []

answers : answer.0 ≡ ok account
unfolding working
answers = refl

passes : account_ok ready.config (txt "7") account ≡ true
unfolding working
passes = refl

followed : IsFollowed scene afterwards sample.demo.mailpit wanted attempt
unfolding working
followed = record {
  number = 42;
  drawn = refl;
  submitted = refl;
  same_key = refl;
  same_digest = refl;
  untouched = refl;
  not_canceled = refl;
  in_time = omega arith;
}

authenticate-send_otp_example :
    authenticate (running afterwards ready registry) ready.config ready.secret attempt idle ≡ (
      ok (record {
        subject =
            psut registry.hmac ready.secret
              (opened (unix (registry.clock answer.1.looks)) (txt "7") (txt "uin") attempt.binding);
        context =
            context_map
              (opened (unix (registry.clock answer.1.looks)) (txt "7") (txt "uin") attempt.binding);
      }),
      record answer.1 { looks = answer.1.looks + 1 },
    )
unfolding started
authenticate-send_otp_example =
    authenticate-send_otp scene afterwards sample.demo.mailpit ready good registry (10 * second)
      wanted attempt idle mailed_otp.1 idle answer.1 account refl
      (ap (λ (r : Result (Unit {0})). (r, mailed_otp.1)) mails) followed refl refl
      (ap (λ (r : Result (List (Text × Value))). (r, answer.1)) answers) passes

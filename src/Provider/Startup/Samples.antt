-- ===== src/Provider/Startup/Samples.antt =====
-- Files, a provider made of them, and what it meets in the tests.
use esignet_relay_authentica.Prelude.{
  Bool, true, false, Option, none, some, [], ◌∷◌, pos, if◌then◌else◌, ◌==◌, ◌*◌,
}
use esignet_relay_authentica.Text.{Text, txt, text_eq, text_beq, blank, trim_space}
use esignet_relay_authentica.Types.{second, Binding, ChallengeRequest, OtpRequest, other}
use esignet_relay_authentica.Json.{Value, int, str, obj, end, member}
use esignet_relay_authentica.Config.{defaults, read_bounded}
use esignet_relay_authentica.Config.Samples.{sample, config}
use esignet_relay_authentica.Mailpit.{
  Delivery, Server, through, new_mailpit_verifier, otp_key, send_otp, deliver, talk, issue, reserve,
  purge, format_code, acceptable, mailpit_digest, mailpit_challenge_ttl, key_beq,
}
use esignet_relay_authentica.Mailpit
use esignet_relay_authentica.Provider.Runtime.{Env}
use esignet_relay_authentica.Provider.Samples.{good, runs}
use esignet_relay_authentica.Provider.Identity.{Login, valid_otp_request, authenticate}
use esignet_relay_authentica.Provider.Identity
use esignet_relay_authentica.Provider.Assertion.{rsa, assertion}
use esignet_relay_authentica.Provider.Keys.{signing, bit_len, load_key}
use esignet_relay_authentica.Provider.Keys.Samples.{sample_crypto, large_key}
use esignet_relay_authentica.Provider.Startup.Defs.{
  mailpit, Provider, with_options, choose, read_secret, read_roots, new,
}
use esignet_relay_authentica.Provider.Startup.Vouched.{Scene, verified, running}

abbrev pub secret_file : Text
secret_file = txt "0123456789abcdef0123456789abcdef"

abbrev pub files : Text → Option Text
files path =
    if path == txt "f"
    then some secret_file
    else (if path == txt "k"
        then some (txt "-x")
        else (if path == txt "o" then some (txt " 77 ") else none))

abbrev pub certificates : Text → Bool
certificates pem = true

unfoldable pub started : Unit {0}
unfolding config runs read_bounded load_key signing bit_len blank text_beq trim_space with_options
    choose read_secret read_roots new
started = tt

-- The provider of the sample, which mails its codes.
abbrev pub ready : Provider (Unit {0})
ready = record {
  config = defaults sample;
  verifier = mailpit sample.demo.mailpit (10 * second);
  secret = secret_file;
  key = record { key = rsa (sample_crypto.sign_rsa large_key); kid = txt "i"; alg = txt "RS256" };
  timeout = 10 * second;
  roots = none;
}

abbrev pub caller : Binding
caller = record { relying_party_id = txt "p"; client_id = txt "q"; transaction_id = txt "x" }

abbrev pub wanted : OtpRequest
wanted = record {
  identifier = txt "7";
  identifier_type = txt "uin";
  binding = caller;
  channels = txt "email" ∷ [];
}

abbrev pub scene : Scene (Unit {0})
scene = record {
  sha256 = λ s. s;
  random = some (1 ∷ 2 ∷ []);
  ended = false;
  canceled = none;
  moment = 5;
  challenges = new_mailpit_verifier;
  custom_verify = λ v r. some other;
  custom_send = λ v r. some other;
  delivery = record {
    canceled = none;
    clock = λ n. 0;
    number = some 42;
    salt = some (txt "s");
    issued = 0;
    deliver = λ code. none;
    canceled_after = none;
  };
  server = λ command. none;
  late = none;
}

unfoldable pub working : Unit {0}
unfolding started running verified assertion Identity.send_otp Mailpit.send_otp Mailpit.verify
    deliver talk through issue reserve purge format_code acceptable mailpit_digest key_beq
    valid_otp_request
working = tt

-- The registry's account has the three default fields; the token names no scope.
abbrev pub account_json : Value
account_json = obj (
    member (txt "data")
      (obj (
        member (txt "domainData")
          (obj
            (member (txt "uin") (str (txt "7")) (member (txt "status") (str (txt "active")) end)))
          end))
      end)

abbrev pub token_json : Value
token_json = obj (
    member (txt "access_token") (str (txt "tok")) (
      member (txt "token_type") (str (txt "bearer"))
        (member (txt "expires_in") (int (pos 900)) end)))

abbrev pub registry : Env
registry = record good {
  parse = λ raw. if raw == txt "T" then some (token_json, 10 ∷ []) else some (account_json, []);
}

abbrev pub pending : Scene (Unit {0})
pending = record scene {
  challenges = record new_mailpit_verifier {
    pending =
        (
          otp_key wanted,
          record { digest = txt "s000042"; salt = txt "s"; expires = 10; attempts = 0 },
        )
        ∷ [];
  };
}

abbrev pub attempt : ChallengeRequest
attempt = record {
  identifier = txt "7";
  identifier_type = txt "uin";
  challenge = txt "000042";
  binding = caller;
}

-- ===== src/Provider/Startup/Defs.antt =====
-- `New`. The files are a function of the path, `none` where one cannot be read; whether certificates
-- can be taken from a file is a parameter, as is the type of the verifiers that a deployment supplies.
use esignet_relay_authentica.Prelude.{
  ◌*◌, Bool, true, false, not, Option, none, some, List, [], ◌∷◌, ltb, if◌then◌else◌, nat_of,
  length,
}
use esignet_relay_authentica.Text.{Text, txt, is_empty, trim_space}
use esignet_relay_authentica.Types.{Time, second}
use esignet_relay_authentica.Config.{
  Config, MailpitConfig, defaults, Net, validate, read_bounded, Outcome, done, failed,
}
use esignet_relay_authentica.Provider.Assertion.{AssertionKey}
use esignet_relay_authentica.Provider.Keys.{Crypto, load_key}

-- What challenges are verified by: the deployment's own verifier, or one of the two for demonstrations.
pub data Verifier (V : Type 0) : Type 0 where
  custom : V → Verifier V
  mailpit : MailpitConfig → Time → Verifier V
  static : Text → Verifier V

-- `Provider`, as `New` leaves it: the HTTP client by its timeout and the certificates added to those
-- of the system.
pub record Provider (V : Type 0) : Type 0 where
  pub config : Config
  pub verifier : Verifier V
  pub secret : Text
  pub key : AssertionKey
  pub timeout : Time
  pub roots : Option Text

infixl 5 ◌>>=◌ ◌>>◌
abbrev pub ◌>>=◌ : {A B : Type 0} → Outcome A → (A → Outcome B) → Outcome B
done a >>= next = next a
failed message >>= next = failed message

abbrev pub ◌>>◌ : {B : Type 0} → Outcome (Unit {0}) → Outcome B → Outcome B
first >> second = first >>= λ _. second

abbrev pub or_failed : {A : Type 0} → Option A → Text → Outcome A
or_failed none message = failed message
or_failed (some a) message = done a

abbrev pub accepted : Option Text → Outcome (Unit {0})
accepted none = done tt
accepted (some message) = failed message

abbrev pub insist : Bool → Text → Outcome (Unit {0})
insist true message = done tt
insist false message = failed message

abbrev pub timeout_of : Config → Time
timeout_of c = nat_of c.http.timeout_seconds * second

module _ {V : Type 0} where
  -- `WithChallengeVerifier`, in turn: each option that is not nil sets the verifier, even to nil.
  unfoldable pub with_options : Option V → List (Option (Option V)) → Option V
  with_options verifier [] = verifier
  with_options verifier (none ∷ options) = with_options verifier options
  with_options verifier (some v ∷ options) = with_options v options

  abbrev pub static_verifier : Option Text → Outcome (Verifier V)
  static_verifier otp = do
    text ← or_failed (read_bounded otp 1024) (txt "demo OTP file invalid")
    insist (not (is_empty (trim_space text))) (txt "demo OTP file invalid")
    done (static (trim_space text))

  unfoldable pub choose : (Text → Option Text) → Config → Option V → Outcome (Verifier V)
  unfolding trim_space
  choose read c (some v) = done (custom v)
  choose read c none =
      if c.demo.mailpit.enabled
      then done (mailpit c.demo.mailpit (timeout_of c))
      else (if not c.demo.static_otp_enabled
          then failed (txt "production challenge verifier required")
          else static_verifier (read c.demo.static_otp_file))

abbrev pub secret_message : Text
secret_message = txt "PSUT secret file must contain at least 32 bytes"

unfoldable pub read_secret : Option Text → Outcome Text
unfolding read_bounded
read_secret file = do
  secret ← or_failed (read_bounded file 4096) secret_message
  insist (not (ltb (length secret) 32)) secret_message
  done secret

-- `roots.AppendCertsFromPEM` is true if a certificate was found.
unfoldable pub read_roots : (Text → Option Text) → (Text → Bool) → Text → Outcome (Option Text)
unfolding read_bounded
read_roots read has_certificate path = if is_empty path then done none else (do
  pem ← or_failed (read_bounded (read path) 1_048_576) (txt "CA file unavailable")
  insist (has_certificate pem) (txt "CA file invalid")
  done (some pem))

module _ (net : Net) (crypto : Crypto) (read : Text → Option Text)
    (has_certificate : Text → Bool) where
  unfoldable pub new : {V : Type 0} → Config → List (Option (Option V)) → Outcome (Provider V)
  unfolding with_options choose read_secret read_roots
  new given options = do
    let c = defaults given
    accepted (validate net c)
    verifier ← choose read c (with_options none options)
    secret ← read_secret (read c.psut_secret_file)
    key ←
        or_failed (load_key crypto (read c.token_client.private_key_file) c.token_client.key_id)
          (txt "token client signing key invalid")
    roots ← read_roots read has_certificate c.http.ca_file
    done (record {
      config = c;
      verifier = verifier;
      secret = secret;
      key = key;
      timeout = timeout_of c;
      roots = roots;
    })

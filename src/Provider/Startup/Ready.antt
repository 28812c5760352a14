-- ===== src/Provider/Startup/Ready.antt =====
-- What stands behind a provider that `New` returns.
use esignet_relay_authentica.Prelude.{
  ℕ, ◌*◌, ◌≤◌, ◌≡◌, refl, subst, ◌≢◌, Bool, true, false, not, Option, none, some, List, [], ◌∷◌,
  ltb, nat_of, length, arith, if_elim,
}
use esignet_relay_authentica.Text.{Text, txt, is_empty, is_empty_iff, trim_space}
use esignet_relay_authentica.Types.{second}
use esignet_relay_authentica.Config.{
  Config, defaults, Net, read_bounded, Outcome, done, failed, IsAccepted, validate-IsAccepted,
}
use esignet_relay_authentica.Provider.Keys.{Crypto, IsSigningKey, load_key-IsSigningKey}
use esignet_relay_authentica.Provider.Startup.Defs.{
  Verifier, custom, mailpit, static, Provider, ◌>>=◌, ◌>>◌, or_failed, accepted, insist,
  with_options, static_verifier, choose, read_secret, read_roots, new,
}

-- Where the steps of `New` that went well came from.
module _ {B : Type 0} {b : B} where
  after_or_failed :
      {A C : Type 0} (o : Option A) (message : Text) (next : A → Outcome B)
      → (or_failed o message >>= next) ≡ done b
      → ((a : A) → o ≡ some a → next a ≡ done b → C)
      → C
  after_or_failed none message next h goal = absurd (cc h)
  after_or_failed (some a) message next h goal = goal a refl h

  after_insist :
      {C : Type 0} (test : Bool) (message : Text) (next : Outcome B)
      → (insist test message >> next) ≡ done b
      → (test ≡ true → next ≡ done b → C)
      → C
  after_insist true message next h goal = goal refl h
  after_insist false message next h goal = absurd (cc h)

  after_accepted :
      {C : Type 0} (o : Option Text) (next : Outcome B)
      → (accepted o >> next) ≡ done b
      → (o ≡ none → next ≡ done b → C)
      → C
  after_accepted none next h goal = goal refl h
  after_accepted (some message) next h goal = absurd (cc h)

  after_do :
      {A C : Type 0} (o : Outcome A) (next : A → Outcome B)
      → (o >>= next) ≡ done b
      → ((a : A) → o ≡ done a → next a ≡ done b → C)
      → C
  after_do (done a) next h goal = goal a refl h
  after_do (failed message) next h goal = absurd (cc h)

-- A file that was read within its limit.
pub record IsRead (read : Text → Option Text) (path : Text) (limit : ℕ) (text : Text) : Type 0 where
  pub file : read path ≡ some text
  pub small : length text ≤ limit

read_bounded-eq-some :
    (o : Option Text) (limit : ℕ) (text : Text)
    → read_bounded o limit ≡ some text
    → (o ≡ some text) × (length text ≤ limit)
unfolding read_bounded
read_bounded-eq-some none limit text h = absurd (cc h)
read_bounded-eq-some (some b) limit text h =
    if_elim (λ o. o ≡ some text → (some b ≡ some text) × (length text ≤ limit))
      (ltb limit (length b)) (λ t got. absurd (cc got)) (λ f got. (got, ground arith)) h

-- The verifier is the deployment's if an option gives one, and a verifier for demonstrations only
-- where the configuration turns it on.
abbrev pub IsChosen : {V : Type 0} → (Text → Option Text) → Config → Option V → Verifier V → Type 0
IsChosen read c given (custom v) = given ≡ some v
IsChosen read c given (mailpit m timeout) =
    (given ≡ none)
    × (c.demo.mailpit.enabled ≡ true)
    × (m ≡ c.demo.mailpit)
    × (timeout ≡ nat_of c.http.timeout_seconds * second)
IsChosen read c given (static otp) =
    (given ≡ none)
    × (c.demo.mailpit.enabled ≡ false)
    × (c.demo.static_otp_enabled ≡ true)
    × ((text : Text) × IsRead read c.demo.static_otp_file 1024 text × (otp ≡ trim_space text))
    × (otp ≢ [])

abbrev pub HasRoots : (Text → Option Text) → (Text → Bool) → Text → Option Text → Type 0
HasRoots read has_certificate path none = path ≡ []
HasRoots read has_certificate path (some pem) =
    (path ≢ []) × IsRead read path 1_048_576 pem × (has_certificate pem ≡ true)

pub record IsReady (crypto : Crypto) (read : Text → Option Text) (has_certificate : Text → Bool)
    {V : Type 0} (given : Config) (verifier : Option V) (p : Provider V) : Type 0 where
  pub config : p.config ≡ defaults given
  pub accepted : IsAccepted p.config
  pub chosen : IsChosen read p.config verifier p.verifier
  pub secret_file : IsRead read p.config.psut_secret_file 4096 p.secret
  pub secret_length : 32 ≤ length p.secret
  pub key : IsSigningKey crypto p.config.token_client.key_id p.key
  pub timeout : p.timeout ≡ nat_of p.config.http.timeout_seconds * second
  pub roots : HasRoots read has_certificate p.config.http.ca_file p.roots

done_injective : {A : Type 0} (a b : A) → ◌≡◌ {A = Outcome A} (done a) (done b) → a ≡ b
done_injective a b h = cc h

read_from :
    (read : Text → Option Text) (path : Text) (limit : ℕ) (text : Text)
    → read_bounded (read path) limit ≡ some text
    → IsRead read path limit text
read_from read path limit text h =
    let (file, small) = read_bounded-eq-some (read path) limit text h in
    record { file = file; small = small }

filled : (text : Text) → not (is_empty text) ≡ true → text ≢ []
filled [] h = absurd (cc h)
filled (b ∷ text) h = λ e. cc e

module _ {V : Type 0} (read : Text → Option Text) (c : Config) (v : Verifier V) where
  -- With no verifier of the deployment's own.
  abbrev Goal : Outcome (Verifier V) → Type 0
  Goal o = o ≡ done v → IsChosen read c none v

  static-IsChosen :
      c.demo.mailpit.enabled ≡ false
      → c.demo.static_otp_enabled ≡ true
      → Goal (static_verifier (read c.demo.static_otp_file))
  static-IsChosen off on h =
      let refused = txt "demo OTP file invalid" in
      let kept = λ (text : Text). not (is_empty (trim_space text)) in
      let chosen : Text → Verifier V = λ text. static (trim_space text) in
      after_or_failed (read_bounded (read c.demo.static_otp_file) 1024) refused
        (λ text. insist (kept text) refused >> done (chosen text)) h
        (λ text got h1. after_insist (kept text) refused (done (chosen text)) h1 (λ nonempty h2.
          subst (IsChosen read c none) (done_injective (chosen text) v h2) (
            refl,
            off,
            on,
            (text, read_from read c.demo.static_otp_file 1024 text got, refl),
            filled (trim_space text) nonempty,
          )))

  demo-IsChosen : Goal (choose read c none)
  unfolding choose
  demo-IsChosen =
      if_elim Goal c.demo.mailpit.enabled
        (λ on h. subst (IsChosen read c none) (done_injective _ v h) (refl, on, refl, refl))
        (λ off.
          if_elim Goal (not c.demo.static_otp_enabled) (λ missing h. absurd (cc h))
            (λ on. static-IsChosen off (ground arith)))

choose-IsChosen :
    {V : Type 0} (read : Text → Option Text) (c : Config) (given : Option V) (v : Verifier V)
    → choose read c given ≡ done v
    → IsChosen read c given v
unfolding choose
choose-IsChosen read c (some v) verifier h =
    subst (IsChosen read c (some v)) (done_injective (custom v) verifier h) refl
choose-IsChosen read c none verifier h = demo-IsChosen read c verifier h

read_secret-IsRead :
    (read : Text → Option Text) (path secret : Text)
    → read_secret (read path) ≡ done secret
    → IsRead read path 4096 secret × (32 ≤ length secret)
unfolding read_secret
read_secret-IsRead read path secret h = after_or_failed _ _ _ h (λ text got h1.
    after_insist _ _ _ h1 (λ long h2.
      subst (λ secret. IsRead read path 4096 secret × (32 ≤ length secret))
        (done_injective text secret h2) (read_from read path 4096 text got, ground arith)))

read_roots-HasRoots :
    (read : Text → Option Text) (has_certificate : Text → Bool) (path : Text) (roots : Option Text)
    → read_roots read has_certificate path ≡ done roots
    → HasRoots read has_certificate path roots
unfolding read_roots
read_roots-HasRoots read has_certificate path roots =
    if_elim (λ o. o ≡ done roots → HasRoots read has_certificate path roots) (is_empty path)
      (λ e h.
        subst (HasRoots read has_certificate path) (done_injective none roots h)
          ((is_empty_iff path).0 e))
      (λ e h. after_or_failed _ _ _ h (λ pem got h1. after_insist _ _ _ h1 (λ good h2.
        subst (HasRoots read has_certificate path) (done_injective (some pem) roots h2) (
          λ named. ground (arith, e, (is_empty_iff path).1 named),
          read_from read path 1_048_576 pem got,
          good,
        ))))

-- A provider that `New` returns has the accepted configuration with its defaults, a verifier that
-- an option gives or a demo mode that is on, and no other, a secret of 32 to 4096 bytes, a signing
-- key as `loadKey` promises it, and only certificates that were found in the configured file.
pub new-IsReady :
    (net : Net) (crypto : Crypto) (read : Text → Option Text) (has_certificate : Text → Bool)
    {V : Type 0} (given : Config) (options : List (Option (Option V))) (p : Provider V)
    → new net crypto read has_certificate given options ≡ done p
    → IsReady crypto read has_certificate given (with_options none options) p
unfolding new
new-IsReady net crypto read has_certificate given options p h =
    let c = defaults given in
    after_accepted _ _ h (λ valid h1. after_do _ _ h1 (λ verifier chosen h2.
      after_do _ _ h2 (λ secret got h3. after_or_failed _ _ _ h3 (λ key loaded h4.
        after_do _ _ h4 (λ roots found h5.
          let (secret_file, secret_length) =
            read_secret-IsRead read c.psut_secret_file secret got in
          subst (IsReady crypto read has_certificate given (with_options none options))
            (done_injective _ p h5)
            (record {
              config = refl;
              accepted = validate-IsAccepted net c valid;
              chosen = choose-IsChosen read c (with_options none options) verifier chosen;
              secret_file = secret_file;
              secret_length = secret_length;
              key =
                  load_key-IsSigningKey crypto (read c.token_client.private_key_file)
                    c.token_client.key_id key loaded;
              timeout = refl;
              roots = read_roots-HasRoots read has_certificate c.http.ca_file roots found;
            }))))))

-- ===== src/Provider/Startup/Complete.antt =====
-- `New` on files that are in order.
use esignet_relay_authentica.Prelude.{
  ℕ, ◌≤◌, ◌≡◌, refl, ◌∙◌, ◌≢◌, Bool, true, false, not, Option, none, some, List, [], ◌∷◌, length,
  arith,
}
use esignet_relay_authentica.Text.{Text, is_empty, trim_space}
use esignet_relay_authentica.Config.{Config, defaults, Net, validate, read_bounded, done}
use esignet_relay_authentica.Provider.Assertion.{AssertionKey}
use esignet_relay_authentica.Provider.Keys.{Crypto, load_key}
use esignet_relay_authentica.Provider.Startup.Defs.{
  Verifier, custom, mailpit, static, with_options, choose, read_secret, read_roots, new, timeout_of,
}
use esignet_relay_authentica.Provider.Startup.Ready.{IsRead, IsChosen, HasRoots}

-- A configuration that `New` can start from, with what it takes from the files.
pub record IsStartable (net : Net) (crypto : Crypto) (read : Text → Option Text)
    (has_certificate : Text → Bool) {V : Type 0} (c : Config) (given : Option V)
    (verifier : Verifier V) (secret : Text) (key : AssertionKey) (roots : Option Text)
    : Type 0 where
  pub valid : validate net c ≡ none
  pub chosen : IsChosen read c given verifier
  pub secret_file : IsRead read c.psut_secret_file 4096 secret
  pub secret_length : 32 ≤ length secret
  pub loaded :
      load_key crypto (read c.token_client.private_key_file) c.token_client.key_id ≡ some key
  pub certificates : HasRoots read has_certificate c.http.ca_file roots

IsRead-read_bounded :
    (read : Text → Option Text) (path : Text) (limit : ℕ) (text : Text)
    → IsRead read path limit text
    → read_bounded (read path) limit ≡ some text
unfolding read_bounded
IsRead-read_bounded read path limit text h = rw h.file (ground (arith, h.small))

nonempty : (text : Text) → text ≢ [] → not (is_empty text) ≡ true
nonempty [] h = absurd (h refl)
nonempty (b ∷ text) h = refl

IsChosen-choose :
    {V : Type 0} (read : Text → Option Text) (c : Config) (given : Option V) (v : Verifier V)
    → IsChosen read c given v
    → choose read c given ≡ done v
unfolding choose
IsChosen-choose read c given (custom v) h = rw h refl
IsChosen-choose read c given (mailpit m timeout) (n, on, same, time) = simp (n, on, same, time)
IsChosen-choose read c given (static otp) (n, off, on, (text, got, is), some_text) =
    let bounded = IsRead-read_bounded read c.demo.static_otp_file 1024 text got in
    let kept = nonempty (trim_space text) (λ e. some_text (is ∙ e)) in
    simp (n, off, on, bounded, kept, is)

IsRead-read_secret :
    (read : Text → Option Text) (path secret : Text)
    → IsRead read path 4096 secret
    → 32 ≤ length secret
    → read_secret (read path) ≡ done secret
unfolding read_secret
IsRead-read_secret read path secret h long =
    rw (IsRead-read_bounded read path 4096 secret h) (ground (arith, long))

HasRoots-read_roots :
    (read : Text → Option Text) (has_certificate : Text → Bool) (path : Text) (roots : Option Text)
    → HasRoots read has_certificate path roots
    → read_roots read has_certificate path ≡ done roots
unfolding read_roots
HasRoots-read_roots read has_certificate path none h = rw h refl
HasRoots-read_roots read has_certificate path (some pem) (named, h, found) =
    let filled : is_empty path ≡ false = ground (arith, nonempty path named) in
    rw (filled, IsRead-read_bounded read path 1_048_576 pem h, found) refl

module _ (net : Net) (crypto : Crypto) (read : Text → Option Text) (has_certificate : Text → Bool)
    {V : Type 0} where
  -- New returns the provider that it has put together if validation accepts the configuration with its
  -- defaults, the verifier is one of an option or, without one, of a demo mode that is on and whose
  -- file can be read, the secret file has 32 to 4096 bytes, loadKey gives a key, and the file of
  -- certificates, where one is configured, can be read and has one.
  pub new-IsStartable :
      (given : Config) (options : List (Option (Option V))) (verifier : Verifier V) (secret : Text)
      (key : AssertionKey) (roots : Option Text)
      → IsStartable net crypto read has_certificate
          (defaults given)
          (with_options none options)
          verifier
          secret
          key
          roots
      → new net crypto read has_certificate given options
        ≡ done (record {
          config = defaults given;
          verifier = verifier;
          secret = secret;
          key = key;
          timeout = timeout_of (defaults given);
          roots = roots;
        })
  unfolding new
  new-IsStartable given options verifier secret key roots h =
      rw
        (
          h.valid,
          IsChosen-choose read (defaults given) (with_options none options) verifier h.chosen,
          IsRead-read_secret read (defaults given).psut_secret_file secret h.secret_file
              h.secret_length,
          h.loaded,
          HasRoots-read_roots read has_certificate (defaults given).http.ca_file roots
              h.certificates,
        )
        refl

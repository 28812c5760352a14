-- ===== src/Engine/SignOn.antt =====
-- What stands behind an authentication that the engine gets.
use esignet_relay_authentica.Prelude.{
  ℕ, ◌≡◌, refl, ap, subst, ◌∙◌, ◌≢◌, true, Option, none, some, List, [], ◌∷◌, eqb, length, arith,
}
use esignet_relay_authentica.Text.{Text, txt}
use esignet_relay_authentica.Types.{Binding, ChallengeRequest, ok}
use esignet_relay_authentica.Json.{Value}
use esignet_relay_authentica.Config.{Config}
use esignet_relay_authentica.Provider.{
  Env, World, ◌>>=◌, return, Login, authenticate, IsGranted, authenticate-IsGranted, after_bind,
}
use esignet_relay_authentica.Engine.Defs.{
  done, Identity, Authenticator, Metadata, text_at, logged_in, engine_authenticate,
}
use esignet_relay_authentica.Engine.Binding.{IsResolved, binding-IsResolved}
use esignet_relay_authentica.Engine.Release.{provider_identity}
use esignet_relay_authentica.Engine.Rules.{after_reply, after_answer, or_fault-done, demand-done}

-- An authentication by the adapter over the provider.
pub record IsSignedOn (env : Env) (c : Config) (secret : Text) (p : Authenticator)
    (identifiers credentials : List (Text × Value)) (metadata : Option Metadata) (w : World)
    (reference : Text) (token : List (Text × Value)) : Type 0 where
  pub identifier : Text
  pub identified : text_at (txt "username") identifiers ≡ some identifier
  pub challenge : Text
  pub challenged : text_at (txt "otp") credentials ≡ some challenge
  pub one_method : length credentials ≡ 1
  pub m : Metadata
  pub metadata_given : metadata ≡ some m
  pub b : Binding
  pub resolved : IsResolved p m true b
  pub granted :
      IsGranted env c secret
        (record {
          identifier = identifier;
          identifier_type = p.identifier_type;
          challenge = challenge;
          binding = b;
        })
        w
        (record { subject = reference; context = token })
  pub known : reference ≢ []

logged_in_done :
    (out : Text × Option (List (Text × Value))) (reference : Text) (token : List (Text × Value))
    → logged_in out ≡ done (reference, token)
    → (out ≡ (reference, some token)) × (reference ≢ [])
logged_in_done (s, none) reference token h = absurd (cc h)
logged_in_done ([], some context) reference token h = absurd (cc h)
logged_in_done (x ∷ s, some context) reference token h = (cc h, λ e. cc (h, e))

pair_lem : {A B : Type 0} (a x : A) (b y : B) → a ≡ x → b ≡ y → Path (A × B) (a, b) (x, y)
pair_lem a x b y p q = rw (p, q) refl

login_lem :
    (login : Login) (reference : Text) (token : List (Text × Value))
    → Path
        (Text × Option (List (Text × Value)))
        (login.subject, some login.context)
        (reference, some token)
    → login ≡ record { subject = reference; context = token }
login_lem login reference token h =
    let one : login.subject ≡ reference = cc h in
    let two : login.context ≡ token = cc h in
    ap (λ (q : Text × List (Text × Value)). record { subject = q.0; context = q.1 })
      (pair_lem login.subject reference login.context token one two)

one_credential : (n : ℕ) → eqb n 1 ≡ true → n ≡ 1
one_credential n h = ground arith

-- The engine gets an authentication only for a request with a name, with one credential, the
-- one-time code, and under the binding of a registered client and a transaction; and only if the
-- provider granted the login of that name with that code under that binding, whose subject and
-- context are the entity reference and the attribute token.
pub engine_authenticate-IsSignedOn :
    (env : Env) (c : Config) (secret : Text) (p : Authenticator)
    (identifiers credentials : List (Text × Value)) (metadata : Option Metadata) (w after : World)
    (reference : Text) (token : List (Text × Value))
    → p.identity ≡ provider_identity env c secret
    → engine_authenticate p identifiers credentials metadata w ≡ (done (reference, token), after)
    → IsSignedOn env c secret p identifiers credentials metadata w reference token
unfolding engine_authenticate provider_identity
engine_authenticate-IsSignedOn env c secret p identifiers credentials metadata w after reference
      token over h =
    after_reply _ _ _ h (λ m e1 h1. after_reply _ _ _ h1 (λ identifier e2 h2.
      after_reply _ _ _ h2 (λ challenge e3 h3. after_reply _ _ _ h3 (λ u one h4.
        after_reply _ _ _ h4 (λ b e4 h5. after_answer _ _ h5 (λ out got shown.
          let r : ChallengeRequest = record {
            identifier = identifier;
            identifier_type = p.identifier_type;
            challenge = challenge;
            binding = b;
          } in
          let (out_is, known) = logged_in_done out reference token shown in
          let asked : (authenticate env c secret r >>= λ l. return (l.subject, some l.context)) w
              ≡ (ok out, after) =
            subst (λ (i : Identity). i.authenticate r w ≡ (ok out, after)) over got in
          after_bind _ _ _ asked (λ login mid logged last.
            let shape : (login.subject, some login.context) ≡ out = cc last in
            let same : login ≡ record { subject = reference; context = token } =
              login_lem login reference token (shape ∙ out_is) in
            record {
              identifier = identifier;
              identified = or_fault-done _ identifier e2;
              challenge = challenge;
              challenged = or_fault-done _ challenge e3;
              one_method = one_credential (length credentials) (demand-done _ one);
              m = m;
              metadata_given = or_fault-done metadata m e1;
              b = b;
              resolved = binding-IsResolved p m true b e4;
              granted =
                  subst (IsGranted env c secret r w) same
                    (authenticate-IsGranted env c secret r w mid login logged);
              known = known;
            })))))))

-- ===== src/Provider/Queried.antt =====
-- What one successful query of the registry sent, and where its values come from.
use esignet_relay_authentica.Prelude.{
  ℕ, ◌≡◌, ap, ◌∙◌, ◌≢◌, inl, inr, true, not, Option, none, some, List, [], ◌∷◌, ◌++◌, eqb, arith,
  Bool-cases,
}
use esignet_relay_authentica.Text.{Text, is_empty}
use esignet_relay_authentica.Types.{Error, unavailable, Result, ok, err}
use esignet_relay_authentica.Json.{Value}
use esignet_relay_authentica.Config.{Config}
use esignet_relay_authentica.Provider.Runtime.{
  Env, World, ◌>>◌, expect, masked, after_bind, after_require,
}
use esignet_relay_authentica.Provider.Http.{request, access_token, decode_json, invalidate_token}
use esignet_relay_authentica.Provider.Lookup.{
  lookup_outgoing, domain_data, read_answer, refused, registry_lookup,
}
use esignet_relay_authentica.Provider.Issued.{request_sent}

-- A query that succeeded, from a world to another.
pub record IsQueried (env : Env) (c : Config) (id : Text) (fields : List Text) (w after : World)
    (values : List (Text × Value)) : Type 0 where
  pub wanted : fields ≢ []
  pub token : Text
  pub before : World
  pub authorized : access_token env c w ≡ (ok token, before)
  pub sent : after ≡ record before { log = before.log ++ lookup_outgoing c token id fields ∷ [] }
  pub body : Text
  pub answered : request env c (lookup_outgoing c token id fields) before ≡ (ok (200, body), after)
  pub decoded : decode_json env body domain_data ≡ some values

nonempty_fields : (fields : List Text) → not (is_empty fields) ≡ true → fields ≢ []
nonempty_fields [] h = absurd (cc h)
nonempty_fields (x ∷ xs) h = λ e. cc e

mask_ok :
    {A : Type 0} (f : Error) (r : Result A × World) (a : A) (w : World)
    → masked f r ≡ (ok a, w)
    → r ≡ (ok a, w)
mask_ok f (ok b, v) a w h = h
mask_ok f (err e, v) a w h = absurd (cc h)

expect_ok :
    {A : Type 0} (o : Option A) (e : Error) (a : A) (w after : World)
    → expect o e w ≡ (ok a, after)
    → (o ≡ some a) × (w ≡ after)
expect_ok none e a w after h = absurd (cc h)
expect_ok (some b) e a w after h = (cc h, cc h)

-- A problem never has values.
refused-fails :
    (env : Env) (token code : Text) (w after : World) (values : List (Text × Value))
    → refused env token code w ≢ (ok values, after)
unfolding refused ◌>>◌ invalidate_token
refused-fails env token code w after values h = ground arith

-- Only an answer with status 200 has values.
read_answer_ok :
    (env : Env) (token : Text) (answer : ℕ × Text) (w after : World) (values : List (Text × Value))
    → read_answer env token answer w ≡ (ok values, after)
    → (answer.0 ≡ 200) × (decode_json env answer.1 domain_data ≡ some values) × (w ≡ after)
unfolding read_answer
read_answer_ok env token (status, raw) w after values h = elim (Bool-cases (eqb status 200)) [
  | inl fine ↦
      let (decoded, same) =
        expect_ok (decode_json env raw domain_data) unavailable values w after (rw fine at h) in
      (ground arith, decoded, same)
  | inr bad ↦
      after_bind _ _ _ (rw bad at h)
        (λ code mid e h1. absurd (refused-fails env token code mid after values h1))
]

-- A query that succeeds has sent one request with the fields and the identifier to the registry,
-- with a token of the client, and its values are the domain data of an answer with status 200.
pub registry_lookup-IsQueried :
    (env : Env) (c : Config) (id : Text) (fields : List Text) (w after : World)
    (values : List (Text × Value))
    → registry_lookup env c id fields w ≡ (ok values, after)
    → IsQueried env c id fields w after values
unfolding registry_lookup
registry_lookup-IsQueried env c id fields w after values h = after_require _ _ _ _ h (λ wanted h1.
    after_bind _ _ _ h1 (λ token before got h2. after_require _ _ _ _ h2 (λ built h3.
      after_bind _ _ _ h3 (λ answer mid came h4.
        let (status, decoded, same) = read_answer_ok env token answer mid after values h4 in
        let arrived = came ∙ ap (λ (v : World). (ok answer, v)) same in
        record {
          wanted = nonempty_fields fields wanted;
          token = token;
          before = before;
          authorized = mask_ok unavailable (access_token env c w) token before got;
          sent = request_sent env c _ before after answer arrived;
          body = answer.1;
          answered = arrived ∙ ap (λ (n : ℕ). (ok (n, answer.1), after)) status;
          decoded = decoded;
        }))))

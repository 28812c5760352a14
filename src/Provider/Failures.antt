-- ===== src/Provider/Failures.antt =====
-- The errors that each operation can return.
use esignet_relay_authentica.Prelude.{
  ℕ, ◌≡◌, refl, ◌⊎◌, inl, inr, Bool, true, false, not, Option, none, some, List, [], ◌∷◌,
  Option-cases, arith,
}
use esignet_relay_authentica.Text.{Text, text_eq, is_empty}
use esignet_relay_authentica.Types.{
  Error, invalid_request, challenge_failed, subject_denied, unavailable, context_invalid,
  context_expired, canceled, deadline_exceeded, other, err, Binding, ChallengeRequest, Time,
}
use esignet_relay_authentica.Json.{Value}
use esignet_relay_authentica.Config.{Config}
use esignet_relay_authentica.Provider.Context.{restore, redecode, checked}
use esignet_relay_authentica.Provider.Runtime.{Env, ◌>>=◌, lift, Outgoing, now}
use esignet_relay_authentica.Provider.Http.{request, invalidate_token}
use esignet_relay_authentica.Provider.Lookup.{registry_lookup, read_answer, refused}
use esignet_relay_authentica.Provider.Identity.{
  verdict, authenticate, get_attributes, given, fields_from,
}
use esignet_relay_authentica.Provider.Rules.{
  Only, Only-bind, Only-seq, Only-require, Only-expect, Only-fail, Only-return, Only-mask, Only-if,
  Only-weaken,
}

-- The errors of a query for some fields.
abbrev pub IsQueryError : List Text → Error → Type 0
IsQueryError fields e =
    ((e ≡ invalid_request) × (fields ≡ [])) ⊎ (e ≡ subject_denied) ⊎ (e ≡ unavailable)

empty_list : {A : Type 0} (xs : List A) → not (is_empty xs) ≡ false → xs ≡ []
empty_list [] h = refl
empty_list (x ∷ xs) h = absurd (cc h)

module _ (env : Env) (c : Config) (fields : List Text) where
  abbrev P : Error → Type 0
  P = IsQueryError fields

  request-Only : (out : Outgoing) → Only P (request env c out)
  unfolding request
  request-Only out =
      Only-bind P _ _ (record { only = λ w e h. absurd (cc h) })
        (λ response. Only-expect P _ _ (inr (inr refl)))

  invalidate-Only : (token : Text) → Only P (invalidate_token env token)
  unfolding invalidate_token
  invalidate-Only token = record { only = λ w e h. absurd (cc h) }

  refused-Only : (token code : Text) → Only P (refused env token code)
  unfolding refused
  refused-Only token code = Only-if P _ _ _ (Only-fail P _ (inr (inl refl))) (
      Only-if P _ _ _ (Only-seq P _ _ (invalidate-Only token) (Only-fail P _ (inr (inr refl))))
        (Only-fail P _ (inr (inr refl))))

  read_answer-Only : (token : Text) (answer : ℕ × Text) → Only P (read_answer env token answer)
  unfolding read_answer
  read_answer-Only token (status, raw) =
      Only-if P _ _ _ (Only-expect P _ _ (inr (inr refl)))
        (Only-bind P _ _ (Only-expect P _ _ (inr (inr refl))) (λ code. refused-Only token code))

  -- A query of the registry fails as invalid only for want of fields, else as denied or unavailable,
  -- whatever the registry, the token endpoint and the other goroutines do.
  pub registry_lookup-Only : (id : Text) → Only P (registry_lookup env c id fields)
  unfolding registry_lookup
  registry_lookup-Only id =
      Only-seq P _ _ (Only-require P _ _ (λ none_given. inl (refl, empty_list fields none_given))) (
        Only-bind P _ _ (Only-mask P _ _ (inr (inr refl))) (λ token.
          Only-seq P _ _ (Only-require P _ _ (λ _. inr (inr refl)))
            (Only-bind P _ _ (request-Only _) (λ answer. read_answer-Only token answer))))

-- The errors of a login.
abbrev pub IsLoginError : Error → Type 0
IsLoginError e =
    (e ≡ invalid_request) ⊎ (e ≡ challenge_failed) ⊎ (e ≡ subject_denied) ⊎ (e ≡ unavailable)

verdict-Only : (expired : Bool) (answer : Option Error) → Only IsLoginError (verdict expired answer)
unfolding verdict
verdict-Only true answer = Only-fail IsLoginError _ (inr (inr (inr refl)))
verdict-Only false none = Only-return IsLoginError tt
verdict-Only false (some invalid_request) = Only-fail IsLoginError _ (inr (inl refl))
verdict-Only false (some challenge_failed) = Only-fail IsLoginError _ (inr (inl refl))
verdict-Only false (some subject_denied) = Only-fail IsLoginError _ (inr (inl refl))
verdict-Only false (some unavailable) = Only-fail IsLoginError _ (inr (inl refl))
verdict-Only false (some context_invalid) = Only-fail IsLoginError _ (inr (inl refl))
verdict-Only false (some context_expired) = Only-fail IsLoginError _ (inr (inl refl))
verdict-Only false (some canceled) = Only-fail IsLoginError _ (inr (inr (inr refl)))
verdict-Only false (some deadline_exceeded) = Only-fail IsLoginError _ (inr (inr (inr refl)))
verdict-Only false (some other) = Only-fail IsLoginError _ (inr (inl refl))

query-login : (fields : List Text) (e : Error) → IsQueryError fields e → IsLoginError e
query-login fields e (inl (i, _)) = inl i
query-login fields e (inr (inl d)) = inr (inr (inl d))
query-login fields e (inr (inr u)) = inr (inr (inr u))

-- `Authenticate` fails with one of four errors, whatever its environment and its verifier answer.
pub authenticate-Only :
    (env : Env) (c : Config) (secret : Text) (r : ChallengeRequest)
    → Only IsLoginError (authenticate env c secret r)
unfolding authenticate
authenticate-Only env c secret r =
    let L = IsLoginError in
    Only-seq L _ _ (Only-require L _ _ (λ _. inl refl)) (
      Only-bind L _ _ (record { only = λ w e h. absurd (cc h) })
        (λ ended. Only-seq L _ _ (Only-require L _ _ (λ _. inr (inr (inr refl)))) (
          Only-bind L _ _ (record { only = λ w e h. absurd (cc h) })
            (λ expired. Only-seq L _ _ (verdict-Only expired (env.verify r)) (
              Only-bind L _ _
                (Only-weaken (IsQueryError c.breg.account_check_fields) L _
                  (query-login c.breg.account_check_fields)
                  (registry_lookup-Only env c c.breg.account_check_fields r.identifier))
                (λ fields. Only-seq L _ _ (Only-require L _ _ (λ _. inr (inr (inr refl)))) (
                  Only-bind L _ _ (record { only = λ w e h. absurd (cc h) })
                    (λ t. Only-return L _))))))))

-- The errors of an operation on a session.
abbrev pub IsSessionError : Error → Type 0
IsSessionError e =
    (e ≡ invalid_request)
    ⊎ (e ≡ context_invalid)
    ⊎ (e ≡ context_expired)
    ⊎ (e ≡ subject_denied)
    ⊎ (e ≡ unavailable)

restore_error :
    (c : Config) (t : Time) (state : Option (List (Text × Value))) (b : Binding) (e : Error)
    → restore c t state b ≡ err e
    → (e ≡ context_invalid) ⊎ (e ≡ context_expired)
unfolding restore checked
restore_error c t none b e h = inl (cc h)
restore_error c t (some members) b e h = elim (Option-cases (redecode members)) [
  | inl lost ↦ inl (ground arith)
  | inr (s, found) ↦ ground arith
]

restore-Only :
    (env : Env) (c : Config) (state : Option (List (Text × Value))) (b : Binding)
    → Only IsSessionError (now env >>= λ t. lift (restore c t state b))
restore-Only env c state b =
    Only-bind IsSessionError _ _ (record { only = λ w e h. absurd (cc h) })
      (λ t. record {
        only = λ w e h. elim (restore_error c t state b e h) [
          | inl invalid ↦ inr (inl invalid)
          | inr expired ↦ inr (inr (inl expired))
        ];
      })

query-session : (fields : List Text) (e : Error) → IsQueryError fields e → IsSessionError e
query-session fields e (inl (i, _)) = inl i
query-session fields e (inr (inl d)) = inr (inr (inr (inl d)))
query-session fields e (inr (inr u)) = inr (inr (inr (inr u)))

given-Only : (approval : Option (List Text)) → Only IsSessionError (given approval)
given-Only none = Only-fail IsSessionError _ (inl refl)
given-Only (some approved) = Only-return IsSessionError approved

-- `GetAttributes` fails with one of five errors, whatever its environment answers.
pub get_attributes-Only :
    (env : Env) (c : Config) (secret : Text) (state : Option (List (Text × Value))) (b : Binding)
    (approval : Option (List Text))
    → Only IsSessionError (get_attributes env c secret state b approval)
unfolding get_attributes
get_attributes-Only env c secret state b approval =
    let S = IsSessionError in
    Only-bind S _ _ (given-Only approval) (λ approved.
      Only-bind S _ _ (restore-Only env c state b) (λ s.
        Only-bind S _ _
          (Only-if S _ _ _ (Only-return S _) (
            Only-weaken (IsQueryError (fields_from c [] approved)) S _
              (query-session (fields_from c [] approved))
              (registry_lookup-Only env c (fields_from c [] approved) s.identifier)))
          (λ values. Only-return S _)))

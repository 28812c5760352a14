-- ===== src/Provider/Granted.antt =====
-- What `Authenticate` grants, and what a refused request leaves.
use esignet_relay_authentica.Prelude.{
  ℕ, ◌+◌, ◌≡◌, refl, sym, ap, ◌≢◌, ◌⊎◌, inl, inr, Bool, true, false, ◌||◌, not, Option, none, some,
  List, [], ◌∷◌, if◌then◌else◌, pos, ==_iff, all, All, lookup, arith, Option-cases, Bool-cases,
}
use esignet_relay_authentica.Text.{Text, text_eq}
use esignet_relay_authentica.Types.{
  Time, unix, Error, invalid_request, challenge_failed, unavailable, canceled, deadline_exceeded,
  other, context_invalid, context_expired, subject_denied, ok, err, ChallengeRequest,
}
use esignet_relay_authentica.Json.{Value, null, bool, int, num, str, arr, obj, opaque}
use esignet_relay_authentica.Config.{Config}
use esignet_relay_authentica.Provider.Psut.{psut}
use esignet_relay_authentica.Provider.Context.{context_ttl, context_map}
use esignet_relay_authentica.Provider.Restore.{opened}
use esignet_relay_authentica.Provider.Runtime.{
  Env, World, ◌>>=◌, ◌>>◌, after_bind, after_step, after_require, after_now, after_is_done,
}
use esignet_relay_authentica.Provider.Lookup.{registry_lookup}
use esignet_relay_authentica.Provider.Identity.{
  Login, valid_request, verdict, present, agrees, is_text, account_ok, opened_at, authenticate,
}

-- An account field that is there and not null.
abbrev pub IsPresent : List (Text × Value) → Text → Type 0
IsPresent fields field = (v : Value) × (lookup field fields ≡ some v) × (v ≢ null)

-- What stands behind a login that was granted in a world.
pub record IsGranted (env : Env) (c : Config) (secret : Text) (r : ChallengeRequest) (w : World)
    (login : Login) : Type 0 where
  pub request : valid_request c r ≡ true
  pub challenge : env.verify r ≡ none
  pub before : World
  pub after : World
  pub unsent : before.log ≡ w.log
  pub fields : List (Text × Value)
  pub account :
      registry_lookup env c r.identifier c.breg.account_check_fields before ≡ (ok fields, after)
  pub checked : All (IsPresent fields) c.breg.account_check_fields
  pub selected :
      (lookup c.breg.selector_field fields ≡ none)
      ⊎ (lookup c.breg.selector_field fields ≡ some (str r.identifier))
  pub subject :
      login.subject
      ≡ psut env.hmac secret
          (opened (unix (env.clock after.looks)) r.identifier r.identifier_type r.binding)
  pub context :
      login.context
      ≡ context_map (opened (unix (env.clock after.looks)) r.identifier r.identifier_type r.binding)

present_some :
    (fields : List (Text × Value)) (field : Text)
    → present (lookup field fields) ≡ true
    → IsPresent fields field
present_some fields field h = elim (Option-cases (lookup field fields)) [
  | inl lost ↦ absurd (ground (arith, lost))
  | inr (v, found) ↦ (v, found, λ e. ground (arith, found, e))
]

all_present :
    (fields : List (Text × Value)) (names : List Text)
    → all (λ field. present (lookup field fields)) names ≡ true
    → All (IsPresent fields) names
all_present fields [] h = tt
all_present fields (n ∷ ns) h =
    (present_some fields n (ground arith), all_present fields ns (ground arith))

is_text_str : (v : Value) (text : Text) → is_text v text ≡ true → v ≡ str text
is_text_str (str s) text h = ap str ((==_iff s text).0 h)
is_text_str null text h = cc
is_text_str (bool b) text h = cc
is_text_str (int i) text h = cc
is_text_str (num t) text h = cc
is_text_str (arr vs) text h = cc
is_text_str (obj ms) text h = cc
is_text_str opaque text h = cc

agrees_lem :
    (o : Option Value) (text : Text) → agrees o text ≡ true → (o ≡ none) ⊎ (o ≡ some (str text))
agrees_lem none text h = inl refl
agrees_lem (some v) text h = inr (ap some (is_text_str v text h))

-- The expiry lies 300 seconds behind the issue.
pub opened_at-opened :
    (t : Time) (r : ChallengeRequest)
    → opened_at t r ≡ opened (unix t) r.identifier r.identifier_type r.binding
unfolding opened_at
opened_at-opened t r =
    let later : unix (t + context_ttl) ≡ unix t + 300 = omega arith in
    ap
      (λ (until : ℕ). record (opened (unix t) r.identifier r.identifier_type r.binding) {
        expires_at = pos until;
      })
      later

verdict_ok :
    (expired : Bool) (answer : Option Error) (w after : World)
    → verdict expired answer w ≡ (ok tt, after)
    → (answer ≡ none) × (w ≡ after)
unfolding verdict
verdict_ok true answer w after h = absurd (cc h)
verdict_ok false none w after h = (refl, cc h)
verdict_ok false (some invalid_request) w after h = absurd (cc h)
verdict_ok false (some challenge_failed) w after h = absurd (cc h)
verdict_ok false (some subject_denied) w after h = absurd (cc h)
verdict_ok false (some unavailable) w after h = absurd (cc h)
verdict_ok false (some context_invalid) w after h = absurd (cc h)
verdict_ok false (some context_expired) w after h = absurd (cc h)
verdict_ok false (some canceled) w after h = absurd (cc h)
verdict_ok false (some deadline_exceeded) w after h = absurd (cc h)
verdict_ok false (some other) w after h = absurd (cc h)

module _ (env : Env) (c : Config) (secret : Text) where
  -- A login is granted only if the request is valid, the verifier accepted the challenge, the registry
  -- was then asked for the account of the identifier and its answer has every account field with a
  -- value and, if it has the selector's, it is the identifier. The subject and the context are those
  -- of the identifier and the binding at the second after the answer, for 300 seconds.
  pub authenticate-IsGranted :
      (r : ChallengeRequest) (w after : World) (login : Login)
      → authenticate env c secret r w ≡ (ok login, after)
      → IsGranted env c secret r w login
  unfolding authenticate account_ok
  authenticate-IsGranted r w after login h = after_require _ _ _ _ h (λ valid h1.
      after_require _ _ _ _ (after_is_done env _ _ h1) (λ live h2.
        after_step _ _ _ (after_is_done env _ _ h2) (λ before verified h3.
          after_bind _ _ _ h3 (λ fields later account h4. after_require _ _ _ _ h4 (λ checked h5.
            let (accepted, same) = verdict_ok _ _ _ _ verified in
            let login_is = after_now env _ _ h5 in
            record {
              request = valid;
              challenge = accepted;
              before = before;
              after = later;
              unsent = ap (λ (v : World). v.log) (sym same);
              fields = fields;
              account = account;
              checked = all_present fields c.breg.account_check_fields (ground arith);
              selected =
                  agrees_lem (lookup c.breg.selector_field fields) r.identifier (ground arith);
              subject = rw (sym (opened_at-opened (env.clock later.looks) r)) (cc login_is);
              context = rw (sym (opened_at-opened (env.clock later.looks) r)) (cc login_is);
            })))))

  -- The errors by which a verifier says that its time ran out.
  abbrev out_of_time : Option Error → Bool
  out_of_time (some canceled) = true
  out_of_time (some deadline_exceeded) = true
  out_of_time _ = false

  -- The error of a request that the verifier refuses, or that is not valid.
  abbrev pub refusal : ChallengeRequest → World → Error
  refusal r w =
      if not (valid_request c r)
      then invalid_request
      else (if env.ended w.looks || env.ended (w.looks + 1) || out_of_time (env.verify r)
          then unavailable
          else challenge_failed)

  verdict_refused :
      (expired : Bool) (answer : Option Error) (w : World)
      → answer ≢ none
      → verdict expired answer w
        ≡ (err (if expired || out_of_time answer then unavailable else challenge_failed), w)
  unfolding verdict
  verdict_refused true answer w h = refl
  verdict_refused false none w h = absurd (h refl)
  verdict_refused false (some invalid_request) w h = refl
  verdict_refused false (some challenge_failed) w h = refl
  verdict_refused false (some subject_denied) w h = refl
  verdict_refused false (some unavailable) w h = refl
  verdict_refused false (some context_invalid) w h = refl
  verdict_refused false (some context_expired) w h = refl
  verdict_refused false (some canceled) w h = refl
  verdict_refused false (some deadline_exceeded) w h = refl
  verdict_refused false (some other) w h = refl

  -- A request that is not valid, or whose challenge the verifier does not accept, is answered by its
  -- error without any request to the token endpoint or the registry, and the token cache is as
  -- before: `unavailable` where a context or the verifier ran out of time, `challenge_failed` else.
  pub authenticate_refused :
      (r : ChallengeRequest) (w : World)
      → (valid_request c r ≡ false) ⊎ (env.verify r ≢ none)
      → ((authenticate env c secret r w).0 ≡ err (refusal r w))
        × ((authenticate env c secret r w).1.log ≡ w.log)
        × ((authenticate env c secret r w).1.cache ≡ w.cache)
  unfolding authenticate ◌>>=◌ ◌>>◌
  authenticate_refused r w h = elim (Bool-cases (valid_request c r)) [
    | inr invalid ↦ rw (invalid, authenticate) (refl, refl, refl)
    | inl valid ↦ elim (Bool-cases (env.ended w.looks)) [
      | inl ended ↦ rw (valid, ended, authenticate) (refl, refl, refl)
      | inr live ↦
          let bad : env.verify r ≢ none = λ e. ground (arith, h) in
          let said =
            verdict_refused (env.ended (w.looks + 1)) (env.verify r)
              (record w { looks = w.looks + 1 + 1 }) bad in
          rw (valid, live, authenticate, said) (refl, refl, refl)
    ]
  ]

  -- A valid request is granted whenever the contexts last, the verifier accepts the challenge, and the
  -- registry answers for the identifier with an account that passes: the login is that of the second
  -- of the clock after the answer, and nothing else is sent.
  pub authenticate_grants :
      (r : ChallengeRequest) (w mid : World) (fields : List (Text × Value))
      → valid_request c r ≡ true
      → env.ended w.looks ≡ false
      → env.ended (w.looks + 1) ≡ false
      → env.verify r ≡ none
      → registry_lookup env c r.identifier c.breg.account_check_fields
          (record w { looks = w.looks + 1 + 1 })
        ≡ (ok fields, mid)
      → account_ok c r.identifier fields ≡ true
      → authenticate env c secret r w ≡ (
        ok (record {
          subject =
              psut env.hmac secret
                (opened (unix (env.clock mid.looks)) r.identifier r.identifier_type r.binding);
          context =
              context_map
                (opened (unix (env.clock mid.looks)) r.identifier r.identifier_type r.binding);
        }),
        record mid { looks = mid.looks + 1 },
      )
  unfolding authenticate ◌>>=◌ ◌>>◌ verdict
  authenticate_grants r w mid fields valid live lasting accepted answered passed =
      rw (sym (opened_at-opened (env.clock mid.looks) r))
        (rw (valid, authenticate, live, lasting, accepted, answered, passed) refl)

-- ===== src/Provider/Session.antt =====
-- The session that a login opens, and what `Subject` makes of its context.
use esignet_relay_authentica.Prelude.{
  ℕ, ◌+◌, ◌-◌, ◌≤◌, ◌≡◌, refl, sym, ap, ◌∙◌, inl, inr, true, ◌&&◌, Option, some, List, ltb,
  if◌then◌else◌, ◌==◌, arith, Bool-cases,
}
use esignet_relay_authentica.Text.{Text, text_eq}
use esignet_relay_authentica.Types.{
  Time, unix, Binding, binding_eq, ok, err, unavailable, context_invalid, context_expired, Result,
  ChallengeRequest, valid_binding,
}
use esignet_relay_authentica.Json.{Value}
use esignet_relay_authentica.Config.{Config}
use esignet_relay_authentica.Provider.Psut.{AuthContext, psut}
use esignet_relay_authentica.Provider.Context.{context_map, valid_subject, restore}
use esignet_relay_authentica.Provider.Restore.{opened, IsStorable, restore-context_map}
use esignet_relay_authentica.Provider.Runtime.{
  Env, World, then_run, return, ◌>>=◌, ◌>>◌, after_bind, after_step, after_require, after_now,
  after_is_done,
}
use esignet_relay_authentica.Provider.Identity.{Login, valid_request, authenticate, subject}
use esignet_relay_authentica.Provider.Granted.{opened_at-opened}

-- The second of the clock at the last reading of Authenticate.
abbrev pub second_of_login : Env → World → ℕ
second_of_login env after = unix (env.clock (after.looks - 1))

-- The session that a login opens.
abbrev pub session_of : Env → World → ChallengeRequest → AuthContext
session_of env after r = opened (second_of_login env after) r.identifier r.identifier_type r.binding

-- A session that the store keeps as it is.
abbrev pub IsKept : Env → World → ChallengeRequest → Type 0
IsKept env after r = IsStorable (second_of_login env after) r.identifier r.identifier_type r.binding

-- The subject and the context of a login are those of its session.
pub record IsOpened (env : Env) (c : Config) (secret : Text) (r : ChallengeRequest) (after : World)
    (login : Login) : Type 0 where
  pub request : valid_request c r ≡ true
  pub subject : login.subject ≡ psut env.hmac secret (session_of env after r)
  pub context : login.context ≡ context_map (session_of env after r)

pub authenticate-IsOpened :
    (env : Env) (c : Config) (secret : Text) (r : ChallengeRequest) (w after : World)
    (login : Login)
    → authenticate env c secret r w ≡ (ok login, after)
    → IsOpened env c secret r after login
unfolding authenticate
authenticate-IsOpened env c secret r w after login h = after_require _ _ _ _ h (λ valid h1.
    after_require _ _ _ _ (after_is_done env _ _ h1) (λ live h2.
      after_step _ _ _ (after_is_done env _ _ h2) (λ before verified h3.
        after_bind _ _ _ h3 (λ fields mid account h4. after_require _ _ _ _ h4 (λ checked h5.
          let login_is = after_now env _ _ h5 in
          let moved : mid.looks + 1 ≡ after.looks = ap (λ r. r.1.looks) login_is in
          let read : mid.looks ≡ after.looks - 1 = omega (arith, moved) in
          let same =
            opened_at-opened (env.clock mid.looks) r
            ∙ ap (λ n. opened (unix (env.clock n)) r.identifier r.identifier_type r.binding) read in
          record {
            request = valid;
            subject = rw (sym same) (cc login_is);
            context = rw (sym same) (cc login_is);
          })))))

pub valid_request-subject :
    (c : Config) (r : ChallengeRequest)
    → valid_request c r ≡ true
    → valid_subject c r.identifier r.identifier_type ≡ true
unfolding valid_request
valid_request-subject c r h = ground arith

-- What becomes of a session at a time under a caller's binding.
abbrev pub answer_for {ℓ} : {A : Type ℓ} → ℕ → Binding → Binding → Time → A → Result A
answer_for since b caller t a =
    if valid_binding caller && b == caller
    then (if ltb (unix t) (since + 300) then ok a else err context_expired)
    else err context_invalid

abbrev map_result {ℓ κ} : {A : Type ℓ} {B : Type κ} → (A → B) → Result A → Result B
map_result f (ok a) = ok (f a)
map_result f (err e) = err e

answer_for-map :
    (f : AuthContext → Text) (since : ℕ) (b caller : Binding) (t : Time) (s : AuthContext)
    → map_result f (answer_for since b caller t s) ≡ answer_for since b caller t (f s)
answer_for-map f since b caller t s = elim (Bool-cases (valid_binding caller && b == caller)) [
  | inr other ↦ rw other refl
  | inl own ↦ elim (Bool-cases (ltb (unix t) (since + 300))) [
    | inl live ↦ rw (own, live) refl
    | inr late ↦ rw (own, late) refl
  ]
]

restored_subject :
    (f : AuthContext → Text) (x : Result AuthContext) (w : World)
    → (then_run (x, w) (λ s. return (f s))).0 ≡ map_result f x
restored_subject f (ok s) w = refl
restored_subject f (err e) w = refl

subject-restore :
    (env : Env) (c : Config) (secret : Text) (state : Option (List (Text × Value))) (b : Binding)
    (w : World)
    → (subject env c secret state b w).0 ≡ (
        if env.ended w.looks
        then err unavailable
        else map_result (psut env.hmac secret) (restore c (env.clock (w.looks + 1)) state b))
unfolding subject ◌>>=◌ ◌>>◌
subject-restore env c secret state b w = elim (Bool-cases (env.ended w.looks)) [
  | inl ended ↦ rw ended refl
  | inr live ↦ rw live (
      restored_subject (psut env.hmac secret) (restore c (env.clock (w.looks + 1)) state b)
        (record w { looks = w.looks + 1 + 1 }))
]

module _ (env later : Env) (c : Config) (secret : Text) (same_hmac : later.hmac ≡ env.hmac) where
  -- If Authenticate granted a login at a second from 1 on, its session is one that the store keeps as it
  -- is, and the clock has not gone back behind that second, then a later Subject with the login's
  -- context, under the same HMAC, gives the subject of the login if the caller's binding is valid and
  -- that of the request and 300 seconds have not passed. It is expired when they have, invalid under
  -- any other binding, and unavailable if the caller's context has ended.
  pub subject-authenticate :
      (r : ChallengeRequest) (w after v : World) (login : Login) (caller : Binding)
      → authenticate env c secret r w ≡ (ok login, after)
      → IsKept env after r
      → 1 ≤ second_of_login env after
      → second_of_login env after ≤ unix (later.clock (v.looks + 1))
      → (subject later c secret (some login.context) caller v).0 ≡ (
          if later.ended v.looks
          then err unavailable
          else answer_for
              (second_of_login env after)
              r.binding
              caller
              (later.clock (v.looks + 1))
              login.subject)
  subject-authenticate r w after v login caller h st begun past =
      let k = authenticate-IsOpened env c secret r w after login h in
      let back =
        restore-context_map (second_of_login env after) r.identifier r.identifier_type r.binding st
          c (later.clock (v.looks + 1)) caller (valid_request-subject c r k.request) begun past in
      let stored =
        ap (λ state. restore c (later.clock (v.looks + 1)) (some state) caller) (k.context)
        ∙ back in
      let shown =
        ap (map_result (psut later.hmac secret)) stored
        ∙ answer_for-map (psut later.hmac secret) (second_of_login env after) r.binding caller
            (later.clock (v.looks + 1)) (session_of env after r)
        ∙ ap
            (λ (h : Text → Text → Text).
              answer_for (second_of_login env after) r.binding caller (later.clock (v.looks + 1))
                (psut h secret (session_of env after r)))
            same_hmac
        ∙ ap (answer_for (second_of_login env after) r.binding caller (later.clock (v.looks + 1)))
            (sym k.subject) in
      subject-restore later c secret (some login.context) caller v
      ∙ ap (λ x. if later.ended v.looks then err unavailable else x) shown

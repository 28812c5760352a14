-- ===== src/Provider/Spent.antt =====
-- How much the operations of the provider read and send at most.
use esignet_relay_authentica.Prelude.{
  ℕ, ◌+◌, ◌*◌, ◌≤◌, Bool, true, false, Option, none, some, List, [], ◌∷◌, arith, if◌then◌else◌,
  length,
}
use esignet_relay_authentica.Text.{Text, text_eq, is_empty}
use esignet_relay_authentica.Types.{
  challenge_failed, invalid_request, context_invalid, context_expired, canceled, deadline_exceeded,
  other, Error, subject_denied, unavailable, Time, Result, ChallengeRequest, Binding,
}
use esignet_relay_authentica.Json.{Value}
use esignet_relay_authentica.Config.{Config}
use esignet_relay_authentica.Token.{Entry, hit, wait, lead, enter, settle, invalidate}
use esignet_relay_authentica.Provider.Context.{restore}
use esignet_relay_authentica.Provider.Runtime.{Outgoing, Env, Action, ◌>>=◌, return, fail, now}
use esignet_relay_authentica.Provider.Http.{
  request, acquire, attempt, settled, access_turn, after_flight, access_token_from, access_token,
  invalidate_token,
}
use esignet_relay_authentica.Provider.Lookup.{
  refused, read_answer, registry_lookup, lookup_outgoing,
}
use esignet_relay_authentica.Provider.Identity.{
  given, fields_from, verdict, authenticate, get_attributes,
}
use esignet_relay_authentica.Provider.Spending.{
  token_requests, lookup_requests, Spends, Spends-bind, Spends-seq, Spends-more, Spends-return,
  Spends-fail, Spends-require, Spends-expect, Spends-lift, Spends-mask, Spends-if, Spends-now,
  Spends-is_done, Spends-with_lock, Spends-send,
}

module _ (env : Env) (c : Config) where
  request-Spends :
      (out : Outgoing)
      → Spends 0
          (token_requests (out ∷ []) + 0)
          (lookup_requests (out ∷ []) + 0)
          (request env c out)
  unfolding request
  request-Spends out =
      Spends-bind 0 _ _ 0 0 0 _ _ (Spends-send env out)
        (λ response. Spends-expect 0 0 0 _ unavailable)

  acquire-Spends : (start : Time) → Spends 0 1 0 (acquire env c start)
  unfolding acquire token_requests lookup_requests
  acquire-Spends start = Spends-bind 0 0 0 0 1 0 _ _ (Spends-expect 0 0 0 _ _) (λ assertion.
      Spends-seq 0 0 0 0 1 0 _ _ (Spends-require 0 0 0 _ _) (
        Spends-bind 0 1 0 0 0 0 _ _ (request-Spends _) (λ answer.
          Spends-seq 0 0 0 0 0 0 _ _ (Spends-require 0 0 0 _ _) (
            Spends-bind 0 0 0 0 0 0 _ _ (Spends-expect 0 0 0 _ _) (λ response.
              Spends-seq 0 0 0 0 0 0 _ _ (Spends-require 0 0 0 _ _) (Spends-return 0 0 0 _))))))

  settled-Spends : (start : Time) (r : Result (Text × Time)) → Spends 2 0 0 (settled env start r)
  settled-Spends start r = Spends-bind 1 0 0 1 0 0 _ _ (Spends-now env) (λ at_time.
      Spends-bind 1 0 0 0 0 0 _ _
        (Spends-with_lock env
          (λ cache. let (after, result) = settle start at_time r cache in (result, after)))
        (λ out. Spends-lift 0 0 0 out))

  lead-Spends :
      Spends 3 1 0 (do start ← now env; r ← attempt (acquire env c start); settled env start r)
  lead-Spends = Spends-bind 1 0 0 2 1 0 _ _ (Spends-now env) (λ start.
      Spends-bind 0 1 0 2 0 0 _ _ (record { spends = (acquire-Spends start).spends })
        (λ r. settled-Spends start r))

  -- What an entry leads to, if what is done while waiting stays within a bound.
  entered-Spends :
      (n : ℕ) (waiting : Action Text) (entry : Entry)
      → 3 ≤ n
      → Spends n 1 0 waiting
      → Spends n 1 0 (elim entry as (λ _. Action Text) [
        | hit token ↦ return token
        | wait ↦ waiting
        | lead ↦ do start ← now env; r ← attempt (acquire env c start); settled env start r
      ])
  entered-Spends n waiting (hit token) h w = Spends-return n 1 0 token
  entered-Spends n waiting wait h w = w
  entered-Spends n waiting lead h w =
      Spends-more 3 1 0 n 1 0 _ h (omega arith) (omega arith) lead-Spends

  access_turn-Spends :
      (n : ℕ) (waiting : Action Text)
      → 3 ≤ n
      → Spends n 1 0 waiting
      → Spends (3 + n) 1 0 (access_turn env c waiting)
  unfolding access_turn
  access_turn-Spends n waiting h w =
      Spends-more (1 + (0 + (1 + (1 + n)))) (0 + (0 + (0 + (0 + 1)))) 0 (3 + n) 1 0 _ (omega arith)
        (omega arith) (omega arith)
        (Spends-bind 1 0 0 (0 + (1 + (1 + n))) (0 + (0 + (0 + 1))) 0 _ _ (Spends-is_done env)
          (λ ended. Spends-seq 0 0 0 (1 + (1 + n)) (0 + (0 + 1)) 0 _ _ (Spends-require 0 0 0 _ _) (
            Spends-bind 1 0 0 (1 + n) (0 + 1) 0 _ _ (Spends-now env) (λ at_time.
              Spends-bind 1 0 0 n 1 0 _ _ (Spends-with_lock env (enter at_time))
                (λ entry. entered-Spends n waiting entry h w)))))

  after_flight-Spends :
      (n : ℕ) (flight : Option Error) (again : Action Text)
      → Spends n 1 0 again
      → Spends n 1 0 (after_flight flight again)
  after_flight-Spends n none again s = s
  after_flight-Spends n (some e) again s = Spends-fail n 1 0 e

  access_token_from-Spends :
      (flights : List (Option Error))
      → Spends (3 * length flights + 6) 1 0 (access_token_from env c flights)
  unfolding access_token_from
  access_token_from-Spends [] =
      access_turn-Spends 3 (fail unavailable) (omega arith) (Spends-fail 3 1 0 _)
  access_token_from-Spends (flight ∷ later) =
      Spends-more (3 + (3 * length later + 6)) 1 0 (3 * length (flight ∷ later) + 6) 1 0 _
        (omega arith) (omega arith) (omega arith)
        (access_turn-Spends (3 * length later + 6) _ (omega arith)
          (after_flight-Spends _ flight _ (access_token_from-Spends later)))

  -- Whatever its environment answers, a call of `access_token` reads at most three times for each
  -- flight that it is given and six times more, and sends at most one token request and no query.
  pub access_token-Spends : Spends (3 * length env.flights + 6) 1 0 (access_token env c)
  unfolding access_token
  access_token-Spends = access_token_from-Spends env.flights

  invalidate-Spends : (token : Text) → Spends 1 0 0 (invalidate_token env token)
  unfolding invalidate_token
  invalidate-Spends token = Spends-with_lock env (λ cache. (tt, invalidate token cache))

  refused-Spends : (token code : Text) → Spends 1 0 0 (refused env token code)
  unfolding refused
  refused-Spends token code = Spends-if 1 0 0 _ _ _ (Spends-fail 1 0 0 subject_denied) (
      Spends-if 1 0 0 _ _ _
        (Spends-seq 1 0 0 0 0 0 _ _ (invalidate-Spends token) (Spends-fail 0 0 0 unavailable))
        (Spends-fail 1 0 0 unavailable))

  read_answer-Spends :
      (token : Text) (answer : ℕ × Text) → Spends 1 0 0 (read_answer env token answer)
  unfolding read_answer
  read_answer-Spends token (status, raw) =
      Spends-if 1 0 0 _ _ _ (Spends-expect 1 0 0 _ _)
        (Spends-bind 0 0 0 1 0 0 _ _ (Spends-expect 0 0 0 _ _) (λ code. refused-Spends token code))

  registry_lookup-Spends :
      (id : Text) (fields : List Text)
      → Spends (3 * length env.flights + 7) 1 1 (registry_lookup env c id fields)
  unfolding registry_lookup token_requests lookup_requests
  registry_lookup-Spends id fields =
      let n = 3 * length env.flights + 6 in
      Spends-more (0 + (n + (0 + (0 + 1)))) 1 1 (3 * length env.flights + 7) 1 1 _ (omega arith)
        (omega arith) (omega arith)
        (Spends-seq 0 0 0 (n + (0 + (0 + 1))) 1 1 _ _ (Spends-require 0 0 0 _ _) (
          Spends-bind n 1 0 (0 + (0 + 1)) 0 1 _ _ (Spends-mask n 1 0 _ _ access_token-Spends)
            (λ token. Spends-seq 0 0 0 (0 + 1) 0 1 _ _ (Spends-require 0 0 0 _ _) (
              Spends-bind 0 0 1 1 0 0 _ _ (request-Spends (lookup_outgoing c token id fields))
                (λ answer. read_answer-Spends token answer)))))

  verdict-Spends : (expired : Bool) (answer : Option Error) → Spends 0 0 0 (verdict expired answer)
  unfolding verdict
  verdict-Spends true answer = Spends-fail 0 0 0 unavailable
  verdict-Spends false none = Spends-return 0 0 0 tt
  verdict-Spends false (some canceled) = Spends-fail 0 0 0 unavailable
  verdict-Spends false (some deadline_exceeded) = Spends-fail 0 0 0 unavailable
  verdict-Spends false (some invalid_request) = Spends-fail 0 0 0 challenge_failed
  verdict-Spends false (some challenge_failed) = Spends-fail 0 0 0 challenge_failed
  verdict-Spends false (some subject_denied) = Spends-fail 0 0 0 challenge_failed
  verdict-Spends false (some unavailable) = Spends-fail 0 0 0 challenge_failed
  verdict-Spends false (some context_invalid) = Spends-fail 0 0 0 challenge_failed
  verdict-Spends false (some context_expired) = Spends-fail 0 0 0 challenge_failed
  verdict-Spends false (some other) = Spends-fail 0 0 0 challenge_failed

  -- `Authenticate` sends at most one token request and one query of the registry, and reads the clock,
  -- the context and the cache a bounded number of times, whatever its environment answers.
  pub authenticate-Spends :
      (secret : Text) (r : ChallengeRequest)
      → Spends (3 * length env.flights + 10) 1 1 (authenticate env c secret r)
  unfolding authenticate
  authenticate-Spends secret r =
      let n = 3 * length env.flights + 7 in
      Spends-more (0 + (1 + (0 + (1 + (0 + (n + (0 + (1 + 0)))))))) 1 1
        (3 * length env.flights + 10) 1 1 _ (omega arith) (omega arith) (omega arith)
        (Spends-seq 0 0 0 _ 1 1 _ _ (Spends-require 0 0 0 _ _) (
          Spends-bind 1 0 0 _ 1 1 _ _ (Spends-is_done env) (λ ended.
            Spends-seq 0 0 0 _ 1 1 _ _ (Spends-require 0 0 0 _ _) (
              Spends-bind 1 0 0 _ 1 1 _ _ (Spends-is_done env) (λ expired.
                Spends-seq 0 0 0 _ 1 1 _ _ (verdict-Spends expired (env.verify r)) (
                  Spends-bind n 1 1 _ 0 0 _ _
                    (registry_lookup-Spends r.identifier c.breg.account_check_fields)
                    (λ fields. Spends-seq 0 0 0 (1 + 0) 0 0 _ _ (Spends-require 0 0 0 _ _) (
                      Spends-bind 1 0 0 0 0 0 _ _ (Spends-now env)
                        (λ t. Spends-return 0 0 0 _)))))))))

  fetch-Spends :
      (id : Text) (fields : List Text)
      → Spends
          (3 * length env.flights + 7)
          1
          1
          (if is_empty fields then return [] else registry_lookup env c id fields)
  fetch-Spends id fields =
      Spends-if _ 1 1 _ _ _ (Spends-return _ 1 1 _) (registry_lookup-Spends id fields)

  given-Spends : (approval : Option (List Text)) → Spends 0 0 0 (given approval)
  given-Spends none = Spends-fail 0 0 0 invalid_request
  given-Spends (some approved) = Spends-return 0 0 0 approved

  -- `GetAttributes` too sends at most one token request and one query of the registry.
  pub get_attributes-Spends :
      (secret : Text) (state : Option (List (Text × Value))) (b : Binding)
      (approval : Option (List Text))
      → Spends (3 * length env.flights + 8) 1 1 (get_attributes env c secret state b approval)
  unfolding get_attributes
  get_attributes-Spends secret state b approval =
      let n = 3 * length env.flights + 7 in
      Spends-more (0 + ((1 + 0) + (n + 0))) 1 1 (3 * length env.flights + 8) 1 1 _ (omega arith)
        (omega arith) (omega arith)
        (Spends-bind 0 0 0 _ 1 1 _ _ (given-Spends approval) (λ approved.
          Spends-bind (1 + 0) 0 0 _ 1 1 _ _
            (Spends-bind 1 0 0 0 0 0 _ _ (Spends-now env)
              (λ t. Spends-lift 0 0 0 (restore c t state b)))
            (λ s.
              Spends-bind n 1 1 0 0 0 _ _ (fetch-Spends s.identifier (fields_from c [] approved))
                (λ values. Spends-return 0 0 0 _))))

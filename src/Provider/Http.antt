-- ===== src/Provider/Http.antt =====
-- provider/http.go: the token acquisition and the requests.
use esignet_relay_authentica.Prelude.{
  ℕ, ◌+◌, ◌*◌, Bool, true, false, ◌&&◌, ◌||◌, not, Option, none, some, List, [], ◌∷◌, ltb, leb, eqb,
  if◌then◌else◌, ℤ, pos, negsuc, length, take, all, contains, nat_of,
}
use esignet_relay_authentica.Text.{Text, txt, text_eq, is_empty, equal_fold, runes, join}
use esignet_relay_authentica.Types.{Time, second, unix, Error, unavailable, Result, ok}
use esignet_relay_authentica.Json.{Value, into_text, into_int, into_pointer, into_struct}
use esignet_relay_authentica.Config.{Config, parse_scope}
use esignet_relay_authentica.Token.{hit, wait, lead, enter, settle, invalidate}
use esignet_relay_authentica.Provider.Runtime.{
  Outgoing, token_request, Response, Env, Action, ◌>>=◌, ◌>>◌, return, fail, require, expect, lift,
  with_lock, now, is_done, send,
}

-- The body as far as the limit, or none if it is longer or breaks off.
unfoldable pub read_limited : ℤ → Response → Option Text
read_limited (negsuc n) response = none
read_limited (pos limit) response =
    let raw = take (limit + 1) response.body in
    if response.breaks || ltb limit (length raw) then none else some raw

abbrev pub answered : ℤ → Option Response → Option (ℕ × Text)
answered limit none = none
answered limit (some response) = elim (read_limited limit response) [
  | none ↦ none
  | some raw ↦ some (response.status, raw)
]

-- `p.request`.
unfoldable pub request : Env → Config → Outgoing → Action (ℕ × Text)
request env c out = do
  response ← send env out
  expect (answered c.http.max_response_bytes response) unavailable

-- The struct that a token response is decoded into.
pub record TokenResponse : Type 0 where
  pub access_token : Text
  pub token_type : Text
  pub expires_in : ℤ
  pub scope : Option Text

abbrev both : {A B : Type 0} → Option A → Option B → Option (A × B)
both (some a) (some b) = some (a, b)
both (some a) none = none
both none b = none

abbrev token_of : (Text × Text) × (ℤ × Option Text) → TokenResponse
token_of ((token, kind), (expires, scope)) = record {
  access_token = token;
  token_type = kind;
  expires_in = expires;
  scope = scope;
}

-- `decodeJSON(body, &out)`.
unfoldable pub token_response : Value → Option TokenResponse
token_response v =
    elim (both
      (both (into_struct (txt "access_token") into_text v [])
        (into_struct (txt "token_type") into_text v []))
      (both (into_struct (txt "expires_in") into_int v (pos 0))
        (into_struct (txt "scope") into_pointer v none))) [
          | none ↦ none
          | some fields ↦ some (token_of fields)
        ]

abbrev pub positive : ℤ → Bool
positive (pos n) = ltb 0 n
positive (negsuc n) = false

-- No scope in the response means that all are granted.
unfoldable pub scope_granted : Option Text → List Text → Bool
unfolding contains
scope_granted none scopes = true
scope_granted (some scope) scopes = elim (parse_scope scope) [
  | none ↦ false
  | some granted ↦ all (contains granted) scopes
]

-- What `acquire` accepts of a decoded response.
unfoldable pub acceptable : Config → TokenResponse → Bool
unfolding scope_granted
acceptable c out =
    not (is_empty out.access_token)
    && leb (length out.access_token) 65_536
    && equal_fold out.token_type (txt "Bearer")
    && positive out.expires_in
    && scope_granted out.scope c.token_client.scopes
    && all (λ r. ltb 32 r && ltb r 127) (runes out.access_token)

-- The lifetime, at most the configured one. It is below the wrap of `time.Duration`, since `validate`
-- allows a maximum of 86400 seconds.
unfoldable pub capped : ℤ → ℤ → Time
capped expires cap =
    (if ltb (nat_of cap) (nat_of expires) then nat_of cap else nat_of expires) * second

unfoldable pub token_form : Config → Text → List (Text × Text)
token_form c assertion =
    (txt "grant_type", txt "client_credentials")
    ∷ (txt "client_id", c.token_client.client_id)
    ∷ (txt "client_assertion_type", txt "urn:ietf:params:oauth:client-assertion-type:jwt-bearer")
    ∷ (txt "client_assertion", assertion)
    ∷ (txt "resource", c.token_client.resource)
    ∷ (txt "scope", join (txt " ") c.token_client.scopes)
    ∷ []

-- The white space of JSON, behind which a decoder finds the end of its input.
abbrev is_json_space : ℕ → Bool
is_json_space b = eqb b 0x20 || eqb b 0x09 || eqb b 0x0a || eqb b 0x0d

abbrev decode_whole : {A : Type 0} → Option (Value × Text) → (Value → Option A) → Option A
decode_whole none decode = none
decode_whole (some (v, trailing)) decode = if all is_json_space trailing then decode v else none

-- `decodeJSON`: the one JSON text of a body, into a Go value.
unfoldable pub decode_json : {A : Type 0} → Env → Text → (Value → Option A) → Option A
decode_json env raw decode = decode_whole (env.parse raw) decode

-- `p.acquire`; the cap is positive in a validated configuration.
unfoldable pub acquire : Env → Config → Time → Action (Text × Time)
acquire env c start = do
  assertion ←
      expect
        (env.assertion c.token_client.client_id c.token_client.assertion_audience (unix start)
          (unix start + nat_of c.token_client.assertion_ttl_seconds))
        unavailable
  let out = token_request c.token_client.token_endpoint (token_form c assertion)
  require (env.builds out) unavailable
  answer ← request env c out
  require (eqb answer.0 200) unavailable
  response ← expect (decode_json env answer.1 token_response) unavailable
  require (acceptable c response) unavailable
  return (response.access_token, capped response.expires_in c.token_client.token_cache_max_seconds)

-- An error of `acquire` is settled like a result.
abbrev pub attempt : {A : Type 0} → Action A → Action (Result A)
attempt action w = let (r, after) = action w in (ok r, after)

-- The locked section behind the acquisition; the clock is read inside it.
abbrev pub settled : Env → Time → Result (Text × Time) → Action Text
settled env start r = do
  at_time ← now env
  out ←
      with_lock env (λ cache. let (after, result) = settle start at_time r cache in (result, after))
  lift out

-- One turn of the loop of `p.accessToken`, and what it does when another goroutine acquires.
unfoldable pub access_turn : Env → Config → Action Text → Action Text
access_turn env c waiting = do
  ended ← is_done env
  require (not ended) unavailable
  at_time ← now env
  entry ← with_lock env (enter at_time)
  elim entry [
    | hit token ↦ return token
    | wait ↦ waiting
    | lead ↦ do start ← now env; r ← attempt (acquire env c start); settled env start r
  ]

abbrev pub after_flight : Option Error → Action Text → Action Text
after_flight none again = again
after_flight (some e) again = fail e

-- The loop for the flights that it awaits, one in each turn but the last. In a turn that waits with
-- none left the context ends. `Provider.Loop` has the loop without this list.
unfoldable pub access_token_from : Env → Config → List (Option Error) → Action Text
unfolding access_turn
access_token_from env c [] = access_turn env c (fail unavailable)
access_token_from env c (flight ∷ later) =
    access_turn env c (after_flight flight (access_token_from env c later))

unfoldable pub access_token : Env → Config → Action Text
access_token env c = access_token_from env c env.flights

-- `p.invalidate`.
unfoldable pub invalidate_token : Env → Text → Action (Unit {0})
invalidate_token env token = with_lock env (λ cache. (tt, invalidate token cache))

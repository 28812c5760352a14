-- ===== src/Provider/Runtime.antt =====
-- What a call of the provider sees and leaves: readings of the clock and of its context, requests
-- and answers, the token cache. The environment is a parameter, with one answer for each question.
use esignet_relay_authentica.Prelude.{
  ℕ, ◌+◌, ◌≡◌, refl, Bool, true, false, Option, none, some, List, [], ◌∷◌, ◌++◌,
}
use esignet_relay_authentica.Text.{Text}
use esignet_relay_authentica.Types.{Time, Error, Result, ok, err, ChallengeRequest, OtpRequest}
use esignet_relay_authentica.Json.{Value}
use esignet_relay_authentica.Token.{Cache}

-- A request before the escaping of its parts: to the token endpoint with a form, or to the registry
-- at a base and a route with a query, a body and a bearer token.
pub data Outgoing : Type 0 where
  token_request : Text → List (Text × Text) → Outgoing
  lookup_request : Text → Text → List (Text × Text) → Text → Text → Outgoing

-- An answer; `breaks` says that reading its body fails behind the bytes that it has.
pub record Response : Type 0 where
  pub status : ℕ
  pub body : Text
  pub breaks : Bool

-- What the environment does. `clock` and `ended` answer the readings of the clock and of the context
-- by their number, `others` is what other goroutines make of the cache between two locked sections,
-- `flights` tells how each acquisition ends that one call of `accessToken` awaits; if another goroutine
-- acquires when none is left, the context ends during that wait.
-- `builds` says whether the URL and the request are made, `parse` reads the first JSON text
-- of a body, and gives what is behind it.
pub record Env : Type 0 where
  pub clock : ℕ → Time
  pub ended : ℕ → Bool
  pub others : ℕ → Cache → Cache
  pub flights : List (Option Error)
  pub builds : Outgoing → Bool
  pub http : List Outgoing → Outgoing → Option Response
  pub parse : Text → Option (Value × Text)
  pub assertion : Text → Text → ℕ → ℕ → Option Text
  pub hmac : Text → Text → Text
  pub verify : ChallengeRequest → Option Error
  pub send_otp : OtpRequest → Option Error

-- The readings so far, the requests sent, and the cache.
pub record World : Type 0 where
  pub looks : ℕ
  pub log : List Outgoing
  pub cache : Cache

abbrev pub Action {ℓ} : Type ℓ → Type ℓ
Action A = World → Result A × World

abbrev pub then_run {ℓ κ} :
    {A : Type ℓ} {B : Type κ} → Result A × World → (A → Action B) → Result B × World
then_run (ok a, w) next = next a w
then_run (err e, w) next = (err e, w)

infixl 5 ◌>>=◌ ◌>>◌
unfoldable pub ◌>>=◌ {ℓ κ} : {A : Type ℓ} {B : Type κ} → Action A → (A → Action B) → Action B
(action >>= next) w = then_run (action w) next

unfoldable pub ◌>>◌ {ℓ} : {B : Type ℓ} → Action (Unit {0}) → Action B → Action B
(first >> second) w = then_run (first w) (λ _. second)

abbrev pub return {ℓ} : {A : Type ℓ} → A → Action A
return a w = (ok a, w)

abbrev pub fail {ℓ} : {A : Type ℓ} → Error → Action A
fail e w = (err e, w)

abbrev pub require : Bool → Error → Action (Unit {0})
require true e w = (ok tt, w)
require false e w = (err e, w)

abbrev pub lift {ℓ} : {A : Type ℓ} → Result A → Action A
lift r w = (r, w)

-- The value, or an error.
abbrev pub expect {ℓ} : {A : Type ℓ} → Option A → Error → Action A
expect none e w = (err e, w)
expect (some a) e w = (ok a, w)

-- `if e != nil { return failure }`, whatever the error was.
abbrev pub masked {ℓ} : {A : Type ℓ} → Error → Result A × World → Result A × World
masked failure (ok a, w) = (ok a, w)
masked failure (err e, w) = (err failure, w)

abbrev pub mask {ℓ} : {A : Type ℓ} → Error → Action A → Action A
mask failure action w = masked failure (action w)

-- A locked section, after what other goroutines did to the cache.
abbrev pub with_lock {ℓ} : {A : Type ℓ} → Env → (Cache → A × Cache) → Action A
with_lock env section w =
    let out = section (env.others w.looks w.cache) in
    (ok out.0, record w { looks = w.looks + 1; cache = out.1 })

abbrev pub now : Env → Action Time
now env w = (ok (env.clock w.looks), record w { looks = w.looks + 1 })

abbrev pub is_done : Env → Action Bool
is_done env w = (ok (env.ended w.looks), record w { looks = w.looks + 1 })

-- A request goes out, and is in the log whatever comes back.
abbrev pub send : Env → Outgoing → Action (Option Response)
send env out w = (ok (env.http w.log out), record w { log = w.log ++ out ∷ [] })

-- Where a sequence of actions that went well came from, as rules for a goal `C`.
then_run_ok :
    {A B : Type 0} (r : Result A × World) (next : A → Action B) (b : B) (w : World)
    → then_run r next ≡ (ok b, w)
    → (a : A) × (mid : World) × (r ≡ (ok a, mid)) × (next a mid ≡ (ok b, w))
then_run_ok (ok a, mid) next b w h = (a, mid, refl, h)
then_run_ok (err e, w) next b after h = absurd (cc h)

module _ {B : Type 0} {b : B} {after : World} where
  pub after_bind :
      {A C : Type 0} (action : Action A) (next : A → Action B) (w : World)
      → (action >>= next) w ≡ (ok b, after)
      → ((a : A) (mid : World) → action w ≡ (ok a, mid) → next a mid ≡ (ok b, after) → C)
      → C
  unfolding ◌>>=◌
  after_bind action next w h goal =
      let (a, mid, one, two) = then_run_ok (action w) next b after h in goal a mid one two

  pub after_step :
      {C : Type 0} (first : Action (Unit {0})) (second : Action B) (w : World)
      → (first >> second) w ≡ (ok b, after)
      → ((mid : World) → first w ≡ (ok tt, mid) → second mid ≡ (ok b, after) → C)
      → C
  unfolding ◌>>◌
  after_step first second w h goal =
      let (u, mid, one, two) = then_run_ok (first w) (λ _. second) b after h in goal mid one two

  pub after_require :
      {C : Type 0} (test : Bool) (e : Error) (second : Action B) (w : World)
      → (require test e >> second) w ≡ (ok b, after)
      → (test ≡ true → second w ≡ (ok b, after) → C)
      → C
  unfolding ◌>>◌
  after_require true e second w h goal = goal refl h
  after_require false e second w h goal = absurd (cc h)

  pub after_expect :
      {A C : Type 0} (o : Option A) (e : Error) (next : A → Action B) (w : World)
      → (expect o e >>= next) w ≡ (ok b, after)
      → ((a : A) → o ≡ some a → next a w ≡ (ok b, after) → C)
      → C
  unfolding ◌>>=◌
  after_expect none e next w h goal = absurd (cc h)
  after_expect (some a) e next w h goal = goal a refl h

  pub after_now :
      (env : Env) (next : Time → Action B) (w : World)
      → (now env >>= next) w ≡ (ok b, after)
      → next (env.clock w.looks) (record w { looks = w.looks + 1 }) ≡ (ok b, after)
  unfolding ◌>>=◌
  after_now env next w h = h

  pub after_is_done :
      (env : Env) (next : Bool → Action B) (w : World)
      → (is_done env >>= next) w ≡ (ok b, after)
      → next (env.ended w.looks) (record w { looks = w.looks + 1 }) ≡ (ok b, after)
  unfolding ◌>>=◌
  after_is_done env next w h = h

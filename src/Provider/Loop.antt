-- ===== src/Provider/Loop.antt =====
-- provider/http.go, the loop of `accessToken` turn by turn. It has no bound of its own: how the flights
-- that it awaits end is a function of the readings so far, and it may await any number of them. Each
-- wait itself ends, at the latest with the context.
use esignet_relay_authentica.Prelude.{ℕ, zero, suc, not, Option, none, some}
use esignet_relay_authentica.Text.{Text}
use esignet_relay_authentica.Types.{Error, unavailable, ok, err}
use esignet_relay_authentica.Config.{Config}
use esignet_relay_authentica.Token.{hit, wait, lead, enter}
use esignet_relay_authentica.Provider.Runtime.{
  Env, Action, ◌>>=◌, ◌>>◌, return, require, with_lock, now, is_done,
}
use esignet_relay_authentica.Provider.Http.{acquire, attempt, settled}

-- What ends the wait of `select`: the flight is over, with its error if it has one, or the context is.
pub data Wake : Type 0 where
  landed : Option Error → Wake
  canceled : Wake

-- A turn of the loop returns a token, or goes on.
pub data Turn : Type 0 where
  got : Text → Turn
  again : Turn

-- `select` on the flight of another goroutine.
unfoldable pub select : (ℕ → Wake) → Action Turn
select wake w = elim (wake w.looks) [
  | canceled ↦ (err unavailable, w)
  | landed flight ↦ elim flight [ none ↦ (ok again, w) | some e ↦ (err e, w) ]
]

-- The acquisition that this goroutine leads.
abbrev pub led : Env → Config → Action Text
led env c = do start ← now env; r ← attempt (acquire env c start); settled env start r

unfoldable pub loop_turn : Env → Config → (ℕ → Wake) → Action Turn
unfolding select
loop_turn env c wake = do
  ended ← is_done env
  require (not ended) unavailable
  at_time ← now env
  entry ← with_lock env (enter at_time)
  elim entry [
    | hit token ↦ return (got token)
    | wait ↦ select wake
    | lead ↦ do token ← led env c; return (got token)
  ]

-- So many turns of the loop, and none if it would go on.
unfoldable pub access_loop : Env → Config → (ℕ → Wake) → ℕ → Action (Option Text)
unfolding loop_turn
access_loop env c wake zero = return none
access_loop env c wake (suc turns) = do
  let rest = access_loop env c wake turns
  turn ← loop_turn env c wake
  elim turn [ got token ↦ return (some token) | again ↦ rest ]

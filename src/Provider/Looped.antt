-- ===== src/Provider/Looped.antt =====
-- The loop of `accessToken` ends with its context, and is then a call of `access_token` for the flights
-- that it has awaited.
use esignet_relay_authentica.Prelude.{
  ℕ, zero, suc, ◌+◌, ◌*◌, ◌≤◌, ◌≡◌, refl, sym, ap, ◌∙◌, true, false, Option, none, some, List, [],
  ◌∷◌, length, arith, Bool-cases, inl, inr,
}
use esignet_relay_authentica.Text.{Text}
use esignet_relay_authentica.Types.{Error, unavailable, Result, ok, err}
use esignet_relay_authentica.Config.{Config}
use esignet_relay_authentica.Token.{Entry, hit, wait, lead, enter}
use esignet_relay_authentica.Provider.Runtime.{
  Env, World, Action, ◌>>=◌, ◌>>◌, then_run, return, fail,
}
use esignet_relay_authentica.Provider.Http.{
  access_turn, after_flight, access_token_from, access_token, acquire, request, decode_json,
}
use esignet_relay_authentica.Provider.Loop.{
  Wake, landed, canceled, Turn, got, again, select, led, loop_turn, access_loop,
}

-- The result of a loop that has ended.
abbrev pub ended_with : Result Text × World → Result (Option Text) × World
ended_with (ok token, w) = (ok (some token), w)
ended_with (err e, w) = (err e, w)

-- What a turn does with the answer of the first locked section.
abbrev entered : Env → Config → Action Text → Entry → Action Text
entered env c waiting (hit token) = return token
entered env c waiting wait = waiting
entered env c waiting lead = led env c

abbrev turned : Env → Config → (ℕ → Wake) → Entry → Action Turn
turned env c wake (hit token) = return (got token)
turned env c wake wait = select wake
turned env c wake lead = led env c >>= λ token. return (got token)

abbrev continued : Action (Option Text) → Turn → Action (Option Text)
continued rest (got token) = return (some token)
continued rest again = rest

led_result :
    (rest : Action (Option Text)) (r : Result Text × World)
    → then_run (then_run r (λ token. return (got token))) (continued rest) ≡ ended_with r
led_result rest (ok token, w) = refl
led_result rest (err e, w) = refl

module _ (env : Env) (c : Config) (wake : ℕ → Wake) where
  -- Within a number of flights, the loop is a call of the loop over a list of them.
  abbrev IsCall : ℕ → Action (Option Text) → World → Type 0
  IsCall most loop w =
      (flights : List (Option Error)) × (length flights ≤ most)
      × (loop w ≡ ended_with (access_token_from env c flights w))

  after_lock : World → World
  after_lock w = record w {
    looks = w.looks + 1 + 1 + 1;
    cache = (enter (env.clock (w.looks + 1)) (env.others (w.looks + 1 + 1) w.cache)).1;
  }

  entry_at : World → Entry
  entry_at w = (enter (env.clock (w.looks + 1)) (env.others (w.looks + 1 + 1) w.cache)).0

  access_turn-entered :
      (waiting : Action Text) (w : World)
      → env.ended w.looks ≡ false
      → access_turn env c waiting w ≡ entered env c waiting (entry_at w) (after_lock w)
  unfolding access_turn ◌>>=◌ ◌>>◌ after_lock entry_at
  access_turn-entered waiting w live = rw live refl

  loop_turn-turned :
      (w : World)
      → env.ended w.looks ≡ false
      → loop_turn env c wake w ≡ turned env c wake (entry_at w) (after_lock w)
  unfolding loop_turn ◌>>=◌ ◌>>◌ after_lock entry_at
  loop_turn-turned w live = rw live refl

  -- What follows a turn that waits, for a list of flights.
  abbrev awaiting : List (Option Error) → Action Text
  awaiting [] = fail unavailable
  awaiting (flight ∷ later) = after_flight flight (access_token_from env c later)

  access_token_from-turn :
      (flights : List (Option Error)) (w : World)
      → access_token_from env c flights w ≡ access_turn env c (awaiting flights) w
  unfolding access_token_from
  access_token_from-turn [] w = refl
  access_token_from-turn (flight ∷ later) w = refl

  abbrev IsEntered : ℕ → Action (Option Text) → Entry → World → Type 0
  IsEntered most rest e w =
      (flights : List (Option Error)) × (length flights ≤ most)
      × (then_run (turned env c wake e w) (continued rest)
          ≡ ended_with (entered env c (awaiting flights) e w))

  selected-IsEntered :
      (most : ℕ) (rest : Action (Option Text)) (w : World) (x : Wake)
      → wake w.looks ≡ x
      → IsCall most rest w
      → IsEntered (suc most) rest wait w
  unfolding select
  selected-IsEntered most rest w canceled e h =
      let on : select wake w ≡ (err unavailable, w) = rw (e, select) refl in
      ([], omega arith, ap (λ r. then_run r (continued rest)) on)
  selected-IsEntered most rest w (landed (some f)) e h =
      let on : select wake w ≡ (err f, w) = rw (e, select) refl in
      (some f ∷ [], omega arith, ap (λ r. then_run r (continued rest)) on)
  selected-IsEntered most rest w (landed none) e (flights, few, same) =
      let on : select wake w ≡ (ok again, w) = rw (e, select) refl in
      (none ∷ flights, omega (arith, few), ap (λ r. then_run r (continued rest)) on ∙ same)

  turned-IsEntered :
      (most : ℕ) (rest : Action (Option Text)) (e : Entry) (w : World)
      → IsCall most rest w
      → IsEntered (suc most) rest e w
  unfolding ◌>>=◌
  turned-IsEntered most rest (hit token) w h = ([], omega arith, refl)
  turned-IsEntered most rest wait w h = selected-IsEntered most rest w (wake w.looks) refl h
  turned-IsEntered most rest lead w h = ([], omega arith, led_result rest (led env c w))

  -- One more turn, under a context that has not ended.
  turn-IsCall :
      (most turns : ℕ) (w : World)
      → env.ended w.looks ≡ false
      → IsCall most (access_loop env c wake turns) (after_lock w)
      → IsCall (suc most) (access_loop env c wake (suc turns)) w
  unfolding access_loop ◌>>=◌
  turn-IsCall most turns w live h =
      let rest = access_loop env c wake turns in
      let (flights, few, same) = turned-IsEntered most rest (entry_at w) (after_lock w) h in
      (
        flights,
        few,
        ap (λ r. then_run r (continued rest)) (loop_turn-turned w live)
            ∙ same
            ∙ ap ended_with (
                sym (
                  access_token_from-turn flights w
                  ∙ access_turn-entered (awaiting flights) w live)),
      )

  ended-IsCall :
      (most turns : ℕ) (w : World)
      → env.ended w.looks ≡ true
      → IsCall most (access_loop env c wake (suc turns)) w
  unfolding access_loop loop_turn access_token_from access_turn ◌>>=◌ ◌>>◌
  ended-IsCall most turns w ended = ([], omega arith, rw ended refl)

  loop-IsCall :
      (last turns : ℕ) (w : World)
      → ((i : ℕ) → last ≤ i → env.ended i ≡ true)
      → last ≤ w.looks + 3 * turns
      → IsCall turns (access_loop env c wake (suc turns)) w
  unfolding after_lock
  loop-IsCall last zero w over h = ended-IsCall 0 0 w (over w.looks (omega (arith, h)))
  loop-IsCall last (suc turns) w over h = elim (Bool-cases (env.ended w.looks)) [
    | inl ended ↦ ended-IsCall (suc turns) (suc turns) w ended
    | inr live ↦
        turn-IsCall turns (suc turns) w live
          (loop-IsCall last turns (after_lock w) over (omega (arith, h)))
  ]

  turn-flights :
      (flights : List (Option Error)) (waiting : Action Text)
      → access_turn (record env { flights = flights }) c waiting ≡ access_turn env c waiting
  unfolding access_turn acquire request decode_json
  turn-flights flights waiting = refl

  call-flights :
      (given flights : List (Option Error))
      → access_token_from (record env { flights = given }) c flights
        ≡ access_token_from env c flights
  unfolding access_token_from
  call-flights given [] = turn-flights given (fail unavailable)
  call-flights given (flight ∷ later) =
      turn-flights given
        (after_flight flight (access_token_from (record env { flights = given }) c later))
      ∙ ap (λ again. access_turn env c (after_flight flight again)) (call-flights given later)

  -- However many flights of other goroutines the loop of accessToken awaits and however they end, once
  -- the context has ended for good it ends too: if the context has ended at every reading from some
  -- reading on, then a turn for each three readings until there and one more are enough to return a
  -- token or an error. What it then returns, reads and sends is what `access_token` does for a list of
  -- at most so many flights, with nothing else changed in the environment.
  pub access_loop-access_token :
      (last turns : ℕ) (w : World)
      → ((i : ℕ) → last ≤ i → env.ended i ≡ true)
      → last ≤ w.looks + 3 * turns
      → (flights : List (Option Error)) × (length flights ≤ turns)
        × (access_loop env c wake (suc turns) w
            ≡ ended_with (access_token (record env { flights = flights }) c w))
  unfolding access_token
  access_loop-access_token last turns w over h =
      let (flights, few, same) = loop-IsCall last turns w over h in
      (flights, few, same ∙ ap (λ call. ended_with (call w)) (sym (call-flights flights flights)))

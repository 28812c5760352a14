-- ===== src/Token/Defs.antt =====
-- The cached token, its deadline and the flag for an acquisition under way, with each locked section
-- of the source as a function on them.
use esignet_relay_authentica.Prelude.{
  ◌+◌, Bool, true, false, ◌&&◌, not, [], ltb, if◌then◌else◌, ◌==◌,
}
use esignet_relay_authentica.Text.{Text, text_eq, is_empty}
use esignet_relay_authentica.Types.{Time, unavailable, Result, ok, err}

-- `p.token`, `p.tokenDeadline`, and whether `p.acquiring` is set.
pub record Cache : Type 0 where
  pub token : Text
  pub deadline : Time
  pub acquiring : Bool

abbrev pub empty_cache : Cache
empty_cache = record { token = []; deadline = 0; acquiring = false }

-- What a goroutine does after the locked section at the head of the loop: return a token, wait for
-- the acquisition that another one leads, or lead one.
pub data Entry : Type 0 where
  hit : Text → Entry
  wait lead : Entry

abbrev pub is_live : Time → Cache → Bool
is_live now c = not (is_empty c.token) && ltb now c.deadline

unfoldable pub enter : Time → Cache → Entry × Cache
enter now c =
    if is_live now c
    then (hit c.token, c)
    else (if c.acquiring
        then (wait, record c { token = [] })
        else (lead, record c { token = []; acquiring = true }))

-- The locked section behind an acquisition that began at `start`: a token, its lifetime, or an error.
unfoldable pub settle : Time → Time → Result (Text × Time) → Cache → Cache × Result Text
settle start now (ok (token, lifetime)) c =
    if ltb now (start + lifetime)
    then (record { token = token; deadline = start + lifetime; acquiring = false }, ok token)
    else (record c { acquiring = false }, err unavailable)
settle start now (err e) c = (record c { acquiring = false }, err e)

unfoldable pub invalidate : Text → Cache → Cache
invalidate token c = if c.token == token then record c { token = []; deadline = 0 } else c

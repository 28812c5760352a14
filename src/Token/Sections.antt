-- ===== src/Token/Sections.antt =====
-- Laws of the locked sections.
use esignet_relay_authentica.Prelude.{◌+◌, ◌<◌, ◌≡◌, refl, ◌≢◌, ◌↔◌, false, [], ==_iff, arith}
use esignet_relay_authentica.Text.{Text, text_eq, is_empty_iff}
use esignet_relay_authentica.Types.{Time, Error, Result, ok, err}
use esignet_relay_authentica.Token.Defs.{Cache, hit, enter, settle, invalidate}

-- A goroutine returns the cached token exactly if there is one and its deadline has not come.
pub enter-eq-hit_iff :
    (now : Time) (c : Cache) (token : Text)
    → ((enter now c).0 ≡ hit token) ↔ ((c.token ≡ token) × (token ≢ []) × (now < c.deadline))
unfolding enter
enter-eq-hit_iff now c token =
    (λ h. ground (arith, is_empty_iff c.token), λ h. ground (arith, is_empty_iff c.token))

-- What an acquisition leaves: a token that is still good, or nothing new.
pub settle_lem :
    (start now : Time) (r : Result (Text × Time)) (c : Cache) (token : Text)
    → (settle start now r c).1 ≡ ok token
    → (lifetime : Time) × (r ≡ ok (token, lifetime))
      × (now < start + lifetime)
      × ((settle start now r c).0
          ≡ record { token = token; deadline = start + lifetime; acquiring = false })
unfolding settle
settle_lem start now (err e) c token h = cc
settle_lem start now (ok (t, lifetime)) c token h =
    (lifetime, ground arith, ground arith, ground arith)

-- A failed acquisition caches nothing.
pub settle_failed :
    (start now : Time) (r : Result (Text × Time)) (c : Cache) (e : Error)
    → (settle start now r c).1 ≡ err e
    → (settle start now r c).0 ≡ record c { acquiring = false }
unfolding settle
settle_failed start now (err f) c e h = refl
settle_failed start now (ok (t, lifetime)) c e h = ground arith

-- `invalidate` drops the token that it is given, and no other.
pub invalidate_lem :
    (token : Text) (c : Cache)
    → token ≢ []
    → ((invalidate token c).token ≢ token)
      × ((c.token ≢ token) → invalidate token c ≡ c)
      × ((invalidate token c).acquiring ≡ c.acquiring)
unfolding invalidate
invalidate_lem token c h = ground (arith, ==_iff c.token token)

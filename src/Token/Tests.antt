-- ===== src/Token/Tests.antt =====
-- Runs of the token cache, and instances of its laws at them.
use esignet_relay_authentica.Prelude.{ℕ, ◌+◌, ◌<◌, ◌≡◌, refl, ◌≢◌, ◌↔◌, true, false, []}
use esignet_relay_authentica.Text.{Text, txt, text_beq}
use esignet_relay_authentica.Types.{Time, Result, ok}
use esignet_relay_authentica.Token.Defs.{Cache, empty_cache, hit, enter, settle, invalidate}
use esignet_relay_authentica.Token.Sections.{enter-eq-hit_iff, settle_lem}
use esignet_relay_authentica.Token.Steps.{
  outside, leading, returned, is_leading, System, update, Step, Reach, start, next, request, land,
}
use esignet_relay_authentica.Token.Flights.{single_flight, returned_token_live}

-- The functions that the tests run.
runs : Unit {0}
unfolding enter settle invalidate text_beq
runs = tt

abbrev cached : Cache
cached = record { token = txt "T"; deadline = 9; acquiring = false }

enter-eq-hit_iff_example :
    ((enter 5 cached).0 ≡ hit (txt "T"))
    ↔ ((cached.token ≡ txt "T") × (txt "T" ≢ []) × (5 < cached.deadline))
enter-eq-hit_iff_example = enter-eq-hit_iff 5 cached (txt "T")

-- One goroutine leads an acquisition.
abbrev led : System
led = record { cache = (enter 0 empty_cache).1; now = 0; pc = update (λ i. outside) 0 (leading 0) }

Reach-led : Reach led
unfolding runs
Reach-led = next start (request 0 refl)

single_flight_example :
    ((i j : ℕ) → is_leading (led.pc i) ≡ true → is_leading (led.pc j) ≡ true → i ≡ j)
    × ((led.cache.acquiring ≡ true) ↔ ((i : ℕ) × (is_leading (led.pc i) ≡ true)))
single_flight_example = single_flight led Reach-led

-- And comes back with a token.
abbrev landed : System
landed = record {
  cache = (settle 0 0 (ok (txt "T", 5)) led.cache).0;
  now = 0;
  pc = update led.pc 0 (returned (txt "T") 0);
}

Step-landed : Step led landed
unfolding runs
Step-landed = land 0 0 (ok (txt "T", 5)) refl

fresh : led.pc 0 ≢ returned (txt "T") 0
fresh = λ e. cc e

returned_token_live_example :
    (0 ≡ landed.now) × (landed.cache.token ≡ txt "T") × (landed.now < landed.cache.deadline)
returned_token_live_example = returned_token_live led landed 0 (txt "T") 0 Step-landed fresh refl

settled : (settle 0 1 (ok (txt "T", 5)) cached).1 ≡ ok (txt "T")
unfolding runs
settled = refl

settle_lem_example :
    (lifetime : Time) × (Path (Result (Text × Time)) (ok (txt "T", 5)) (ok (txt "T", lifetime)))
    × (1 < 0 + lifetime)
    × ((settle 0 1 (ok (txt "T", 5)) cached).0
        ≡ record { token = txt "T"; deadline = 0 + lifetime; acquiring = false })
settle_lem_example = settle_lem 0 1 (ok (txt "T", 5)) cached (txt "T") settled

token_T : txt "T" ≢ []
token_T = λ e. cc e

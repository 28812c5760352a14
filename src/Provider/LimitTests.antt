-- ===== src/Provider/LimitTests.antt =====
-- The theorems on the loop of accessToken, on what is sent at most, on oversized contexts and on the order of claims, at inputs.
use mathlib.Core.List.Perm
use esignet_relay_authentica.Prelude.{
  ◌+◌, ◌*◌, ◌≤◌, ◌<◌, ◌≡◌, ◌≢◌, refl, ℕ, true, leb, Option, none, some, List, [], ◌∷◌, length,
  arith,
}
use esignet_relay_authentica.Text.{txt}
use esignet_relay_authentica.Types.{Error, unavailable, ok, second, Binding, err, context_invalid}
use esignet_relay_authentica.Provider.Context.{context_map, restore}
use esignet_relay_authentica.Provider.Restore.{opened}
use esignet_relay_authentica.Provider.Http.{access_token}
use esignet_relay_authentica.Provider.Identity.{authenticate, supported_claims}
use esignet_relay_authentica.Provider.Spending.{Spends}
use esignet_relay_authentica.Provider.Spent.{authenticate-Spends}
use esignet_relay_authentica.Provider.Runtime.{Env}
use esignet_relay_authentica.Provider.Loop.{landed, access_loop}
use esignet_relay_authentica.Provider.Looped.{ended_with, access_loop-access_token}
use esignet_relay_authentica.Provider.Oversized.{
  marks, length-marks, written_length, written_length-marks, restore-oversized,
}
use esignet_relay_authentica.Provider.Psut.{AuthContext, psut_tuple}
use esignet_relay_authentica.Provider.Strays.{reread, restore-other_message}
use esignet_relay_authentica.Provider.ClaimOrder.{supported_claims-Perm}
use esignet_relay_authentica.Provider.Samples.{sample, idle, good, caller, attempt, key, runs}

-- A context that has ended from reading 20 on, while others lead at every reading and leave no token.
abbrev crowded : Env
crowded = record good {
  ended = λ n. leb 20 n;
  others = λ n cache. record cache { token = []; acquiring = true };
}

ends : (i : ℕ) → 20 ≤ i → crowded.ended i ≡ true
ends i h = ground (arith, h)

awaits_seven :
    access_loop crowded sample (λ n. landed none) 8 idle
    ≡ (err unavailable, record idle { looks = 22; cache = crowded.others 0 idle.cache })
unfolding runs access_loop
awaits_seven = refl

access_loop-access_token_example :
    (flights : List (Option Error)) × (length flights ≤ 7)
    × (access_loop crowded sample (λ n. landed none) 8 idle
        ≡ ended_with (access_token (record crowded { flights = flights }) sample idle))
access_loop-access_token_example =
    access_loop-access_token crowded sample (λ n. landed none) 20 7 idle ends (omega arith)

authenticate-Spends_example : Spends 10 1 1 (authenticate good sample key attempt)
authenticate-Spends_example = authenticate-Spends good sample key attempt

-- An identifier and a relying party of 4096 angle brackets, which are as long as a text may be.
abbrev party : Binding
party = record caller { relying_party_id = marks 4096 }

longest : length (marks 4096) ≤ 4096
longest = omega (arith, length-marks 4096)

too_long : 32_768 < written_length (marks 4096) + written_length (marks 4096)
too_long = omega (arith, written_length-marks 4096)

restore-oversized_example :
    restore sample 0 (some (context_map (opened 1000 (marks 4096) (txt "uin") party))) party
    ≡ err context_invalid
restore-oversized_example =
    restore-oversized sample 0 1000 (marks 4096) (txt "uin") party party too_long

supported_claims-Perm_example :
    supported_claims sample
    ≡ supported_claims
        (record sample { claim_map = (txt "name", txt "n") ∷ (txt "sub", txt "$psut") ∷ [] })
supported_claims-Perm_example =
    supported_claims-Perm sample ((txt "name", txt "n") ∷ (txt "sub", txt "$psut") ∷ [])
      (Perm.swap (txt "name", txt "n") (txt "sub", txt "$psut") [])

-- An identifier of one stray byte.
abbrev stray_context : AuthContext
stray_context = opened 1000 (0xff ∷ []) (txt "uin") caller

restored :
    restore sample (1000 * second) (some (context_map stray_context)) caller
    ≡ ok (reread stray_context)
unfolding runs reread
restored = refl

restore-other_message_example : psut_tuple (reread stray_context) ≢ psut_tuple stray_context
unfolding runs
restore-other_message_example =
    restore-other_message sample (1000 * second) 1000 (0xff ∷ []) (txt "uin") caller caller
      (reread stray_context) (omega arith) refl restored

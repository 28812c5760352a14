-- ===== src/Provider/Tests.antt =====
-- A login and a release of attributes against a small environment, and the theorems at them.
use esignet_relay_authentica.Prelude.{
  ℕ, ◌*◌, ◌++◌, pos, ◌≡◌, refl, ◌≢◌, ◌⊎◌, ◌↔◌, inr, true, Option, none, some, List, [], ◌∷◌, All,
  In, Distinct, arith,
}
use esignet_relay_authentica.Text.{Text, txt, text_eq}
use esignet_relay_authentica.Types.{second, ok, err, binding_eq}
use esignet_relay_authentica.Json.{Value, str}
use esignet_relay_authentica.Token.{empty_cache}
use esignet_relay_authentica.Provider.Base64.{IsByte}
use esignet_relay_authentica.Provider.Psut.{psut_tuple, psut_pairwise, SamePair}
use esignet_relay_authentica.Provider.Context.{context_map}
use esignet_relay_authentica.Provider.Runtime.{World}
use esignet_relay_authentica.Provider.Http.{acquire}
use esignet_relay_authentica.Provider.Lookup.{registry_lookup}
use esignet_relay_authentica.Provider.Identity.{
  valid_request, account_ok, fields_from, authenticate, get_attributes,
}
use esignet_relay_authentica.Provider.Granted.{
  IsGranted, authenticate-IsGranted, refusal, authenticate_refused,
}
use esignet_relay_authentica.Provider.Attributes.{IsSource, fields_from-minimal}
use esignet_relay_authentica.Provider.Released.{IsConsented, get_attributes-IsConsented}
use esignet_relay_authentica.Provider.Issued.{IsIssued, acquire-IsIssued}
use esignet_relay_authentica.Provider.Queried.{IsQueried, registry_lookup-IsQueried}
use esignet_relay_authentica.Provider.Assertion.{
  AssertionKey, rsa, sign, ecdsa, assertion, fill_bytes, jwt_head, jwt_body,
}
use esignet_relay_authentica.Provider.Samples.{
  sample, good, deaf, caller, attempt, idle, key, runs, session, sample_login, claims, consented,
  text_of,
}

abbrev world_after : World
world_after = (authenticate good sample key attempt idle).1

logs_in : authenticate good sample key attempt idle ≡ (ok sample_login, world_after)
unfolding runs
logs_in = refl

authenticate-IsGranted_example : IsGranted good sample key attempt idle sample_login
authenticate-IsGranted_example =
    authenticate-IsGranted good sample key attempt idle world_after sample_login logs_in

abbrev unheard : World
unheard = (authenticate deaf sample key attempt idle).1

challenge_refused : deaf.verify attempt ≢ none
challenge_refused = λ e. cc e

authenticate_refused_example :
    ((authenticate deaf sample key attempt idle).0 ≡ err (refusal deaf sample key attempt idle))
    × ((authenticate deaf sample key attempt idle).1.log ≡ [])
    × ((authenticate deaf sample key attempt idle).1.cache ≡ empty_cache)
authenticate_refused_example =
    authenticate_refused deaf sample key attempt idle (inr challenge_refused)

abbrev world_released : World
world_released =
    (get_attributes good sample key (some (context_map session)) caller (some claims) idle).1

releases :
    get_attributes good sample key (some (context_map session)) caller (some claims) idle
    ≡ (ok consented, world_released)
unfolding runs
releases = refl

get_attributes-IsConsented_example :
    IsConsented good sample key
      (some (context_map session))
      caller
      (some claims)
      idle
      world_released
      consented
get_attributes-IsConsented_example =
    get_attributes-IsConsented good sample key (some (context_map session)) caller (some claims)
      idle world_released consented releases

abbrev world_issued : World
world_issued = (acquire good sample (1000 * second) idle).1

issues : acquire good sample (1000 * second) idle ≡ (ok (txt "tok", 300 * second), world_issued)
unfolding runs
issues = refl

acquire-IsIssued_example :
    IsIssued good sample (1000 * second) idle world_issued (txt "tok") (300 * second)
acquire-IsIssued_example =
    acquire-IsIssued good sample (1000 * second) idle world_issued (txt "tok") (300 * second) refl
      issues

abbrev world_queried : World
world_queried = (registry_lookup good sample (txt "7") (txt "n" ∷ []) idle).1

abbrev record_values : List (Text × Value)
record_values = (txt "uin", str (txt "7")) ∷ (txt "n", str (txt "N")) ∷ []

queries :
    registry_lookup good sample (txt "7") (txt "n" ∷ []) idle ≡ (ok record_values, world_queried)
unfolding runs
queries = refl

registry_lookup-IsQueried_example :
    IsQueried good sample (txt "7") (txt "n" ∷ []) idle world_queried record_values
registry_lookup-IsQueried_example =
    registry_lookup-IsQueried good sample (txt "7") (txt "n" ∷ []) idle world_queried record_values
      queries

fields_from-minimal_example :
    Distinct (fields_from sample [] claims)
    × ((source : Text)
        → In source (fields_from sample [] claims)
          ↔ ((claim : Text) × In claim claims × IsSource sample claim source))
fields_from-minimal_example = fields_from-minimal sample claims

-- A code of 32 bytes that depends on the key.
abbrev code : Text → Text → Text
code [] message = 0 ∷ []
code (b ∷ rest) message =
    7 ∷ 1 ∷ 2 ∷ 3 ∷ 4 ∷ 5 ∷ 6 ∷ 7 ∷ 7 ∷ 1 ∷ 2 ∷ 3 ∷ 4 ∷ 5 ∷ 6 ∷ 7 ∷ 7 ∷ 1 ∷ 2 ∷ 3 ∷ 4 ∷ 5 ∷ 6 ∷ 7
    ∷ 7 ∷ 1 ∷ 2 ∷ 3 ∷ 4 ∷ 5 ∷ 6 ∷ 7 ∷ []

code-IsByte : (k message : Text) → All IsByte (code k message)
code-IsByte [] message = ground arith
code-IsByte (b ∷ rest) message = ground arith

psut_pairwise_example :
    SamePair session session
    ⊎ ((psut_tuple session ≢ psut_tuple session)
        × (code key (psut_tuple session) ≡ code key (psut_tuple session)))
psut_pairwise_example = psut_pairwise code key session session code-IsByte refl

-- A key whose signature is one byte, and one whose numbers are small.
abbrev one_byte : AssertionKey
one_byte = record { key = rsa (λ digest. some (5 ∷ [])); kid = txt "i"; alg = txt "RS256" }

abbrev small_numbers : Text → Option (ℕ × ℕ)
small_numbers digest = some (258, 3)

abbrev token_text : Text
token_text =
    text_of
      (assertion (λ message. message) one_byte (some (1 ∷ [])) (txt "c") (txt "a") (pos 1) (pos 2))

asserts :
    assertion (λ message. message) one_byte (some (1 ∷ [])) (txt "c") (txt "a") (pos 1) (pos 2)
    ≡ some token_text
unfolding runs sign jwt_head jwt_body assertion
asserts = refl

signs : sign (ecdsa small_numbers) [] ≡ some (fill_bytes 32 258 ++ fill_bytes 32 3)
unfolding sign
signs = refl

abbrev account : List (Text × Value)
account = (txt "uin", str (txt "7")) ∷ (txt "n", str (txt "N")) ∷ []

abbrev world_answered : World
world_answered =
    (registry_lookup good sample (txt "7") (txt "uin" ∷ []) (record idle { looks = 2 })).1

answered :
    registry_lookup good sample (txt "7") (txt "uin" ∷ []) (record idle { looks = 2 })
    ≡ (ok account, world_answered)
unfolding runs
answered = refl

passes : (valid_request sample attempt ≡ true) × (account_ok sample (txt "7") account ≡ true)
unfolding runs
passes = (refl, refl)

-- ===== src/Provider/SessionTests.antt =====
-- A session context that is restored, and what is asked with the context of a login.
use esignet_relay_authentica.Prelude.{
  ◌*◌, ◌≡◌, refl, true, ◌&&◌, inr, none, some, List, [], ◌∷◌, ltb, arith, ◌==◌, if◌then◌else◌,
  lookup, contains,
}
use esignet_relay_authentica.Text.{Text, text_eq, txt}
use esignet_relay_authentica.Types.{
  second, unix, context_invalid, context_expired, ok, err, valid_binding, binding_eq,
}
use esignet_relay_authentica.Provider.Psut.{psut}
use esignet_relay_authentica.Provider.Context.{marshal_state, context_map, valid_subject, restore}
use esignet_relay_authentica.Provider.Restore.{
  IsRestored, restore-IsRestored, IsStorable, restore-context_map,
}
use esignet_relay_authentica.Provider.Runtime.{Env, World}
use esignet_relay_authentica.Provider.Identity.{fields_from, authenticate, get_attributes, subject}
use esignet_relay_authentica.Provider.Session.{answer_for, subject-authenticate}
use esignet_relay_authentica.Provider.Answered.{get_attributes_answers}
use esignet_relay_authentica.Provider.Released.{claim_value}
use esignet_relay_authentica.Provider.Lookup.{registry_lookup}
use esignet_relay_authentica.Json.{Value, str}
use esignet_relay_authentica.Provider.Attributed.{IsAttributed, get_attributes-authenticate}
use esignet_relay_authentica.Provider.Samples.{
  sample, good, caller, attempt, idle, key, runs, session, sample_login, claims, consented, text_of,
}

restored : restore sample (1100 * second) (some (context_map session)) caller ≡ ok session
unfolding runs
restored = refl

restore-IsRestored_example :
    IsRestored sample (1100 * second) (some (context_map session)) caller session
restore-IsRestored_example =
    restore-IsRestored sample (1100 * second) (some (context_map session)) caller session restored

storable : IsStorable 1000 (txt "7") (txt "uin") caller
unfolding runs
storable = record {
  fits = omega arith;
  identifier = refl;
  identifier_type = refl;
  relying_party = refl;
  client = refl;
  transaction = refl;
  json = text_of (marshal_state (context_map session));
  written = refl;
  small = omega arith;
}

sample_subject : valid_subject sample (txt "7") (txt "uin") ≡ true
unfolding runs
sample_subject = refl

restore-context_map_example : restore sample (1100 * second) (some (context_map session)) caller ≡ (
    if valid_binding caller && caller == caller
    then (if ltb (unix (1100 * second)) 1300 then ok session else err context_expired)
    else err context_invalid)
restore-context_map_example =
    restore-context_map 1000 (txt "7") (txt "uin") caller storable sample (1100 * second) caller
      sample_subject (omega arith) (omega arith)

-- A login, and what is asked with it 100 seconds later.
abbrev world_granted : World
world_granted = (authenticate good sample key attempt idle).1

grants : authenticate good sample key attempt idle ≡ (ok sample_login, world_granted)
unfolding runs
grants = refl

abbrev afterwards : Env
afterwards = record good { clock = λ n. 1100 * second }

abbrev world_attributed : World
world_attributed =
    (get_attributes afterwards sample key (some (context_map session)) caller (some claims) idle).1

attributes :
    get_attributes afterwards sample key (some (context_map session)) caller (some claims) idle
    ≡ (ok consented, world_attributed)
unfolding runs
attributes = refl

subject-authenticate_example :
    (subject afterwards sample key (some (context_map session)) caller idle).0
    ≡ answer_for 1000 caller caller (1100 * second) (psut good.hmac key session)
subject-authenticate_example =
    subject-authenticate good afterwards sample key refl attempt idle world_granted idle
      sample_login caller grants storable (omega arith) (omega arith)

get_attributes-authenticate_example :
    IsAttributed good afterwards sample attempt world_granted sample_login caller
      (some claims)
      idle
      world_attributed
      consented
get_attributes-authenticate_example =
    get_attributes-authenticate good afterwards sample key refl attempt idle world_granted idle
      world_attributed sample_login caller (some claims) consented grants storable attributes

abbrev values : List (Text × Value)
values = (txt "uin", str (txt "7")) ∷ (txt "n", str (txt "N")) ∷ []

answered :
    registry_lookup afterwards sample
      (txt "7")
      (fields_from sample [] claims)
      (record idle { looks = 1 })
    ≡ (ok values, world_attributed)
unfolding runs
answered = refl

get_attributes_answers_example :
    (result : List (Text × Value)) × (get_attributes afterwards sample key
        (some (context_map session))
        caller
        (some claims)
        idle
      ≡ (ok result, world_attributed))
    × ((claim : Text)
        → lookup claim result ≡ (
            if contains claims claim
            then claim_value sample (psut good.hmac key session) values claim
            else none))
get_attributes_answers_example =
    get_attributes_answers good afterwards sample key refl attempt idle world_granted idle
      world_attributed sample_login claims values grants storable (omega arith) (omega arith)
      (omega arith) (inr answered)

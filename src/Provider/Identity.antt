-- ===== src/Provider/Identity.antt =====
-- provider/provider.go: the operations on identities, over any `ChallengeVerifier`.
use esignet_relay_authentica.Prelude.{
  ◌+◌, Bool, true, false, ◌&&◌, ◌||◌, not, Option, none, some, List, [], ◌∷◌, ◌++◌, pos,
  if◌then◌else◌, ◌==◌, contains, all, keep, map, lookup, insert,
}
use esignet_relay_authentica.Text.{Text, txt, text_eq, is_empty}
use esignet_relay_authentica.Types.{
  Time, unix, Error, invalid_request, challenge_failed, unavailable, canceled, deadline_exceeded,
  Binding, ChallengeRequest, OtpRequest, valid_text, valid_binding,
}
use esignet_relay_authentica.Json.{Value, null, str, sort_members}
use esignet_relay_authentica.Config.{Config, psut_source}
use esignet_relay_authentica.Provider.Psut.{AuthContext, psut}
use esignet_relay_authentica.Provider.Context.{context_ttl, context_map, valid_subject, restore}
use esignet_relay_authentica.Provider.Runtime.{
  Env, Action, ◌>>=◌, ◌>>◌, return, fail, require, lift, now, is_done,
}
use esignet_relay_authentica.Provider.Lookup.{registry_lookup}

-- `AuthenticationResult`.
pub record Login : Type 0 where
  pub subject : Text
  pub context : List (Text × Value)

unfoldable pub valid_request : Config → ChallengeRequest → Bool
valid_request c r =
    valid_subject c r.identifier r.identifier_type
    && valid_binding r.binding
    && valid_text r.challenge

-- What the verifier's answer means: the call's own context first, then its errors.
unfoldable pub verdict : Bool → Option Error → Action (Unit {0})
verdict true answer = fail unavailable
verdict false none = return tt
verdict false (some canceled) = fail unavailable
verdict false (some deadline_exceeded) = fail unavailable
verdict false (some _) = fail challenge_failed

abbrev pub is_null : Value → Bool
is_null null = true
is_null _ = false

abbrev pub is_text : Value → Text → Bool
is_text (str s) text = s == text
is_text _ text = false

abbrev pub present : Option Value → Bool
present none = false
present (some v) = not (is_null v)

abbrev pub agrees : Option Value → Text → Bool
agrees none text = true
agrees (some v) text = is_text v text

-- Every account field is there and not null, and the selector's, if it is there, is the identifier.
unfoldable pub account_ok : Config → Text → List (Text × Value) → Bool
unfolding lookup
account_ok c id fields =
    all (λ field. present (lookup field fields)) c.breg.account_check_fields
    && agrees (lookup c.breg.selector_field fields) id

-- The state that `Authenticate` builds.
unfoldable pub opened_at : Time → ChallengeRequest → AuthContext
opened_at t r = record {
  version = pos 1;
  identifier = r.identifier;
  identifier_type = r.identifier_type;
  relying_party_id = r.binding.relying_party_id;
  client_id = r.binding.client_id;
  transaction_id = r.binding.transaction_id;
  issued_at = pos (unix t);
  expires_at = pos (unix (t + context_ttl));
}

-- The claims' sources that a lookup has to fetch, each once, in the order of the claims.
unfoldable pub push_source : Config → List Text → Text → List Text
unfolding contains
push_source c fields source =
    if not (source == psut_source)
      && contains c.breg.provisioned_fields source
      && not (contains fields source)
    then fields ++ source ∷ []
    else fields

unfoldable pub push_field : Config → List Text → Text → List Text
unfolding lookup push_source
push_field c fields claim = elim (lookup claim c.claim_map) [
  | none ↦ fields
  | some source ↦ push_source c fields source
]

unfoldable pub fields_from : Config → List Text → List Text → List Text
unfolding push_field
fields_from c fields [] = fields
fields_from c fields (claim ∷ claims) = fields_from c (push_field c fields claim) claims

-- What one approved claim adds to the result.
unfoldable pub release : Config → Text → List Text → List (Text × Value) → Text → Option Value
unfolding lookup contains
release c subject fields values claim = elim (lookup claim c.claim_map) [
  | none ↦ none
  | some source ↦
      if source == psut_source
      then some (str subject)
      else (if contains fields source then lookup source values else none)
]

abbrev put : Text → Option Value → List (Text × Value) → List (Text × Value)
put claim none result = result
put claim (some v) result = insert claim v result

unfoldable pub release_from :
    Config
    → Text
    → List Text
    → List (Text × Value)
    → List Text
    → List (Text × Value)
    → List (Text × Value)
unfolding release insert
release_from c subject fields values [] result = result
release_from c subject fields values (claim ∷ claims) result =
    release_from c subject fields values claims
      (put claim (release c subject fields values claim) result)

-- The sources of `SupportedClaims`, which `GetAttributes` also tests.
unfoldable pub claim_supported : Config → Text × Text → Bool
unfolding contains
claim_supported c (claim, source) =
    source == psut_source || contains c.breg.provisioned_fields source

unfoldable pub supported_claims : Config → List Text
unfolding claim_supported sort_members
supported_claims c = map (λ e. e.0) (sort_members (keep (claim_supported c) c.claim_map))

unfoldable pub supported_otp_channels : Config → List Text
supported_otp_channels c =
    if c.demo.mailpit.enabled then txt "email" ∷ [] else txt "email" ∷ txt "phone" ∷ []

unfoldable pub valid_otp_request : Config → OtpRequest → Bool
valid_otp_request c r =
    valid_subject c r.identifier r.identifier_type
    && valid_binding r.binding
    && not (is_empty r.channels)
    && all (λ ch. ch == txt "email" || ch == txt "phone") r.channels

-- `approved == nil` is an error.
abbrev pub given : Option (List Text) → Action (List Text)
given none = fail invalid_request
given (some approved) = return approved

module _ (env : Env) (c : Config) (secret : Text) where
  abbrev pub subject_of : AuthContext → Text
  subject_of s = psut env.hmac secret s

  -- `p.Authenticate`.
  unfoldable pub authenticate : ChallengeRequest → Action Login
  authenticate r = do
    require (valid_request c r) invalid_request
    ended ← is_done env
    require (not ended) unavailable
    expired ← is_done env
    verdict expired (env.verify r)
    fields ← registry_lookup env c r.identifier c.breg.account_check_fields
    require (account_ok c r.identifier fields) unavailable
    t ← now env
    return (record { subject = subject_of (opened_at t r); context = context_map (opened_at t r) })

  -- `p.SendOTP`.
  unfoldable pub send_otp : OtpRequest → Action (Unit {0})
  send_otp r = do
    require (valid_otp_request c r) invalid_request
    expired ← is_done env
    elim (env.send_otp r) [ none ↦ require (not expired) unavailable | some e ↦ fail unavailable ]

  -- `p.restore` with the clock of the environment, which it reads at most once.
  abbrev restore_now : Option (List (Text × Value)) → Binding → Action AuthContext
  restore_now state b = do t ← now env; lift (restore c t state b)

  abbrev fetch : Text → List Text → Action (List (Text × Value))
  fetch id fields = if is_empty fields then return [] else registry_lookup env c id fields

  -- `p.GetAttributes`; `approved` is none for a nil slice.
  unfoldable pub get_attributes :
      Option (List (Text × Value)) → Binding → Option (List Text) → Action (List (Text × Value))
  unfolding fields_from release_from
  get_attributes state b approval = do
    approved ← given approval
    s ← restore_now state b
    let fields = fields_from c [] approved
    values ← fetch s.identifier fields
    return (release_from c (subject_of s) fields values approved [])

  -- `p.Subject`.
  unfoldable pub subject : Option (List (Text × Value)) → Binding → Action Text
  subject state b = do
    ended ← is_done env
    require (not ended) unavailable
    s ← restore_now state b
    return (subject_of s)

-- `staticVerifier.Verify`, with the context's state.
unfoldable pub static_verify : Text → Bool → ChallengeRequest → Option Error
static_verify otp ended r =
    if ended || not (otp == r.challenge) then some challenge_failed else none

-- `staticVerifier.SendOTP` sends nothing: the context's error.
abbrev pub static_send_otp : Option Error → OtpRequest → Option Error
static_send_otp ended r = ended

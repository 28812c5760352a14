-- ===== src/Engine/Defs.antt =====
-- The adapter over any `identityProvider`, whose operations are actions on a world.
use esignet_relay_authentica.Prelude.{
  Bool, true, false, ◌||◌, not, Option, none, some, List, [], ◌∷◌, eqb, if◌then◌else◌, ◌==◌, length,
  lookup, map, any,
}
use esignet_relay_authentica.Text.{Text, txt, text_eq, is_empty}
use esignet_relay_authentica.Types.{
  Binding, ChallengeRequest, OtpRequest, Error, invalid_request, challenge_failed, subject_denied,
  unavailable, context_invalid, context_expired, Result, ok, err,
}
use esignet_relay_authentica.Json.{Value, str, sort_members}
use esignet_relay_authentica.Provider.{World, Action}

-- The service errors of the engine that the adapter returns.
pub data ServiceError : Type 0 where
  invalid_request_error client_not_found_error internal_server_error : ServiceError
  authentication_failed_error not_implemented_error : ServiceError

pub data Reply (A : Type 0) : Type 0 where
  done : A → Reply A
  fault : ServiceError → Reply A

-- What a registered client is resolved to.
pub record Client : Type 0 where
  pub client_id : Text
  pub rp_id : Text

pub data ClientAnswer : Type 0 where
  found : Client → ClientAnswer
  not_found broken : ClientAnswer

-- `identityProvider`; the context of a login is none for a nil map.
pub record Identity : Type 0 where
  pub send_otp : OtpRequest → Action (Unit {0})
  pub authenticate : ChallengeRequest → Action (Text × Option (List (Text × Value)))
  pub get_attributes :
      Option (List (Text × Value)) → Binding → Option (List Text) → Action (List (Text × Value))

-- `authenticator`; `clients` is none for a nil resolver.
pub record Authenticator : Type 0 where
  pub identity : Identity
  pub clients : Option (Text → ClientAnswer)
  pub identifier_type : Text
  pub channels : List Text

abbrev pub Metadata : Type 0
Metadata = List (Text × List Text)

abbrev pub values_of : Text → Metadata → List Text
values_of key metadata = elim (lookup key metadata) [ none ↦ [] | some vs ↦ vs ]

-- The only value of a list, if it is not empty.
abbrev pub single : List Text → Option Text
single [] = none
single (v ∷ []) = if is_empty v then none else some v
single (v ∷ w ∷ vs) = none

-- The transaction of the metadata, or an empty one where it is not required.
unfoldable pub transaction_of : List Text → Bool → Reply Text
transaction_of transactions required = elim (single transactions) [
  | some t ↦ done t
  | none ↦ if required || not (is_empty transactions) then fault invalid_request_error else done []
]

abbrev pub bound : Text → Text → Reply Text → Reply Binding
bound client party (done transaction) =
    done (record { relying_party_id = party; client_id = client; transaction_id = transaction })
bound client party (fault e) = fault e

unfoldable pub of_client : Text → ClientAnswer → List Text → Bool → Reply Binding
unfolding transaction_of
of_client id not_found transactions required = fault client_not_found_error
of_client id broken transactions required = fault internal_server_error
of_client id (found client) transactions required =
    if not (client.client_id == id) || is_empty client.rp_id
    then fault invalid_request_error
    else bound client.client_id client.rp_id (transaction_of transactions required)

abbrev resolve : Option Text → Option (Text → ClientAnswer) → List Text → Bool → Reply Binding
resolve none clients transactions required = fault invalid_request_error
resolve (some id) none transactions required = fault invalid_request_error
resolve (some id) (some get_client) transactions required =
    of_client id (get_client id) transactions required

-- `binding`.
unfoldable pub binding : Authenticator → Metadata → Bool → Reply Binding
unfolding of_client
binding p metadata required =
    resolve (single (values_of (txt "initiator_query_client_id") metadata)) p.clients
      (values_of (txt "provider_ext_TransactionID") metadata) required

-- `providerError`.
unfoldable pub provider_error : Error → ServiceError
provider_error unavailable = internal_server_error
provider_error invalid_request = invalid_request_error
provider_error challenge_failed = authentication_failed_error
provider_error subject_denied = authentication_failed_error
provider_error context_invalid = authentication_failed_error
provider_error context_expired = authentication_failed_error
provider_error _ = internal_server_error

-- A value that is a string and not empty.
abbrev as_text : Value → Option Text
as_text (str s) = if is_empty s then none else some s
as_text _ = none

abbrev pub text_at : Text → List (Text × Value) → Option Text
text_at key m = elim (lookup key m) [ none ↦ none | some v ↦ as_text v ]

-- What an operation of the adapter comes to: an action's result with the provider's errors mapped.
abbrev pub Service : Type 0 → Type 0
Service A = World → Reply A × World

unfoldable pub answered : {A B : Type 0} → (A → Reply B) → Result A × World → Reply B × World
answered finish (ok a, w) = (finish a, w)
answered finish (err e, w) = (fault (provider_error e), w)

unfoldable pub with_reply : {A B : Type 0} → Reply A → (A → Service B) → Service B
with_reply (done a) next w = next a w
with_reply (fault e) next w = (fault e, w)

abbrev pub or_fault : {A : Type 0} → Option A → Reply A
or_fault none = fault invalid_request_error
or_fault (some a) = done a

abbrev pub demand : Bool → Reply (Unit {0})
demand true = done tt
demand false = fault invalid_request_error

-- A transaction for a request without one; `entropy` is 32 hexadecimal digits, or none on failure.
abbrev with_transaction : Option Text → Binding → Reply Binding
with_transaction entropy b =
    if is_empty b.transaction_id
    then elim entropy [
      | none ↦ fault internal_server_error
      | some t ↦ done (record b { transaction_id = t })
    ]
    else done b

-- `SendOTP`, with the transaction as its result; `metadata` is none for a nil pointer.
unfoldable pub engine_send_otp :
    Authenticator → Option Text → List (Text × Value) → Option Metadata → Service Text
unfolding binding provider_error
engine_send_otp p entropy identifiers metadata = with_reply (or_fault metadata) (λ m.
    with_reply (or_fault (text_at (txt "username") identifiers)) (λ identifier.
      with_reply (binding p m false) (λ given. with_reply (with_transaction entropy given) (λ b w.
        answered (λ _. done b.transaction_id)
          (p.identity.send_otp
            (record {
              identifier = identifier;
              identifier_type = p.identifier_type;
              binding = b;
              channels = p.channels;
            })
            w)))))

-- A login with a subject and a context.
abbrev pub logged_in : Text × Option (List (Text × Value)) → Reply (Text × List (Text × Value))
logged_in (subject, none) = fault internal_server_error
logged_in (subject, some context) =
    if is_empty subject then fault internal_server_error else done (subject, context)

-- `Authenticate`: the entity's reference and the attribute token.
unfoldable pub engine_authenticate :
    Authenticator
    → List (Text × Value)
    → List (Text × Value)
    → Option Metadata
    → Service (Text × List (Text × Value))
unfolding binding provider_error
engine_authenticate p identifiers credentials metadata = with_reply (or_fault metadata) (λ m.
    with_reply (or_fault (text_at (txt "username") identifiers)) (λ identifier.
      with_reply (or_fault (text_at (txt "otp") credentials)) (λ challenge.
        with_reply (demand (eqb (length credentials) 1)) (λ _. with_reply (binding p m true) (λ b w.
          answered logged_in (
            p.identity.authenticate
              (record {
                identifier = identifier;
                identifier_type = p.identifier_type;
                challenge = challenge;
                binding = b;
              })
              w))))))

-- `RequestedAttributes`: each attribute with whether it has a constraint.
pub record Requested : Type 0 where
  pub verifications : List Text
  pub attributes : List (Text × Bool)

-- The names that were asked for, sorted.
unfoldable pub names_of : Requested → List Text
unfolding sort_members
names_of requested = map (λ (e : Text × Bool). e.0) (sort_members requested.attributes)

unfoldable pub pick : List Text → List (Text × Value) → List (Text × Value)
unfolding lookup
pick [] values = []
pick (name ∷ names) values =
    let rest = pick names values in
    elim (lookup name values) [ none ↦ rest | some v ↦ (name, v) ∷ rest ]

-- `GetAttributes`; `token` is none unless it is a map that is not nil.
unfoldable pub engine_get_attributes :
    Authenticator
    → Option (List (Text × Value))
    → Option Requested
    → Option Metadata
    → Service (List (Text × Value))
unfolding binding provider_error names_of pick
engine_get_attributes p token asked metadata = with_reply (or_fault asked) (λ requested.
    with_reply (or_fault metadata) (λ m.
      with_reply (demand (is_empty requested.verifications)) (λ _.
        with_reply (or_fault token) (λ state. with_reply (binding p m true) (λ b.
          with_reply (demand (not (any (λ e. e.1) requested.attributes))) (λ _ w.
            answered (λ values. done (pick (names_of requested) values))
              (p.identity.get_attributes (some state) b (some (names_of requested)) w)))))))

-- The operations that do not depend on their arguments: logins carry their reference, there are no
-- certificates, and the rest is not offered.
abbrev pub get_entity_reference : Reply Text
get_entity_reference = fault invalid_request_error

abbrev pub get_signing_certificates : Reply (List Text)
get_signing_certificates = done []

abbrev pub initiate_authentication : Reply Text
initiate_authentication = fault not_implemented_error

abbrev pub initiate_enrollment : Reply Text
initiate_enrollment = fault not_implemented_error

abbrev pub enroll : Reply Text
enroll = fault not_implemented_error

-- ===== src/Types.antt =====
-- provider/types.go: requests, results and the errors of the package, with the checks on requests
-- of provider/provider.go. A `Time` is in nanoseconds since the epoch.
use esignet_relay_authentica.Prelude.{
  ℕ, ◌/◌, ◌≡◌, ◌↔◌, Bool, true, false, ◌&&◌, not, List, arith, leb, Eq, ◌==◌, ==_iff, length,
}
use esignet_relay_authentica.Text.{Text, text_eq, blank}

abbrev pub Time : Type 0
Time = ℕ

-- `time.Second`.
abbrev pub second : Time
second = 1_000_000_000

-- `t.Unix()`.
abbrev pub unix : Time → ℕ
unix t = t / second

pub record Binding : Type 0 where
  pub relying_party_id : Text
  pub client_id : Text
  pub transaction_id : Text

pub record ChallengeRequest : Type 0 where
  pub identifier : Text
  pub identifier_type : Text
  pub challenge : Text
  pub binding : Binding

pub record OtpRequest : Type 0 where
  pub identifier : Text
  pub identifier_type : Text
  pub binding : Binding
  pub channels : List Text

-- The package's errors, the two of `context`, and any other error of a verifier.
pub data Error : Type 0 where
  invalid_request challenge_failed subject_denied unavailable context_invalid : Error
  context_expired canceled deadline_exceeded other : Error

pub data Result {ℓ} (A : Type ℓ) : Type ℓ where
  ok : A → Result A
  err : Error → Result A

infixl 5 ◌>>=◌ ◌>>◌
abbrev pub ◌>>=◌ {ℓ κ} : {A : Type ℓ} {B : Type κ} → Result A → (A → Result B) → Result B
ok value >>= next = next value
err e >>= next = err e

abbrev pub ◌>>◌ {ℓ} : {B : Type ℓ} → Result (Unit {0}) → Result B → Result B
check >> rest = check >>= λ _. rest

-- `if !test { return e }`.
abbrev pub guard : Bool → Error → Result (Unit {0})
guard true failure = ok tt
guard false failure = err failure

unfoldable pub binding_beq : Binding → Binding → Bool
binding_beq a b =
    a.relying_party_id == b.relying_party_id
    && a.client_id == b.client_id
    && a.transaction_id == b.transaction_id

pub binding_beq_iff : (a b : Binding) → (binding_beq a b ≡ true) ↔ (a ≡ b)
unfolding binding_beq
binding_beq_iff a b = ground (
  arith,
  ==_iff a.relying_party_id b.relying_party_id,
  ==_iff a.client_id b.client_id,
  ==_iff a.transaction_id b.transaction_id,
)

instance abbrev pub binding_eq : Eq Binding
binding_eq = record { beq = binding_beq; beq_iff = binding_beq_iff }

unfoldable pub valid_text : Text → Bool
valid_text s = not (blank s) && leb (length s) 4096

unfoldable pub valid_binding : Binding → Bool
unfolding valid_text
valid_binding b =
    valid_text b.relying_party_id && valid_text b.client_id && valid_text b.transaction_id

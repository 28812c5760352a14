-- ===== src/Mailpit/Defs.antt =====
-- The state and the operations of `mailpitVerifier`.
use esignet_relay_authentica.Prelude.{
  ℕ, suc, ◌+◌, ◌-◌, ◌*◌, ◌/◌, ◌%◌, ◌≡◌, ◌↔◌, Bool, true, false, ◌&&◌, ◌||◌, Option, none, some,
  List, [], ◌∷◌, ◌++◌, arith, ltb, leb, if◌then◌else◌, Eq, ◌==◌, ==_iff, length, lookup, insert,
  erase,
}
use esignet_relay_authentica.Text.{Text, txt, text_eq, text_beq}
use esignet_relay_authentica.Types.{
  Time, second, Binding, binding_eq, ChallengeRequest, OtpRequest, Error, invalid_request,
  challenge_failed, unavailable, Result, ok, err, ◌>>=◌, ◌>>◌, guard, valid_text, valid_binding,
}

abbrev pub mailpit_challenge_ttl : Time
mailpit_challenge_ttl = 5 * 60 * second

abbrev pub mailpit_max_pending : ℕ
mailpit_max_pending = 1024

abbrev pub mailpit_max_attempts : ℕ
mailpit_max_attempts = 5

pub record MailpitKey : Type 0 where
  pub identifier : Text
  pub identifier_type : Text
  pub binding : Binding

unfoldable pub key_beq : MailpitKey → MailpitKey → Bool
key_beq a b =
    a.identifier == b.identifier && a.identifier_type == b.identifier_type && a.binding == b.binding

pub key_beq_iff : (a b : MailpitKey) → (key_beq a b ≡ true) ↔ (a ≡ b)
unfolding key_beq
key_beq_iff a b = ground (
  arith,
  ==_iff a.identifier b.identifier,
  ==_iff a.identifier_type b.identifier_type,
  ==_iff a.binding b.binding,
)

instance abbrev pub key_eq : Eq MailpitKey
key_eq = record { beq = key_beq; beq_iff = key_beq_iff }

pub record Challenge : Type 0 where
  pub digest : Text
  pub salt : Text
  pub expires : Time
  pub attempts : ℕ

-- The fields of `mailpitVerifier` that its lock guards.
pub record Verifier : Type 0 where
  pub pending : List (MailpitKey × Challenge)
  pub in_flight : ℕ

abbrev pub new_mailpit_verifier : Verifier
new_mailpit_verifier = record { pending = []; in_flight = 0 }

abbrev pub otp_key : OtpRequest → MailpitKey
otp_key r = record {
  identifier = r.identifier;
  identifier_type = r.identifier_type;
  binding = r.binding;
}

abbrev pub challenge_key : ChallengeRequest → MailpitKey
challenge_key r = record {
  identifier = r.identifier;
  identifier_type = r.identifier_type;
  binding = r.binding;
}

-- The loop that deletes what has expired; the clock is read once for each entry.
unfoldable pub purge : (ℕ → Time) → List (MailpitKey × Challenge) → List (MailpitKey × Challenge)
purge clock [] = []
purge clock ((k, c) ∷ m) =
    let rest = purge (λ i. clock (suc i)) m in
    if ltb (clock 0) c.expires then (k, c) ∷ rest else rest

-- The first locked section of `SendOTP`: the answer says whether a place was free.
unfoldable pub reserve : (ℕ → Time) → Verifier → Verifier × Bool
reserve clock v =
    let live = purge clock v.pending in
    if leb mailpit_max_pending (length live + v.in_flight)
    then (record v { pending = live }, false)
    else (record v { pending = live; in_flight = v.in_flight + 1 }, true)

-- The deferred `v.inFlight--`.
abbrev pub finish : Verifier → Verifier
finish v = record v { in_flight = v.in_flight - 1 }

-- The last locked section of `SendOTP`.
abbrev pub store : MailpitKey → Challenge → Verifier → Verifier
store key challenge v = record v { pending = insert key challenge v.pending }

abbrev digit : ℕ → ℕ
digit n = b'0' + n % 10

-- `fmt.Sprintf("%06d", n)` for n below a million.
unfoldable pub format_code : ℕ → Text
format_code n =
    digit (n / 100000)
    ∷ digit (n / 10000)
    ∷ digit (n / 1000)
    ∷ digit (n / 100)
    ∷ digit (n / 10)
    ∷ digit n
    ∷ []

-- What a call of `SendOTP` meets: the state of the context on entry, the clock, the two random
-- draws, the time of issue, the mail server's answer, and the context after delivery.
pub record Delivery : Type 0 where
  pub canceled : Option Error
  pub clock : ℕ → Time
  pub number : Option ℕ
  pub salt : Option Text
  pub issued : Time
  pub deliver : Text → Option Error
  pub canceled_after : Option Error

abbrev live_context : Option Error → Result (Unit {0})
live_context none = ok tt
live_context (some e) = err e

abbrev or_unavailable : {A : Type 0} → Option A → Result A
or_unavailable none = err unavailable
or_unavailable (some a) = ok a

abbrev delivered : Option Error → Result (Unit {0})
delivered none = ok tt
delivered (some e) = err unavailable

pub acceptable_channels : List Text → Bool
acceptable_channels (c ∷ []) = c == txt "email"
acceptable_channels _ = false

unfoldable pub acceptable : OtpRequest → Bool
unfolding acceptable_channels valid_binding valid_text text_beq
acceptable r =
    acceptable_channels r.channels
    && valid_binding r.binding
    && valid_text r.identifier
    && valid_text r.identifier_type

module _ (sha256 : Text → Text) where
  unfoldable pub mailpit_digest : Text → Text → Text
  mailpit_digest salt code = sha256 (salt ++ code)

  -- The unlocked middle of `SendOTP`: draw, mail and build the challenge.
  unfoldable pub issue : Delivery → Result Challenge
  issue d = do
    n ← or_unavailable d.number
    salt ← or_unavailable d.salt
    delivered (d.deliver (format_code n))
    live_context d.canceled_after
    ok (record {
      digest = mailpit_digest salt (format_code n);
      salt = salt;
      expires = d.issued + mailpit_challenge_ttl;
      attempts = 0;
    })

  abbrev conclude : MailpitKey → Verifier → Result Challenge → Verifier × Result (Unit {0})
  conclude key v (ok challenge) = (finish (store key challenge v), ok tt)
  conclude key v (err e) = (finish v, err e)

  abbrev after_reserve : MailpitKey → Delivery → Verifier × Bool → Verifier × Result (Unit {0})
  after_reserve key d (v, true) = conclude key v (issue d)
  after_reserve key d (v, false) = (v, err unavailable)

  abbrev admitted : OtpRequest → Delivery → Verifier → Bool → Verifier × Result (Unit {0})
  admitted r d v true = after_reserve (otp_key r) d (reserve d.clock v)
  admitted r d v false = (v, err invalid_request)

  -- `SendOTP`, with no other goroutine between its locked sections.
  unfoldable pub send_otp : Delivery → OtpRequest → Verifier → Verifier × Result (Unit {0})
  send_otp d r v = elim d.canceled [ none ↦ admitted r d v (acceptable r) | some e ↦ (v, err e) ]

  abbrev compared : MailpitKey → Challenge → Bool → Verifier → Verifier × Result (Unit {0})
  compared key challenge match v = (
    record v {
      pending =
          if match || leb mailpit_max_attempts challenge.attempts
          then erase key v.pending
          else insert key challenge v.pending;
    },
    guard match challenge_failed,
  )

  pub check : Time → ChallengeRequest → Verifier → Option Challenge → Verifier × Result (Unit {0})
  check now r v none =
      (record v { pending = erase (challenge_key r) v.pending }, err challenge_failed)
  check now r v (some challenge) =
      if ltb now challenge.expires
      then compared (challenge_key r) (record challenge { attempts = challenge.attempts + 1 })
          (challenge.digest == mailpit_digest challenge.salt r.challenge) v
      else (record v { pending = erase (challenge_key r) v.pending }, err challenge_failed)

  -- `Verify`: one locked section, after a look at the context.
  unfoldable pub verify :
      Option Error → Time → ChallengeRequest → Verifier → Verifier × Result (Unit {0})
  unfolding check
  verify canceled now r v = elim canceled [
    | none ↦ check now r v (lookup (challenge_key r) v.pending)
    | some e ↦ (v, err e)
  ]

-- ===== src/Mailpit/Refined.antt =====
-- Any interleaving of `SendOTP` and `Verify` against what is remembered of its history.
use esignet_relay_authentica.Prelude.{
  ℕ, ◌≤◌, ◌<◌, ◌≡◌, refl, sym, ap, ◌∙◌, ◌↔◌, inl, inr, Option, none, some, List, [], ◌∷◌, arith,
  lookup, All,
}
use esignet_relay_authentica.Text.{Text, text_eq}
use esignet_relay_authentica.Types.{Time, ChallengeRequest, ok}
use esignet_relay_authentica.Mailpit.Defs.{
  key_eq, Challenge, challenge_key, mailpit_digest, verify, reserve,
}
use esignet_relay_authentica.Mailpit.Verify.{verify-eq-ok_iff}
use esignet_relay_authentica.Mailpit.Interleaving.{
  System, Step, begin, refuse, abandon, commit, return, try, Reach, start, next,
}
use esignet_relay_authentica.Mailpit.Purged.{reserve-pending}
use esignet_relay_authentica.Mailpit.History.{
  Event, sweep, stored, tried, remembered, Reached, Fits, IsRecorded, sweep-IsRecorded,
  stored-IsRecorded, tried-IsRecorded,
}

-- A purge of `SendOTP` read no later time.
abbrev pub IsPast : Time → Event → Type 0
IsPast now (sweep clock) = (i : ℕ) → clock i ≤ now
IsPast now (stored key c) = Unit {0}
IsPast now (tried t r) = Unit {0}

Reached-le :
    (now t : Time) (events : List Event) → All (IsPast now) events → Reached t events → t ≤ now
unfolding Reached
Reached-le now t [] h r = absurd r
Reached-le now t (sweep clock ∷ events) h (inl (i, late)) = omega (arith, late, h.0 i)
Reached-le now t (sweep clock ∷ events) h (inr r) = Reached-le now t events h.1 r
Reached-le now t (stored key c ∷ events) h r = Reached-le now t events h.1 r
Reached-le now t (tried u q ∷ events) h r = Reached-le now t events h.1 r

module _ (sha256 : Text → Text) where
  -- The events of one step; a `Verify` under an ended context touches nothing.
  abbrev pub event_of : {s t : System} → Step sha256 s t → List Event → List Event
  event_of (begin clock h) events = sweep clock ∷ events
  event_of (refuse clock h) events = sweep clock ∷ events
  event_of (abandon h) events = events
  event_of (commit key c fresh h) events = stored key c ∷ events
  event_of (return h) events = events
  event_of (try none now r) events = tried now r ∷ events
  event_of (try (some e) now r) events = events

  -- What has happened, the latest first.
  unfoldable pub history : {s : System} → Reach sha256 s → List Event
  history start = []
  history (next r step) = event_of step (history r)

  Step-IsRecorded :
      {s t : System} (step : Step sha256 s t) (events : List Event)
      → IsRecorded sha256 events s.verifier
      → IsRecorded sha256 (event_of step events) t.verifier
  unfolding verify
  Step-IsRecorded {s} (begin clock h) events k =
      sweep-IsRecorded sha256 clock events s.verifier (reserve clock s.verifier).0 k
        (reserve-pending clock s.verifier)
  Step-IsRecorded {s} (refuse clock h) events k =
      sweep-IsRecorded sha256 clock events s.verifier (reserve clock s.verifier).0 k
        (reserve-pending clock s.verifier)
  Step-IsRecorded {s} (abandon h) events k = record { unique = k.unique; agrees = k.agrees }
  Step-IsRecorded {s} (commit key c fresh h) events k =
      stored-IsRecorded sha256 key c events s.verifier k
  Step-IsRecorded {s} (return h) events k = record { unique = k.unique; agrees = k.agrees }
  Step-IsRecorded {s} (try none now r) events k = tried-IsRecorded sha256 now r events s.verifier k
  Step-IsRecorded {s} (try (some e) now r) events k = k

  Reach-IsRecorded : {s : System} (r : Reach sha256 s) → IsRecorded sha256 (history r) s.verifier
  unfolding history remembered lookup
  Reach-IsRecorded start = record { unique = tt; agrees = λ k. inl refl }
  Reach-IsRecorded (next r step) = Step-IsRecorded step (history r) (Reach-IsRecorded r)

  -- What is remembered opens: it has not expired, and has the digest of the submitted code.
  abbrev pub Opens : Time → ChallengeRequest → Option Challenge → Type 0
  Opens now q o =
      (c : Challenge) × (o ≡ some c)
      × (now < c.expires)
      × (c.digest ≡ mailpit_digest sha256 c.salt q.challenge)

  Fits-Opens :
      (now : Time) (q : ChallengeRequest) (events : List Event) (wanted found : Option Challenge)
      → All (IsPast now) events
      → Fits sha256 events wanted found
      → Opens now q found ↔ Opens now q wanted
  Fits-Opens now q events wanted found past (inl e) = (
    λ (c, f, live, same). (c, sym e ∙ f, live, same),
    λ (c, f, live, same). (c, e ∙ f, live, same),
  )
  Fits-Opens now q events wanted found past (inr (n, d, e, late)) = (
    λ (c, f, live, same). absurd (cc (n, f)),
    λ (c, f, live, same).
        let is : d ≡ c = cc (e, f) in
        absurd
          (omega (arith, live, Reached-le now d.expires events past late, ap (λ c. c.expires) is)),
  )

  -- In every state that any interleaving of `SendOTP` and `Verify` reaches, if the purges of `SendOTP`
  -- before read no later time than the one at hand, then a `Verify` at that time succeeds exactly when
  -- the code that is remembered of the history for its key is the submitted one and has not expired:
  -- the last code that was stored under the key, unless an attempt since then has matched, came too
  -- late, or was the fifth.
  pub verify-history :
      {s : System} (r : Reach sha256 s) (now : Time) (q : ChallengeRequest)
      → All (IsPast now) (history r)
      → ((verify sha256 none now q s.verifier).1 ≡ ok tt)
        ↔ Opens now q (remembered sha256 (history r) (challenge_key q))
  verify-history {s} r now q past =
      let accept = verify-eq-ok_iff sha256 now q s.verifier in
      let fits =
        Fits-Opens now q (history r) _ (lookup (challenge_key q) s.verifier.pending) past
          ((Reach-IsRecorded r).agrees (challenge_key q)) in
      (λ h. fits.0 (accept.0 h), λ h. accept.1 (fits.1 h))

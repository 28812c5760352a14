-- ===== src/Mailpit/Verify.antt =====
-- What `Verify` accepts, and what it does to the pending challenges.
use esignet_relay_authentica.Prelude.{
  ◌+◌, ◌<◌, ◌≡◌, refl, ◌≢◌, ◌↔◌, ◌∙◌, ◌||◌, Option, none, some, arith, ltb, leb, if◌then◌else◌,
  ◌==◌, ==_iff, lookup, lookup-insert, lookup-erase,
}
use esignet_relay_authentica.Text.{Text, text_eq}
use esignet_relay_authentica.Types.{Time, ChallengeRequest, Error, challenge_failed, ok, err}
use esignet_relay_authentica.Mailpit.Defs.{
  MailpitKey, key_eq, Challenge, Verifier, challenge_key, mailpit_digest, verify, check,
  mailpit_max_attempts,
}

module _ (sha256 : Text → Text) where
  -- The pending entry under exactly the request's key, unexpired, of the same digest.
  abbrev pub Accepts : Time → ChallengeRequest → Verifier → Type 0
  Accepts now r v =
      (c : Challenge) × (lookup (challenge_key r) v.pending ≡ some c)
      × (now < c.expires)
      × (c.digest ≡ mailpit_digest sha256 c.salt r.challenge)

  check_iff :
      (now : Time) (r : ChallengeRequest) (v : Verifier) (o : Option Challenge)
      → ((check sha256 now r v o).1 ≡ ok tt) ↔ (
          (c : Challenge) × (o ≡ some c)
          × (now < c.expires)
          × (c.digest ≡ mailpit_digest sha256 c.salt r.challenge))
  unfolding verify
  check_iff now r v none = (λ h. cc, λ h. cc (h.1))
  check_iff now r v (some c) = (
    λ h. (
      c,
      refl,
      ground arith,
      ground (arith, ==_iff c.digest (mailpit_digest sha256 c.salt r.challenge)),
    ),
    λ h. ground (arith, ==_iff c.digest (mailpit_digest sha256 c.salt r.challenge), h.1, h.2, h.3),
  )

  -- `Verify` succeeds exactly when the challenge that is pending under the request's own
  -- identifier, type, relying party, client and transaction has not expired and has the digest of
  -- the submitted code.
  pub verify-eq-ok_iff :
      (now : Time) (r : ChallengeRequest) (v : Verifier)
      → ((verify sha256 none now r v).1 ≡ ok tt) ↔ Accepts now r v
  unfolding verify
  verify-eq-ok_iff now r v = check_iff now r v (lookup (challenge_key r) v.pending)

  -- A context that has ended is reported, and nothing else happens.
  pub verify_canceled :
      (e : Error) (now : Time) (r : ChallengeRequest) (v : Verifier)
      → verify sha256 (some e) now r v ≡ (v, err e)
  unfolding verify
  verify_canceled e now r v = refl

  -- What becomes of the challenge that was pending under the request's key.
  abbrev pub next_challenge : Time → ChallengeRequest → Option Challenge → Option Challenge
  next_challenge now r none = none
  next_challenge now r (some c) =
      if ltb now c.expires
      then (if c.digest == mailpit_digest sha256 c.salt r.challenge
            || leb mailpit_max_attempts (c.attempts + 1)
          then none
          else some (record c { attempts = c.attempts + 1 }))
      else none

  check_own :
      (now : Time) (r : ChallengeRequest) (v : Verifier) (o : Option Challenge)
      → lookup (challenge_key r) (check sha256 now r v o).0.pending ≡ next_challenge now r o
  unfolding verify
  check_own now r v none = ground (
    arith,
    lookup-erase (challenge_key r) (challenge_key r) v.pending,
    ==_iff (challenge_key r) (challenge_key r),
  )
  check_own now r v (some c) = ground (
    arith,
    lookup-erase (challenge_key r) (challenge_key r) v.pending,
    lookup-insert (challenge_key r) (challenge_key r) (record c { attempts = c.attempts + 1 })
        v.pending,
    ==_iff (challenge_key r) (challenge_key r),
  )

  -- The entry of the request's own key after `Verify`, on every branch.
  pub verify_own :
      (now : Time) (r : ChallengeRequest) (v : Verifier)
      → lookup (challenge_key r) (verify sha256 none now r v).0.pending
        ≡ next_challenge now r (lookup (challenge_key r) v.pending)
  unfolding verify
  verify_own now r v = check_own now r v (lookup (challenge_key r) v.pending)

  check_others :
      (now : Time) (r : ChallengeRequest) (v : Verifier) (o : Option Challenge) (k : MailpitKey)
      → challenge_key r ≢ k
      → lookup k (check sha256 now r v o).0.pending ≡ lookup k v.pending
  unfolding verify
  check_others now r v none k h =
      ground (arith, lookup-erase (challenge_key r) k v.pending, ==_iff (challenge_key r) k)
  check_others now r v (some c) k h = ground (
    arith,
    lookup-erase (challenge_key r) k v.pending,
    lookup-insert (challenge_key r) k (record c { attempts = c.attempts + 1 }) v.pending,
    ==_iff (challenge_key r) k,
  )

  -- The entries of other keys are untouched, whatever the outcome.
  pub verify_others :
      (canceled : Option Error) (now : Time) (r : ChallengeRequest) (v : Verifier) (k : MailpitKey)
      → challenge_key r ≢ k
      → lookup k (verify sha256 canceled now r v).0.pending ≡ lookup k v.pending
  unfolding verify
  verify_others (some e) now r v k h = refl
  verify_others none now r v k h = check_others now r v (lookup (challenge_key r) v.pending) k h

  pub verify_unknown :
      (now : Time) (r : ChallengeRequest) (v : Verifier)
      → lookup (challenge_key r) v.pending ≡ none
      → (verify sha256 none now r v).1 ≡ err challenge_failed
  unfolding verify
  verify_unknown now r v e = rw (e, verify)

  verify_spends :
      (now : Time) (r : ChallengeRequest) (v : Verifier)
      → (verify sha256 none now r v).1 ≡ ok tt
      → lookup (challenge_key r) (verify sha256 none now r v).0.pending ≡ none
  verify_spends now r v h =
      let (c, e, live, same) = (verify-eq-ok_iff now r v).0 h in
      verify_own now r v
      ∙ ground (arith, ==_iff c.digest (mailpit_digest sha256 c.salt r.challenge))

  -- A code is good once: after a success no challenge is pending under the key, so that a later
  -- `Verify` of the same key, with whatever code, fails.
  pub verify_once :
      (now later : Time) (r s : ChallengeRequest) (v : Verifier)
      → (verify sha256 none now r v).1 ≡ ok tt
      → challenge_key s ≡ challenge_key r
      → (verify sha256 none later s (verify sha256 none now r v).0).1 ≡ err challenge_failed
  verify_once now later r s v h k =
      verify_unknown later s (verify sha256 none now r v).0 (rw k (verify_spends now r v h))

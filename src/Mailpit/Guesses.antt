-- ===== src/Mailpit/Guesses.antt =====
-- How many guesses a pending challenge stands.
use esignet_relay_authentica.Prelude.{
  ℕ, suc, ◌-◌, ◌≤◌, ◌≡◌, refl, ap, inl, inr, Bool-cases, ◌==◌, ==_iff, if◌then◌else◌, Option, none,
  some, List, [], ◌∷◌, arith, lookup,
}
use esignet_relay_authentica.Text.{Text, text_eq}
use esignet_relay_authentica.Types.{Error, Time, ChallengeRequest, challenge_failed, err}
use esignet_relay_authentica.Mailpit.Defs.{
  MailpitKey, key_eq, Challenge, Verifier, challenge_key, verify, mailpit_max_attempts,
}
use esignet_relay_authentica.Mailpit.Verify.{
  verify_own, verify_others, next_challenge, verify_unknown,
}

-- The calls of `Verify` after which nothing is pending under a key.
abbrev pub guesses_left : Option Challenge → ℕ
guesses_left none = 0
guesses_left (some c) = suc (mailpit_max_attempts - 1 - c.attempts)

module _ (sha256 : Text → Text) where
  -- Calls of `Verify`, one after the other, each under its context and at its time.
  pub verify_all : List (Option Error × Time × ChallengeRequest) → Verifier → Verifier
  verify_all [] v = v
  verify_all ((ended, now, r) ∷ rs) v = verify_all rs (verify sha256 ended now r v).0

  -- The guesses for a key among them: the calls for it under a context that has not ended.
  unfoldable pub guesses : MailpitKey → List (Option Error × Time × ChallengeRequest) → ℕ
  guesses k [] = 0
  guesses k ((some e, now, r) ∷ rs) = guesses k rs
  guesses k ((none, now, r) ∷ rs) =
      if challenge_key r == k then suc (guesses k rs) else guesses k rs

  next_challenge-left :
      (now : Time) (r : ChallengeRequest) (o : Option Challenge)
      → guesses_left (next_challenge sha256 now r o) ≤ guesses_left o - 1
  next_challenge-left now r none = omega arith
  next_challenge-left now r (some c) = ground arith

  verify-left :
      (k : MailpitKey) (ended : Option Error) (now : Time) (r : ChallengeRequest)
      (rs : List (Option Error × Time × ChallengeRequest)) (v : Verifier)
      → guesses_left (lookup k (verify sha256 ended now r v).0.pending) - guesses k rs
        ≤ guesses_left (lookup k v.pending) - guesses k ((ended, now, r) ∷ rs)
  unfolding guesses verify
  verify-left k (some e) now r rs v = omega arith
  verify-left k none now r rs v = elim (Bool-cases (challenge_key r == k)) [
    | inl same ↦
        let e : challenge_key r ≡ k = (==_iff (challenge_key r) k).0 same in
        let own : guesses_left (lookup k (verify sha256 none now r v).0.pending)
            ≡ guesses_left (next_challenge sha256 now r (lookup k v.pending)) =
          ap guesses_left (rw (← e) (verify_own sha256 now r v)) in
        rw same (omega (arith, own, next_challenge-left now r (lookup k v.pending)))
    | inr differ ↦
        let kept = ap guesses_left (
          verify_others sha256 none now r v k
            (λ z. cc ((==_iff (challenge_key r) k).1 z, differ))) in
        rw differ (omega (arith, kept))
  ]

  -- As `next_challenge-left`, along calls of any keys.
  verify_all-left :
      (k : MailpitKey) (rs : List (Option Error × Time × ChallengeRequest)) (v : Verifier)
      → guesses_left (lookup k (verify_all rs v).pending)
        ≤ guesses_left (lookup k v.pending) - guesses k rs
  unfolding verify_all guesses
  verify_all-left k [] v = omega arith
  verify_all-left k ((ended, now, r) ∷ rs) v =
      omega (
        arith,
        verify_all-left k rs (verify sha256 ended now r v).0,
        verify-left k ended now r rs v,
      )

  left-zero : (o : Option Challenge) → guesses_left o ≤ 0 → o ≡ none
  left-zero none h = refl
  left-zero (some c) h = absurd (omega arith)

  -- Brute force: after `mailpit_max_attempts` calls of `Verify` for one key under contexts that had not
  -- ended, whatever codes and times they came with, and with any calls for other keys or under ended
  -- contexts among them, every further call for the key fails, also with the right code.
  pub five_guesses :
      (k : MailpitKey) (rs : List (Option Error × Time × ChallengeRequest)) (now : Time)
      (r : ChallengeRequest) (v : Verifier)
      → mailpit_max_attempts ≤ guesses k rs
      → challenge_key r ≡ k
      → (verify sha256 none now r (verify_all rs v)).1 ≡ err challenge_failed
  five_guesses k rs now r v many e = verify_unknown sha256 now r (verify_all rs v) (
      rw e (
        left-zero _ (omega (arith, many, verify_all-left k rs v, left_bound (lookup k v.pending)))))
    where
      left_bound : (o : Option Challenge) → guesses_left o ≤ mailpit_max_attempts
      left_bound none = omega arith
      left_bound (some c) = omega arith

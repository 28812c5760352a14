-- ===== src/Mailpit/Send.antt =====
-- What `SendOTP` leaves behind on each branch, and the round trip with `Verify`.
use esignet_relay_authentica.Prelude.{
  ℕ, ◌+◌, ◌<◌, ◌≡◌, refl, ◌↔◌, inl, inr, true, none, some, arith, ==_iff, lookup, insert,
  lookup-insert, Option-cases,
}
use esignet_relay_authentica.Text.{Text, text_eq}
use esignet_relay_authentica.Types.{Time, ChallengeRequest, OtpRequest, ok}
use esignet_relay_authentica.Mailpit.Defs.{
  key_eq, Verifier, challenge_key, otp_key, mailpit_digest, verify, send_otp, Delivery, issue,
  reserve, purge, format_code, mailpit_challenge_ttl, acceptable,
}
use esignet_relay_authentica.Mailpit.Verify.{verify-eq-ok_iff, Accepts}

module _ (sha256 : Text → Text) where
  -- Every branch of `SendOTP` gives back the place that it took.
  pub in_flight-send_otp :
      (d : Delivery) (r : OtpRequest) (v : Verifier)
      → (send_otp sha256 d r v).0.in_flight ≡ v.in_flight
  unfolding send_otp reserve
  in_flight-send_otp d r v = ground arith

  -- What a successful call has checked, drawn and stored.
  pub record Sent (d : Delivery) (r : OtpRequest) (v : Verifier) : Type 0 where
    pub number : ℕ
    pub salt : Text
    pub drawn : d.number ≡ some number
    pub salted : d.salt ≡ some salt
    pub mailed : d.deliver (format_code number) ≡ none
    pub accepted : acceptable r ≡ true
    pub stored :
        (send_otp sha256 d r v).0.pending
        ≡ insert
            (otp_key r)
            (record {
              digest = mailpit_digest sha256 salt (format_code number);
              salt = salt;
              expires = d.issued + mailpit_challenge_ttl;
              attempts = 0;
            })
            (purge d.clock v.pending)

  pub send_otp-Sent :
      (d : Delivery) (r : OtpRequest) (v : Verifier)
      → (send_otp sha256 d r v).1 ≡ ok tt
      → Sent d r v
  unfolding send_otp reserve issue
  send_otp-Sent d r v h = elim (Option-cases d.number) [
    | inl none_drawn ↦ absurd (ground arith)
    | inr (n, drawn) ↦ elim (Option-cases d.salt) [
      | inl no_salt ↦ absurd (ground arith)
      | inr (salt, salted) ↦ record {
        number = n;
        salt = salt;
        drawn = drawn;
        salted = salted;
        mailed = ground arith;
        accepted = ground arith;
        stored = ground arith;
      }
    ]
  ]

  lookup-Sent :
      (d : Delivery) (r : OtpRequest) (v : Verifier) (s : Sent d r v)
      → lookup (otp_key r) (send_otp sha256 d r v).0.pending
        ≡ some (record {
          digest = mailpit_digest sha256 s.salt (format_code s.number);
          salt = s.salt;
          expires = d.issued + mailpit_challenge_ttl;
          attempts = 0;
        })
  lookup-Sent d r v s = rw s.stored (
      ground (
        arith,
        lookup-insert (otp_key r) (otp_key r)
            (record {
              digest = mailpit_digest sha256 s.salt (format_code s.number);
              salt = s.salt;
              expires = d.issued + mailpit_challenge_ttl;
              attempts = 0;
            })
            (purge d.clock v.pending),
        ==_iff (otp_key r) (otp_key r),
      ))

  drawn_is :
      (d : Delivery) (r : OtpRequest) (v : Verifier) (n : ℕ) (s : Sent d r v)
      → d.number ≡ some n
      → s.number ≡ n
  drawn_is d r v n s e = cc (s.drawn)

  -- After a successful `SendOTP` that drew `n`, a `Verify` under the same key that submits the six
  -- digits of `n` succeeds exactly before five minutes have passed since the time of issue, whatever
  -- code was pending before.
  pub send-verify :
      (d : Delivery) (r : OtpRequest) (v : Verifier) (now : Time) (c : ChallengeRequest) (n : ℕ)
      → (send_otp sha256 d r v).1 ≡ ok tt
      → challenge_key c ≡ otp_key r
      → d.number ≡ some n
      → c.challenge ≡ format_code n
      → ((verify sha256 none now c (send_otp sha256 d r v).0).1 ≡ ok tt)
        ↔ (now < d.issued + mailpit_challenge_ttl)
  send-verify d r v now c n sent same drawn code = (
    λ h. let (e, is, live, _) = accept.0 h in ground (arith, found),
    λ h. accept.1 (_, found, h, rw (code, ← drawn_is d r v n s drawn) refl),
  )
    where
      s : Sent d r v
      s = send_otp-Sent d r v sent

      accept :
          ((verify sha256 none now c (send_otp sha256 d r v).0).1 ≡ ok tt)
          ↔ Accepts sha256 now c (send_otp sha256 d r v).0
      accept = verify-eq-ok_iff sha256 now c (send_otp sha256 d r v).0

      found :
          lookup (challenge_key c) (send_otp sha256 d r v).0.pending
          ≡ some (record {
            digest = mailpit_digest sha256 s.salt (format_code s.number);
            salt = s.salt;
            expires = d.issued + mailpit_challenge_ttl;
            attempts = 0;
          })
      found = rw same (lookup-Sent d r v s)

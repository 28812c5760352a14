-- ===== src/Mailpit/Mailed.antt =====
-- `SendOTP` with the dialogue of `deliver` inside.
use esignet_relay_authentica.Prelude.{ℕ, ◌+◌, ◌<◌, ◌≡◌, ◌↔◌, Option, none, All}
use esignet_relay_authentica.Text.{Text}
use esignet_relay_authentica.Types.{Time, Error, ChallengeRequest, OtpRequest, ok}
use esignet_relay_authentica.Config.{MailpitConfig}
use esignet_relay_authentica.Mailpit.Defs.{
  Verifier, challenge_key, otp_key, verify, send_otp, Delivery, format_code, mailpit_challenge_ttl,
}
use esignet_relay_authentica.Mailpit.Send.{send_otp-Sent, send-verify}
use esignet_relay_authentica.Mailpit.Deliver.{Server, deliver}
use esignet_relay_authentica.Mailpit.Delivered.{script, deliver-eq-none_iff}

-- A call whose mail goes to a server; `canceled` is the context's error when `deliver` ends.
unfoldable pub through : Server → MailpitConfig → Option Error → Delivery → Delivery
through server c canceled d = record d { deliver = λ code. (deliver server c canceled code).0 }

-- One code was mailed, every command of its delivery acknowledged, and it is the one that opens.
pub record IsMailed (sha256 : Text → Text) (server : Server) (c : MailpitConfig) (d : Delivery)
    (r : OtpRequest) (after : Verifier) : Type 0 where
  pub number : ℕ
  pub acknowledged : All (λ command. server command ≡ none) (script c (format_code number))
  pub opens :
      (now : Time) (a : ChallengeRequest)
      → challenge_key a ≡ otp_key r
      → a.challenge ≡ format_code number
      → ((verify sha256 none now a after).1 ≡ ok tt) ↔ (now < d.issued + mailpit_challenge_ttl)

-- After a `SendOTP` that succeeds, the mail server has acknowledged every command of the delivery of
-- one six-digit code, and a `Verify` under the request's key with that code succeeds exactly
-- before five minutes have passed since the time of issue.
pub send_otp-IsMailed :
    (sha256 : Text → Text) (server : Server) (c : MailpitConfig) (canceled : Option Error)
    (d : Delivery) (r : OtpRequest) (v : Verifier)
    → (send_otp sha256 (through server c canceled d) r v).1 ≡ ok tt
    → IsMailed sha256 server c d r (send_otp sha256 (through server c canceled d) r v).0
unfolding through
send_otp-IsMailed sha256 server c canceled d r v h =
    let over = through server c canceled d in
    let s = send_otp-Sent sha256 over r v h in
    record {
      number = s.number;
      acknowledged = ((deliver-eq-none_iff server c canceled (format_code s.number)).0 s.mailed).2;
      opens = λ now a same code. send-verify sha256 over r v now a s.number h same s.drawn code;
    }

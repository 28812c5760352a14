-- ===== src/Provider/Startup/Completed.antt =====
-- From a mailed code to the login: SendOTP of a provider with the mailing verifier, and the
-- Authenticate that submits the code.
use esignet_relay_authentica.Prelude.{
  ℕ, ◌+◌, ◌/◌, ◌%◌, ◌<◌, ◌≡◌, refl, sym, ap, ◌∙◌, true, false, none, some, List, arith,
}
use esignet_relay_authentica.Text.{Text, blank-visible}
use esignet_relay_authentica.Types.{
  Time, unix, ChallengeRequest, OtpRequest, ok, valid_text, valid_text,
}
use esignet_relay_authentica.Json.{Value}
use esignet_relay_authentica.Config.{MailpitConfig}
use esignet_relay_authentica.Mailpit.{
  through, challenge_key, otp_key, format_code, mailpit_challenge_ttl, send-verify,
}
use esignet_relay_authentica.Provider.Runtime.{Env, World, after_require, after_is_done}
use esignet_relay_authentica.Provider.Psut.{psut}
use esignet_relay_authentica.Provider.Context.{context_map}
use esignet_relay_authentica.Provider.Restore.{opened}
use esignet_relay_authentica.Provider.Lookup.{registry_lookup}
use esignet_relay_authentica.Provider.Identity.{
  valid_request, valid_otp_request, account_ok, send_otp, authenticate,
}
use esignet_relay_authentica.Provider.Granted.{authenticate_grants}
use esignet_relay_authentica.Provider.Startup.Defs.{mailpit, Provider}
use esignet_relay_authentica.Provider.Startup.Vouched.{
  Scene, mailed, notified, verified, error_of, error_of-none, running,
}
use esignet_relay_authentica.Provider.Startup.Notified.{sent_none}

-- The request for the code is followed by one that submits it: for the same person and binding, with
-- the code that was drawn, while it lasts and with the challenges as SendOTP left them.
pub record IsFollowed {V : Type 0} (scene later : Scene V) (m : MailpitConfig) (o : OtpRequest)
    (r : ChallengeRequest) : Type 0 where
  pub number : ℕ
  pub drawn : scene.delivery.number ≡ some number
  pub submitted : r.challenge ≡ format_code number
  pub same_key : challenge_key r ≡ otp_key o
  pub same_digest : later.sha256 ≡ scene.sha256
  pub untouched : later.challenges ≡ (mailed scene m o).0
  pub not_canceled : later.canceled ≡ none
  pub in_time : later.moment < scene.delivery.issued + mailpit_challenge_ttl

format_code-valid_text : (n : ℕ) → valid_text (format_code n) ≡ true
unfolding valid_text format_code
format_code-valid_text n =
    let digit : b'0' + (n / 100000) % 10 < 58 = omega arith in
    rw (blank-visible (b'0' + (n / 100000) % 10) _ (omega arith) (omega (arith, digit))) refl

module _ {V : Type 0} (scene later : Scene V) (m : MailpitConfig) where
  mailed-verified :
      (timeout : Time) (o : OtpRequest) (r : ChallengeRequest)
      → IsFollowed scene later m o r
      → (mailed scene m o).1 ≡ ok tt
      → verified later (mailpit m timeout) r ≡ none
  unfolding verified through
  mailed-verified timeout o r f sent =
      let over = through scene.server m scene.late scene.delivery in
      let drawn : over.number ≡ some f.number = f.drawn in
      let opens =
        (send-verify scene.sha256 over o scene.challenges later.moment r f.number sent f.same_key
            drawn f.submitted).1
          f.in_time in
      rw (f.not_canceled, f.same_digest, f.untouched) (ap error_of opens)

  sent_mailed :
      (p : Provider V) (env : Env) (timeout : Time) (o : OtpRequest) (w sent : World)
      → p.verifier ≡ mailpit m timeout
      → send_otp (running scene p env) p.config p.secret o w ≡ (ok tt, sent)
      → (valid_otp_request p.config o ≡ true) × ((mailed scene m o).1 ≡ ok tt)
  unfolding running send_otp
  sent_mailed p env timeout o w sent mails h = after_require _ _ _ _ h (λ valid h1.
      let h2 = after_is_done (running scene p env) _ _ h1 in
      let none_left =
        sent_none scene (notified scene p.verifier o) (env.ended w.looks)
          (record w { looks = w.looks + 1 }) sent h2 in
      (
        valid,
        error_of-none (mailed scene m o).1 (ap (λ v. notified scene v o) (sym mails) ∙ none_left),
      ))

  followed-valid :
      (p : Provider V) (o : OtpRequest) (r : ChallengeRequest)
      → IsFollowed scene later m o r
      → valid_otp_request p.config o ≡ true
      → valid_request p.config r ≡ true
  unfolding valid_otp_request valid_request
  followed-valid p o r f valid =
      let id : r.identifier ≡ o.identifier = ap (λ k. k.identifier) (f.same_key) in
      let kind : r.identifier_type ≡ o.identifier_type = ap (λ k. k.identifier_type) (f.same_key) in
      let binding : r.binding ≡ o.binding = ap (λ k. k.binding) (f.same_key) in
      let code : valid_text r.challenge ≡ true =
        ap valid_text (f.submitted) ∙ format_code-valid_text f.number in
      rw (id, kind, binding, code) (ground (arith, valid))

  -- If SendOTP of a provider with the mailing verifier succeeded, then the Authenticate that follows for
  -- the same identifier and binding with the code that was drawn, within five minutes and with the
  -- pending challenges as SendOTP left them, grants the login, provided that its contexts last and the
  -- registry answers for the identifier with an account that passes.
  pub authenticate-send_otp :
      (p : Provider V) (env next : Env) (timeout : Time) (o : OtpRequest) (r : ChallengeRequest)
      (w sent v mid : World) (fields : List (Text × Value))
      → p.verifier ≡ mailpit m timeout
      → send_otp (running scene p env) p.config p.secret o w ≡ (ok tt, sent)
      → IsFollowed scene later m o r
      → next.ended v.looks ≡ false
      → next.ended (v.looks + 1) ≡ false
      → registry_lookup
          (running later p next)
          p.config
          r.identifier
          p.config.breg.account_check_fields
          (record v { looks = v.looks + 1 + 1 })
        ≡ (ok fields, mid)
      → account_ok p.config r.identifier fields ≡ true
      → authenticate (running later p next) p.config p.secret r v ≡ (
        ok (record {
          subject =
              psut next.hmac p.secret
                (opened (unix (next.clock mid.looks)) r.identifier r.identifier_type r.binding);
          context =
              context_map
                (opened (unix (next.clock mid.looks)) r.identifier r.identifier_type r.binding);
        }),
        record mid { looks = mid.looks + 1 },
      )
  unfolding running
  authenticate-send_otp p env next timeout o r w sent v mid fields mails sends f live lasting
        answered passed =
      let (valid, mailed_ok) = sent_mailed p env timeout o w sent mails sends in
      authenticate_grants (running later p next) p.config p.secret r v mid fields
        (followed-valid p o r f valid) live lasting
        (ap (λ v. verified later v r) mails ∙ mailed-verified timeout o r f mailed_ok) answered
        passed

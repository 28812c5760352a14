-- ===== src/Mailpit/Tests.antt =====
-- Runs of the verifier, and the theorems of the component at concrete inputs. The digest is the
-- salted code itself.
use esignet_relay_authentica.Prelude.{
  true, false, inl, inr, Option, some, List, In, All, ◌+◌, ◌≤◌, ◌≡◌, refl, ◌↔◌, none, [], ◌∷◌,
  arith, length, lookup, insert, erase,
}
use esignet_relay_authentica.Text.{Text, txt, split_on, pieces_from, text_eq, text_beq, blank}
use esignet_relay_authentica.Types.{
  Error, other, Time, Binding, binding_beq, ChallengeRequest, OtpRequest, challenge_failed,
  invalid_request, unavailable, canceled, ok, err, valid_text, valid_binding,
}
use esignet_relay_authentica.Mailpit.Defs.{
  MailpitKey, key_eq, key_beq, Verifier, new_mailpit_verifier, challenge_key, mailpit_digest,
  verify, mailpit_max_attempts, send_otp, Delivery, issue, reserve, purge, format_code, acceptable,
}
use esignet_relay_authentica.Mailpit.Guesses.{verify_all, guesses, five_guesses}
use esignet_relay_authentica.Config.{MailpitConfig, valid_mail_address, count}
use esignet_relay_authentica.Mailpit.Deliver.{
  connect, greet, mail_from, rcpt_to, data_begin, write, hang_up, Server, has_line_end, message,
  talk, deliver,
}
use esignet_relay_authentica.Mailpit.Delivered.{script, deliver-eq-none_iff, deliver-discloses}
use esignet_relay_authentica.Mailpit.Mailed.{through, IsMailed, send_otp-IsMailed}
use esignet_relay_authentica.Mailpit.Message.{mail_lines, split_on-message}
use esignet_relay_authentica.Mailpit.Interleaving.{
  System, idle_system, Reach, start, next, begin, reachable_bounds, Untired,
}

abbrev post : MailpitConfig
post = record {
  enabled = true;
  smtp_address = txt "h:1025";
  sender = txt "a@b";
  recipient = txt "c@d";
}

abbrev friendly : Server
friendly command = none

abbrev no_recipient : Server
no_recipient (rcpt_to s) = some other
no_recipient command = none

abbrev pub plain : Text → Text
plain s = s

abbrev here : Binding
here = record { relying_party_id = txt "rp"; client_id = txt "c"; transaction_id = txt "t" }

abbrev ask : OtpRequest
ask = record {
  identifier = txt "7";
  identifier_type = txt "uin";
  binding = here;
  channels = txt "email" ∷ [];
}

abbrev calm : Delivery
calm = record {
  canceled = none;
  clock = λ _. 0;
  number = some 42;
  salt = some (txt "s");
  issued = 0;
  deliver = λ _. none;
  canceled_after = none;
}

abbrev pub try_code : Text → ChallengeRequest
try_code code = record {
  identifier = txt "7";
  identifier_type = txt "uin";
  challenge = code;
  binding = here;
}

mailpit : Unit {0}
unfolding send_otp verify issue reserve purge format_code acceptable mailpit_digest lookup insert
    erase key_beq binding_beq text_beq valid_binding valid_text blank
mailpit = tt

after_send : Verifier
unfolding mailpit
after_send = (send_otp plain calm ask new_mailpit_verifier).0

send_tests :
    ((send_otp plain calm ask new_mailpit_verifier).1 ≡ ok tt)
    × ((send_otp plain (record calm { deliver = λ _. some canceled }) ask new_mailpit_verifier).1
        ≡ err unavailable)
    × ((send_otp plain calm (record ask { channels = [] }) new_mailpit_verifier).1
        ≡ err invalid_request)
unfolding mailpit
send_tests = (refl, refl, refl)

verify_tests :
    ((verify plain none 5 (try_code (txt "000042")) after_send).1 ≡ ok tt)
    × ((verify plain none 5 (try_code (txt "000043")) after_send).1 ≡ err challenge_failed)
unfolding mailpit after_send
verify_tests = (refl, refl)

other_key : MailpitKey
other_key = record { identifier = []; identifier_type = txt "uin"; binding = here }

abbrev wrong : Option Error × Time × ChallengeRequest
wrong = (none, 5, try_code (txt "000043"))

-- Five guesses, with a call for another key and one under an ended context among them.
abbrev guessed : List (Option Error × Time × ChallengeRequest)
guessed =
    wrong
    ∷ wrong
    ∷ (none, 5, record (try_code (txt "000042")) { identifier = [] })
    ∷ wrong
    ∷ (some canceled, 5, try_code (txt "000042"))
    ∷ wrong
    ∷ wrong
    ∷ []

five_guessed :
    mailpit_max_attempts ≤ guesses plain (challenge_key (try_code (txt "000042"))) guessed
unfolding guesses mailpit
five_guessed = omega arith

five_guesses_example :
    (verify plain none 6 (try_code (txt "000042")) (verify_all plain guessed after_send)).1
    ≡ err challenge_failed
five_guesses_example =
    five_guesses plain (challenge_key (try_code (txt "000042"))) guessed 6 (try_code (txt "000042"))
      after_send five_guessed refl

one_waiting : System
unfolding mailpit
one_waiting = record idle_system {
  verifier = (reserve (λ _. 0) new_mailpit_verifier).0;
  reserved = 1;
}

one_waiting-Reach : Reach plain one_waiting
unfolding mailpit one_waiting
one_waiting-Reach = next start (begin (λ _. 0) refl)

reachable_bounds_example :
    (length one_waiting.verifier.pending + one_waiting.reserved ≤ 1024)
    × (one_waiting.verifier.in_flight ≡ one_waiting.reserved + one_waiting.stored)
    × Untired one_waiting.verifier.pending
reachable_bounds_example = reachable_bounds plain one_waiting one_waiting-Reach

deliver_tests :
    ((deliver friendly post none (txt "000042")).0 ≡ none)
    × (deliver no_recipient post none (txt "000042") ≡ (
      some other,
      connect (txt "h:1025") ∷ greet ∷ mail_from (txt "a@b") ∷ rcpt_to (txt "c@d") ∷ hang_up ∷ [],
    ))
    × ((deliver friendly (record post { sender = b'\n' ∷ [] }) none (txt "1")).0 ≡ some other)
unfolding deliver talk
deliver_tests = (refl, refl, refl)

deliver-eq-none_iff_example : ((deliver friendly post none (txt "000042")).0 ≡ none) ↔ (
    (has_line_end post.sender ≡ false)
    × (has_line_end post.recipient ≡ false)
    × All (λ command. friendly command ≡ none) (script post (txt "000042"))
    × (◌≡◌ {A = Option Error} none none))
deliver-eq-none_iff_example = deliver-eq-none_iff friendly post none (txt "000042")

written_text : In (write (message post (txt "1"))) (deliver friendly post none (txt "1")).1
unfolding deliver talk
written_text = inr (inr (inr (inr (inr (inl refl)))))

deliver-discloses_example :
    (message post (txt "1") ≡ message post (txt "1"))
    × (friendly (mail_from post.sender) ≡ none)
    × (friendly (rcpt_to post.recipient) ≡ none)
    × (friendly data_begin ≡ none)
deliver-discloses_example =
    deliver-discloses friendly post none (txt "1") (message post (txt "1")) written_text

valid_post : (valid_mail_address post.sender ≡ true) × (valid_mail_address post.recipient ≡ true)
unfolding valid_mail_address count pieces_from split_on
valid_post = (refl, refl)

split_on-message_example :
    split_on b'\n' (message post (format_code 42)) ≡ mail_lines post (format_code 42)
split_on-message_example = split_on-message post 42 valid_post.0 valid_post.1

sent_through : (send_otp plain (through friendly post none calm) ask new_mailpit_verifier).1 ≡ ok tt
unfolding mailpit through deliver talk
sent_through = refl

send_otp-IsMailed_example :
    IsMailed plain friendly post calm ask
      (send_otp plain (through friendly post none calm) ask new_mailpit_verifier).0
send_otp-IsMailed_example =
    send_otp-IsMailed plain friendly post none calm ask new_mailpit_verifier sent_through

-- ===== src/Mailpit/Deliver.antt =====
-- `deliver`: the dialogue with the mail server, by the calls of `net/smtp`, and the mail itself. A
-- call is one command here, with what it exchanges inside (the first, `Mail`, also says hello).
use esignet_relay_authentica.Prelude.{
  Bool, ◌||◌, Option, none, some, List, [], ◌∷◌, ◌++◌, eqb, any, if◌then◌else◌,
}
use esignet_relay_authentica.Text.{Text, txt}
use esignet_relay_authentica.Types.{Error, other}
use esignet_relay_authentica.Config.{MailpitConfig}

pub data Command : Type 0 where
  connect : Text → Command
  greet : Command
  mail_from : Text → Command
  rcpt_to : Text → Command
  data_begin : Command
  write : Text → Command
  data_end : Command
  quit : Command
  hang_up : Command

-- What every command meets, none being an acknowledgment. Each one is sent at most once in a run.
abbrev pub Server : Type 0
Server = Command → Option Error

-- `client.Mail` and `client.Rcpt` refuse an argument with a line's end before they send anything.
abbrev pub has_line_end : Text → Bool
has_line_end s = any (λ b. eqb b b'\n' || eqb b b'\r') s

abbrev pub crlf : Text
crlf = b'\r' ∷ b'\n' ∷ []

unfoldable pub message : MailpitConfig → Text → Text
message c code =
    txt "From: "
    ++ (c.sender
        ++ (crlf
            ++ (txt "To: "
                ++ (c.recipient
                    ++ (crlf
                        ++ (txt "Subject: Synthetic eSignet code"
                            ++ (crlf
                                ++ (crlf
                                    ++ (txt "Your synthetic login code is "
                                        ++ (code ++ crlf))))))))))

abbrev pub Run : Type 0
Run = Option Error × List Command

abbrev pub said : Command → Run → Run
said c (result, commands) = (result, c ∷ commands)

module _ (server : Server) where
  abbrev pub step : Command → Run → Run
  step c rest = elim (server c) [ none ↦ said c rest | some e ↦ (some e, c ∷ []) ]

  abbrev pub addressed : Text → Command → Run → Run
  addressed address c rest = if has_line_end address then (some other, []) else step c rest

  -- A message that cannot be written is still ended.
  abbrev pub written : Text → Run → Run
  written text rest = elim (server (write text)) [
    | none ↦ said (write text) rest
    | some e ↦ (some e, write text ∷ data_end ∷ [])
  ]

  abbrev pub hung_up : Run → Run
  hung_up (result, commands) = (result, commands ++ hang_up ∷ [])

  -- From the greeting on; `canceled` is `ctx.Err()` at the end.
  unfoldable pub talk : MailpitConfig → Option Error → Text → Run
  unfolding message
  talk c canceled code = step greet (
      addressed c.sender (mail_from c.sender) (
        addressed c.recipient (rcpt_to c.recipient)
          (step data_begin (written (message c code) (step data_end (step quit (canceled, [])))))))

  unfoldable pub deliver : MailpitConfig → Option Error → Text → Run
  unfolding talk
  deliver c canceled code = elim (server (connect c.smtp_address)) [
    | none ↦ said (connect c.smtp_address) (hung_up (talk c canceled code))
    | some e ↦ (some e, connect c.smtp_address ∷ [])
  ]

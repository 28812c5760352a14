-- ===== src/Mailpit/Delivered.antt =====
-- What a delivery has said to the mail server, and what the mail looks like.
use esignet_relay_authentica.Prelude.{
  ◌≡◌, ◌↔◌, false, Option, none, List, [], ◌∷◌, ◌++◌, arith, All, In,
}
use esignet_relay_authentica.Text.{Text}
use esignet_relay_authentica.Types.{Error}
use esignet_relay_authentica.Config.{MailpitConfig}
use esignet_relay_authentica.Mailpit.Deliver.{
  Command, connect, greet, mail_from, rcpt_to, data_begin, write, data_end, quit, hang_up, Server,
  message, has_line_end, talk, deliver,
}

-- The calls of a delivery that goes well, up to hanging up.
pub script : MailpitConfig → Text → List Command
script c code =
    connect c.smtp_address
    ∷ greet
    ∷ mail_from c.sender
    ∷ rcpt_to c.recipient
    ∷ data_begin
    ∷ write (message c code)
    ∷ data_end
    ∷ quit
    ∷ []

-- `deliver` succeeds exactly if neither address has a line's end, the server acknowledges every
-- command of the script, and the context lasts to the end.
pub deliver-eq-none_iff :
    (server : Server) (c : MailpitConfig) (canceled : Option Error) (code : Text)
    → ((deliver server c canceled code).0 ≡ none) ↔ (
        (has_line_end c.sender ≡ false)
        × (has_line_end c.recipient ≡ false)
        × All (λ command. server command ≡ none) (script c code)
        × (canceled ≡ none))
unfolding deliver talk script
deliver-eq-none_iff server c canceled code = ground arith

-- A delivery that succeeds has said the whole script, and hung up.
pub deliver-commands :
    (server : Server) (c : MailpitConfig) (canceled : Option Error) (code : Text)
    → (deliver server c canceled code).0 ≡ none
    → (deliver server c canceled code).1 ≡ script c code ++ hang_up ∷ []
unfolding deliver talk script
deliver-commands server c canceled code h = ground arith

-- Whatever the server answers, a text is written only after the sender, the recipient and the start
-- of the data were acknowledged, and it is the mail with the code and no other.
pub deliver-discloses :
    (server : Server) (c : MailpitConfig) (canceled : Option Error) (code text : Text)
    → In (write text) (deliver server c canceled code).1
    → (text ≡ message c code)
      × (server (mail_from c.sender) ≡ none)
      × (server (rcpt_to c.recipient) ≡ none)
      × (server data_begin ≡ none)
unfolding deliver talk
deliver-discloses server c canceled code text h = ground arith

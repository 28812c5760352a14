-- ===== src/Mailpit/Message.antt =====
-- The mail as its reader takes it apart: no address can add a header or a line.
use esignet_relay_authentica.Prelude.{
  ℕ, ◌≡◌, refl, sym, ap, ◌∙◌, true, List, [], ◌∷◌, ◌++◌, arith, All, append_assoc, eqb, all, not,
}
use esignet_relay_authentica.Text.{Text, txt, split_on, join, Lacks, split_on-join}
use esignet_relay_authentica.Config.{
  MailpitConfig, valid_mail_address, IsMailByte, valid_mail_address_sound,
}
use esignet_relay_authentica.Mailpit.Defs.{format_code}
use esignet_relay_authentica.Mailpit.Deliver.{message}

-- A line with the carriage return that ends it.
abbrev line : Text → Text → Text
line label value = label ++ (value ++ b'\r' ∷ [])

pub mail_lines : MailpitConfig → Text → List Text
mail_lines c code =
    line (txt "From: ") c.sender
    ∷ line (txt "To: ") c.recipient
    ∷ line (txt "Subject: ") (txt "Synthetic eSignet code")
    ∷ line [] []
    ∷ line (txt "Your synthetic login code is ") code
    ∷ []
    ∷ []

Lacks-append : (c : ℕ) (s t : Text) → Lacks c s → Lacks c t → Lacks c (s ++ t)
Lacks-append c [] t h k = k
Lacks-append c (b ∷ s) t h k = (h.0, Lacks-append c s t h.1 k)

address-Lacks : (s : Text) → All IsMailByte s → Lacks b'\n' s
address-Lacks [] h = tt
address-Lacks (b ∷ s) h = (λ e. ground arith, address-Lacks s h.1)

join-message :
    (c : MailpitConfig) (code : Text) → join (b'\n' ∷ []) (mail_lines c code) ≡ message c code
unfolding message mail_lines join
join-message c code =
    rw
      (
        append_assoc c.sender (b'\r' ∷ []),
        append_assoc c.recipient (b'\r' ∷ []),
        append_assoc code (b'\r' ∷ []),
      )
      refl

unbroken : (s : Text) → all (λ b. not (eqb b b'\n')) s ≡ true → Lacks b'\n' s
unbroken [] h = tt
unbroken (b ∷ s) h = (λ e. ground arith, unbroken s (ground arith))

line-Lacks :
    (label value : Text)
    → all (λ b. not (eqb b b'\n')) label ≡ true
    → Lacks b'\n' value
    → Lacks b'\n' (line label value)
line-Lacks label value h k =
    Lacks-append b'\n' label (value ++ b'\r' ∷ []) (unbroken label h)
      (Lacks-append b'\n' value (b'\r' ∷ []) k (unbroken (b'\r' ∷ []) refl))

format_code-Lacks : (n : ℕ) → Lacks b'\n' (format_code n)
unfolding format_code
format_code-Lacks n = (
  λ e. omega arith,
  (
    λ e. omega arith,
    (λ e. omega arith, (λ e. omega arith, (λ e. omega arith, (λ e. omega arith, tt)))),
  ),
)

-- If validation accepts both addresses, the mail with a drawn code has, split at line feeds, exactly
-- the three headers, an empty line and the line with the code, and each ends in a carriage return.
pub split_on-message :
    (c : MailpitConfig) (n : ℕ)
    → valid_mail_address c.sender ≡ true
    → valid_mail_address c.recipient ≡ true
    → split_on b'\n' (message c (format_code n)) ≡ mail_lines c (format_code n)
unfolding mail_lines
split_on-message c n h k =
    let sender = address-Lacks c.sender (valid_mail_address_sound c.sender h).0 in
    let recipient = address-Lacks c.recipient (valid_mail_address_sound c.recipient k).0 in
    ap (split_on b'\n') (sym (join-message c (format_code n)))
    ∙ split_on-join b'\n' (line (txt "From: ") c.sender) _ (
      line-Lacks (txt "From: ") c.sender refl sender,
      (
        line-Lacks (txt "To: ") c.recipient refl recipient,
        (
          unbroken (line (txt "Subject: ") (txt "Synthetic eSignet code")) refl,
          (
            unbroken (line [] []) refl,
            (
              line-Lacks (txt "Your synthetic login code is ") (format_code n) refl
                  (format_code-Lacks n),
              (tt, tt),
            ),
          ),
        ),
      ),
    )

-- ===== src/Config/Addresses.antt =====
-- Mail addresses that go into SMTP commands and message headers.
use esignet_relay_authentica.Prelude.{
  ℕ, ◌≤◌, ◌≡◌, refl, ap, ◌≢◌, true, false, [], ◌∷◌, ◌++◌, eqb, all, any, All, arith, Bool-cases,
  inl, inr,
}
use esignet_relay_authentica.Text.{Text, all-runes, split_on, Lacks}
use esignet_relay_authentica.Config.Checks.{mail_forbidden, count, between, valid_mail_address}

-- A text that holds the separator once, taken apart there.
record Once (c : ℕ) (s : Text) : Type 0 where
  before : Text
  after : Text
  whole : s ≡ before ++ c ∷ after
  parts : split_on c s ≡ before ∷ after ∷ []
  lacks_before : Lacks c before
  lacks_after : Lacks c after

count-zero : (c : ℕ) (s : Text) → count c s ≡ 0 → (split_on c s ≡ s ∷ []) × Lacks c s
unfolding count split_on
count-zero c [] h = (refl, tt)
count-zero c (b ∷ s) h =
    let (one, lacks) = count-zero c s (ground arith) in (ground (arith, one), (ground arith, lacks))

count-one : (c : ℕ) (s : Text) → count c s ≡ 1 → Once c s
unfolding count split_on
count-one c [] h = absurd (omega arith)
count-one c (b ∷ s) h = elim (Bool-cases (eqb b c)) [
  | inl here ↦
      let (one, lacks) = count-zero c s (ground arith) in
      record {
        before = [];
        after = s;
        whole = ground arith;
        parts = ground (arith, one);
        lacks_before = tt;
        lacks_after = lacks;
      }
  | inr later ↦
      let o = count-one c s (ground arith) in
      record {
        before = b ∷ o.before;
        after = o.after;
        whole = ap (◌∷◌ b) o.whole;
        parts = ground (arith, o.parts);
        lacks_before = (ground arith, o.lacks_before);
        lacks_after = o.lacks_after;
      }
]

-- A byte that can stand in an address: printable, and no bracket.
abbrev pub IsMailByte : ℕ → Type 0
IsMailByte b = (33 ≤ b) × (b ≤ 126) × (b ≢ b'<') × (b ≢ b'>')

mail_bytes :
    (s : Text) → all (between 33 126) s ≡ true → any mail_forbidden s ≡ false → All IsMailByte s
mail_bytes [] h k = tt
mail_bytes (b ∷ s) h k = (
  (ground arith, ground arith, ground arith, ground arith),
  mail_bytes s (ground arith) (ground arith),
)

-- An address that validation accepts is a nonempty local part, one `@` and a nonempty domain, all of
-- printable ASCII without spaces and angle brackets; so it cannot break the line of a header or an
-- SMTP command that it stands in.
pub valid_mail_address_sound :
    (address : Text)
    → valid_mail_address address ≡ true
    → All IsMailByte address
      × ((local : Text) × (domain : Text) × (address ≡ local ++ b'@' ∷ domain)
          × (local ≢ [])
          × (domain ≢ [])
          × Lacks b'@' local
          × Lacks b'@' domain)
unfolding valid_mail_address
valid_mail_address_sound address h =
    let o = count-one b'@' address (ground arith) in
    let ascii = all-runes (between 33 126) address (λ b p. ground arith) in
    (
      mail_bytes address (ground (arith, ascii)) (ground arith),
      (
        o.before,
        o.after,
        o.whole,
        (λ e. ground (arith, o.parts)),
        (λ e. ground (arith, o.parts)),
        o.lacks_before,
        o.lacks_after,
      ),
    )

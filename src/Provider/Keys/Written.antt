-- ===== src/Provider/Keys/Written.antt =====
-- A key on P-256 that is written as a JWK in the usual way is loaded as just that key.
use esignet_relay_authentica.Prelude.{
  ℕ, zero, suc, ◌+◌, ◌*◌, ◌/◌, ◌%◌, ◌^◌, ◌≤◌, ◌<◌, ◌≡◌, refl, sym, ap, ◌∙◌, true, false, ◌||◌, none,
  some, [], ◌∷◌, ◌++◌, ltb, length, ◌==◌, ==_iff, arith, All, ◌⊎◌,
}
use esignet_relay_authentica.Text.{
  Text, txt, text_eq, text_beq, blank, is_empty, is_empty_iff, sanitize, sanitize_valid,
  sanitize_ascii, valid_utf8,
}
use esignet_relay_authentica.Json.{Value, str, obj, member, end}
use esignet_relay_authentica.Config.{read_bounded}
use esignet_relay_authentica.Provider.Base64.{encode, IsByte, IsUrlSafe, encode-IsUrlSafe}
use esignet_relay_authentica.Provider.Assertion.{ecdsa, fill_bytes, length-fill_bytes}
use esignet_relay_authentica.Provider.Keys.Numbers.{number, number_of, set_bytes, decode_raw-encode}
use esignet_relay_authentica.Provider.Keys.Defs.{
  EcKey, p256, ec_key, Crypto, Jwk, no_jwk, into_jwk, ec_numbers, on_the_curve, jwk_key, signing,
  usable, load_key,
}

set_bytes-append : (n : ℕ) (s : Text) (b : ℕ) → set_bytes n (s ++ b ∷ []) ≡ set_bytes n s * 256 + b
unfolding set_bytes
set_bytes-append n [] b = refl
set_bytes-append n (c ∷ s) b = set_bytes-append (n * 256 + c) s b

set_bytes-fill_bytes : (size n : ℕ) → n < 256 ^ size → set_bytes 0 (fill_bytes size n) ≡ n
unfolding fill_bytes set_bytes
set_bytes-fill_bytes zero n h = omega (arith, h)
set_bytes-fill_bytes (suc size) n h =
    let high = set_bytes-fill_bytes size (n / 256) (omega (arith, h)) in
    set_bytes-append 0 (fill_bytes size (n / 256)) (n % 256) ∙ omega (arith, high)

All-snoc : (s : Text) (b : ℕ) → All IsByte s → IsByte b → All IsByte (s ++ b ∷ [])
All-snoc [] b h k = (k, tt)
All-snoc (c ∷ s) b h k = (h.0, All-snoc s b h.1 k)

fill_bytes-IsByte : (size n : ℕ) → All IsByte (fill_bytes size n)
unfolding fill_bytes
fill_bytes-IsByte zero n = tt
fill_bytes-IsByte (suc size) n =
    All-snoc (fill_bytes size (n / 256)) (n % 256) (fill_bytes-IsByte size (n / 256)) (omega arith)

number_of-some : (s : Text) → 1 ≤ length s → number_of (some s) ≡ some (set_bytes 0 s)
number_of-some [] h = absurd (omega arith)
number_of-some (b ∷ s) h = refl

-- Numbers of 32 bytes are read back.
number-encode : (n : ℕ) → n < 256 ^ 32 → number (encode (fill_bytes 32 n)) ≡ some n
unfolding number
number-encode n h =
    ap number_of (decode_raw-encode (fill_bytes 32 n) (fill_bytes-IsByte 32 n))
    ∙ number_of-some (fill_bytes 32 n) (omega (arith, length-fill_bytes 32 n))
    ∙ ap some (set_bytes-fill_bytes 32 n h)

-- The members that describe a key with an id.
unfoldable pub ec_jwk : EcKey → Text → Jwk
ec_jwk k kid = record no_jwk {
  kty = txt "EC";
  alg = txt "ES256";
  use_for = txt "sig";
  kid = kid;
  crv = txt "P-256";
  x = encode (fill_bytes 32 k.x);
  y = encode (fill_bytes 32 k.y);
  d = encode (fill_bytes 32 k.d);
}

-- What makes a key one of P-256, and the curve one whose numbers have 32 bytes.
pub record IsEcKey (lib : Crypto) (k : EcKey) : Type 0 where
  pub curve : k.curve ≡ p256
  pub positive : 0 < k.d
  pub below : k.d < lib.order
  pub order : lib.order ≤ 256 ^ 32
  pub on : lib.on_curve k.x k.y ≡ true
  pub point : lib.scalar_base_mult k.d ≡ (k.x, k.y)
  pub x_fits : k.x < 256 ^ 32
  pub y_fits : k.y < 256 ^ 32

ec_numbers-ec_jwk :
    (lib : Crypto) (k : EcKey) (kid : Text) → IsEcKey lib k → ec_numbers (ec_jwk k kid) ≡ some k
unfolding ec_numbers ec_jwk
ec_numbers-ec_jwk lib k kid h =
    rw
      (
        number-encode k.x h.x_fits,
        number-encode k.y h.y_fits,
        number-encode k.d (omega (arith, h.below, h.order)),
      )
      (ap (λ curve. some (record k { curve = curve })) (sym h.curve))

on_the_curve-some :
    (lib : Crypto) (k : EcKey) → IsEcKey lib k → on_the_curve lib k ≡ some (ec_key k)
on_the_curve-some lib k h =
    let positive = h.positive in let below = h.below in let on = h.on in rw h.point (ground arith)

jwk_key-ec_jwk :
    (lib : Crypto) (k : EcKey) (kid : Text)
    → IsEcKey lib k
    → jwk_key lib (ec_jwk k kid) ≡ some (ec_key k)
unfolding jwk_key ec_jwk
jwk_key-ec_jwk lib k kid h = rw (ec_numbers-ec_jwk lib k kid h) (on_the_curve-some lib k h)

-- The object that is written, members in the usual order.
unfoldable pub ec_value : EcKey → Text → Value
ec_value k kid = obj (
    member (txt "kty") (str (txt "EC")) (
      member (txt "crv") (str (txt "P-256")) (
        member (txt "alg") (str (txt "ES256")) (
          member (txt "use") (str (txt "sig")) (
            member (txt "kid") (str kid) (
              member (txt "x") (str (encode (fill_bytes 32 k.x))) (
                member (txt "y") (str (encode (fill_bytes 32 k.y)))
                  (member (txt "d") (str (encode (fill_bytes 32 k.d))) end))))))))

low : (s : Text) → All IsUrlSafe s → All (λ b. b < 0x80) s
low [] h = tt
low (b ∷ s) h = (ground arith, low s h.1)

encoded_clean : (n : ℕ) → sanitize (encode (fill_bytes 32 n)) ≡ encode (fill_bytes 32 n)
encoded_clean n =
    let bytes = fill_bytes 32 n in
    sanitize_ascii (encode bytes)
      (low (encode bytes) (encode-IsUrlSafe bytes (fill_bytes-IsByte 32 n)))

into_jwk-ec_value :
    (k : EcKey) (kid : Text)
    → valid_utf8 kid ≡ true
    → into_jwk (ec_value k kid) ≡ some (ec_jwk k kid)
unfolding into_jwk ec_value ec_jwk sanitize
into_jwk-ec_value k kid h =
    rw (sanitize_valid kid h, encoded_clean k.x, encoded_clean k.y, encoded_clean k.d) refl

usable-ec_jwk :
    (k : EcKey) (kid asked : Text)
    → blank kid ≡ false
    → (asked ≡ []) ⊎ (asked ≡ kid)
    → usable asked (ec_jwk k kid) ≡ true
unfolding usable ec_jwk text_beq
usable-ec_jwk k kid asked h a =
    let agrees : (is_empty asked || asked == kid) ≡ true =
      ground (arith, is_empty_iff asked, ==_iff asked kid) in
    rw (h, agrees) refl

signing-ec_key :
    (lib : Crypto) (k : EcKey) (kid alg : Text)
    → IsEcKey lib k
    → blank kid ≡ false
    → signing lib kid alg (ec_key k)
      ≡ some (record { key = ecdsa (lib.sign_ecdsa k); kid = kid; alg = txt "ES256" })
unfolding signing
signing-ec_key lib k kid alg h named = rw (h.curve, named) refl

-- The key file of a key on P-256: any text of at most 64 KiB that is no PEM and parses as the object.
pub record IsWritten (lib : Crypto) (k : EcKey) (kid b : Text) : Type 0 where
  pub key : IsEcKey lib k
  pub clean : valid_utf8 kid ≡ true
  pub named : blank kid ≡ false
  pub small : length b ≤ 65_536
  pub no_pem : lib.pem_decode b ≡ none
  pub parses : lib.parse_json b ≡ some (ec_value k kid)

-- A key on P-256 that is written as a JWK, its numbers as 32 bytes in base64, under an id that is not
-- blank and that is asked for or not, is loaded as just that key, to sign with ES256 under that id.
pub load_key-ec_value :
    (lib : Crypto) (k : EcKey) (kid asked b : Text)
    → IsWritten lib k kid b
    → (asked ≡ []) ⊎ (asked ≡ kid)
    → load_key lib (some b) asked
      ≡ some (record { key = ecdsa (lib.sign_ecdsa k); kid = kid; alg = txt "ES256" })
unfolding load_key read_bounded ec_jwk
load_key-ec_value lib k kid asked b h a =
    let fits : ltb 65_536 (length b) ≡ false = ground (arith, h.small) in
    rw
      (
        fits,
        h.no_pem,
        h.parses,
        into_jwk-ec_value k kid h.clean,
        usable-ec_jwk k kid asked h.named a,
        jwk_key-ec_jwk lib k kid h.key,
      )
      (signing-ec_key lib k kid (txt "ES256") h.key h.named)

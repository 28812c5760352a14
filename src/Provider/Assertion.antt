-- ===== src/Provider/Assertion.antt =====
-- provider/keys.go, `assertion`: the client's signed assertion. The signatures and SHA-256 are
-- parameters; the random bytes are an argument.
use esignet_relay_authentica.Prelude.{
  ℕ, zero, suc, ◌+◌, ◌*◌, ◌/◌, ◌%◌, ◌≡◌, refl, sym, ap, ◌∙◌, ◌≢◌, Option, none, some, [], ◌∷◌, ◌++◌,
  ℤ, length, arith, length-append, append_assoc,
}
use esignet_relay_authentica.Text.{Text, txt, split_on, join, Lacks, split_on-join}
use esignet_relay_authentica.Json.{int, str, obj, end, member, marshal}
use esignet_relay_authentica.Provider.Base64.{encode, url_char}

-- The two kinds of keys with what they make of a digest: a signature, or its two numbers.
pub data PrivateKey : Type 0 where
  rsa : (Text → Option Text) → PrivateKey
  ecdsa : (Text → Option (ℕ × ℕ)) → PrivateKey

-- `assertionKey`.
pub record AssertionKey : Type 0 where
  pub key : PrivateKey
  pub kid : Text
  pub alg : Text

-- `FillBytes` on a slice of some length, for a number that fits.
unfoldable pub fill_bytes : ℕ → ℕ → Text
fill_bytes zero n = []
fill_bytes (suc size) n = fill_bytes size (n / 256) ++ n % 256 ∷ []

abbrev fixed : Option (ℕ × ℕ) → Option Text
fixed none = none
fixed (some (r, s)) = some (fill_bytes 32 r ++ fill_bytes 32 s)

unfoldable pub sign : PrivateKey → Text → Option Text
unfolding fill_bytes
sign (rsa signature) digest = signature digest
sign (ecdsa signature) digest = fixed (signature digest)

abbrev or_empty : Option Text → Text
or_empty none = []
or_empty (some t) = t

unfoldable pub jwt_head : AssertionKey → Text
jwt_head k = or_empty (
    marshal (
      obj (
        member (txt "alg") (str k.alg)
          (member (txt "typ") (str (txt "JWT")) (member (txt "kid") (str k.kid) end)))))

unfoldable pub jwt_body : Text → Text → ℤ → ℤ → Text → Text
jwt_body client audience iat exp nonce = or_empty (
    marshal (
      obj (
        member (txt "iss") (str client) (
          member (txt "sub") (str client) (
            member (txt "aud") (str audience) (
              member (txt "iat") (int iat)
                (member (txt "exp") (int exp) (member (txt "jti") (str (encode nonce)) end))))))))

abbrev pub jwt_input : AssertionKey → Text → Text → ℤ → ℤ → Text → Text
jwt_input k client audience iat exp nonce =
    encode (jwt_head k) ++ (b'.' ∷ encode (jwt_body client audience iat exp nonce))

abbrev signed : Text → Option Text → Option Text
signed input none = none
signed input (some sig) = some (input ++ b'.' ∷ encode sig)

module _ (sha256 : Text → Text) where
  -- `k.assertion`; none is `ErrUnavailable`.
  unfoldable pub assertion : AssertionKey → Option Text → Text → Text → ℤ → ℤ → Option Text
  unfolding sign jwt_head jwt_body encode
  assertion k none client audience iat exp = none
  assertion k (some nonce) client audience iat exp =
      let input = jwt_input k client audience iat exp nonce in
      signed input (sign k.key (sha256 input))

-- A code without dots.
url_char_no_dot : (n : ℕ) → url_char n ≢ b'.'
url_char_no_dot n e = ground arith

encode-Lacks : (s : Text) → Lacks b'.' (encode s)
unfolding encode
encode-Lacks [] = tt
encode-Lacks (a ∷ []) = (url_char_no_dot (a / 4), (url_char_no_dot (a % 4 * 16), tt))
encode-Lacks (a ∷ b ∷ []) = (
  url_char_no_dot (a / 4),
  (url_char_no_dot (a % 4 * 16 + b / 16), (url_char_no_dot (b % 16 * 4), tt)),
)
encode-Lacks (a ∷ b ∷ c ∷ s) = (
  url_char_no_dot (a / 4),
  (
    url_char_no_dot (a % 4 * 16 + b / 16),
    (url_char_no_dot (b % 16 * 4 + c / 64), (url_char_no_dot (c % 64), encode-Lacks s)),
  ),
)

pub length-fill_bytes : (size n : ℕ) → length (fill_bytes size n) ≡ size
unfolding fill_bytes
length-fill_bytes zero n = refl
length-fill_bytes (suc size) n =
    length-append (fill_bytes size (n / 256)) (n % 256 ∷ [])
    ∙ omega (arith, length-fill_bytes size (n / 256))

-- What an assertion is made of.
pub record IsAsserted (sha256 : Text → Text) (k : AssertionKey) (random : Option Text)
    (client audience : Text) (iat exp : ℤ) (token : Text) : Type 0 where
  pub nonce : Text
  pub drawn : random ≡ some nonce
  pub signature : Text
  pub signs : sign k.key (sha256 (jwt_input k client audience iat exp nonce)) ≡ some signature
  pub parts :
      split_on b'.' token
      ≡ encode (jwt_head k)
        ∷ encode (jwt_body client audience iat exp nonce)
        ∷ encode signature
        ∷ []

three_parts :
    (a b c : Text)
    → split_on b'.' ((encode a ++ (b'.' ∷ encode b)) ++ b'.' ∷ encode c)
      ≡ encode a ∷ encode b ∷ encode c ∷ []
unfolding join
three_parts a b c =
    ap (split_on b'.') (append_assoc (encode a) (b'.' ∷ encode b) (b'.' ∷ encode c))
    ∙ split_on-join b'.' (encode a) (encode b ∷ encode c ∷ [])
        (encode-Lacks a, (encode-Lacks b, (encode-Lacks c, tt)))

signed_some :
    (input : Text) (o : Option Text) (token : Text)
    → signed input o ≡ some token
    → (sig : Text) × (o ≡ some sig) × (input ++ b'.' ∷ encode sig ≡ token)
signed_some input none token h = absurd (cc h)
signed_some input (some sig) token h = (sig, refl, cc h)

-- An assertion that is made has exactly three parts between dots: the encoded head with algorithm
-- and key, the encoded claims with the client as issuer and subject, the audience, the times and
-- the random id, and the encoded signature of the key for the digest of the first two.
pub assertion-IsAsserted :
    (sha256 : Text → Text) (k : AssertionKey) (random : Option Text) (client audience : Text)
    (iat exp : ℤ) (token : Text)
    → assertion sha256 k random client audience iat exp ≡ some token
    → IsAsserted sha256 k random client audience iat exp token
unfolding assertion
assertion-IsAsserted sha256 k none client audience iat exp token h = absurd (cc h)
assertion-IsAsserted sha256 k (some nonce) client audience iat exp token h =
    let input = jwt_input k client audience iat exp nonce in
    let (sig, signs, is) = signed_some input (sign k.key (sha256 input)) token h in
    record {
      nonce = nonce;
      drawn = refl;
      signature = sig;
      signs = signs;
      parts =
          ap (split_on b'.') (sym is)
          ∙ three_parts (jwt_head k) (jwt_body client audience iat exp nonce) sig;
    }

fixed-some : (o : Option (ℕ × ℕ)) (sig : Text) → fixed o ≡ some sig → length sig ≡ 64
fixed-some none sig h = absurd (cc h)
fixed-some (some (r, s)) sig h =
    let is : fill_bytes 32 r ++ fill_bytes 32 s ≡ sig = cc h in
    ap length (sym is)
    ∙ length-append (fill_bytes 32 r) (fill_bytes 32 s)
    ∙ omega (arith, length-fill_bytes 32 r, length-fill_bytes 32 s)

-- A signature by an elliptic key has 64 bytes, whatever its two numbers are.
pub length-sign :
    (signature : Text → Option (ℕ × ℕ)) (digest sig : Text)
    → sign (ecdsa signature) digest ≡ some sig
    → length sig ≡ 64
unfolding sign
length-sign signature digest sig h = fixed-some (signature digest) sig h

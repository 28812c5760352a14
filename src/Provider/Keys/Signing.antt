-- ===== src/Provider/Keys/Signing.antt =====
-- What a loaded key is, whichever form its file has.
use esignet_relay_authentica.Prelude.{
  ◌^◌, ◌≤◌, ◌≡◌, refl, sym, subst, true, false, ◌||◌, Option, none, some, [], ltb, ◌⊎◌, inl, inr,
  ◌==◌, ==_iff, arith,
}
use esignet_relay_authentica.Text.{Text, txt, text_eq, blank, is_empty, is_empty_iff}
use esignet_relay_authentica.Json.{and_then, and_then-eq-some}
use esignet_relay_authentica.Config.{read_bounded}
use esignet_relay_authentica.Provider.Assertion.{rsa, ecdsa, AssertionKey}
use esignet_relay_authentica.Provider.Keys.Numbers.{bit_len, bit_len-lower}
use esignet_relay_authentica.Provider.Keys.Jwk.{jwk_key-cases}
use esignet_relay_authentica.Provider.Keys.Defs.{
  is_p256, RsaKey, Curve, p256, other_curve, EcKey, Key, rsa_key, ec_key, other_key, Crypto, Jwk,
  usable, jwk_key, signing, from_jwk, or_pkcs1, from_block, from_file, into_jwk, load_key,
}

is_p256-eq : (c : Curve) → is_p256 c ≡ true → c ≡ p256
is_p256-eq p256 h = refl
is_p256-eq other_curve h = absurd (cc h)

module _ (lib : Crypto) where
  pub record IsRsaSigner (k : AssertionKey) : Type 0 where
    pub signer : RsaKey
    pub key : k.key ≡ rsa (lib.sign_rsa signer)
    pub alg : k.alg ≡ txt "RS256"
    pub large : 2 ^ 2047 ≤ signer.n
    pub valid : lib.validates signer ≡ true

  pub record IsEcSigner (k : AssertionKey) : Type 0 where
    pub signer : EcKey
    pub key : k.key ≡ ecdsa (lib.sign_ecdsa signer)
    pub alg : k.alg ≡ txt "ES256"
    pub curve : signer.curve ≡ p256

  -- A key has an id, the configured one if there is one, and it is a large valid RSA key for RS256
  -- or a key on P-256 for ES256.
  pub record IsSigningKey (kid : Text) (k : AssertionKey) : Type 0 where
    pub named : blank k.kid ≡ false
    pub asked : (kid ≡ []) ⊎ (k.kid ≡ kid)
    pub signer : IsRsaSigner k ⊎ IsEcSigner k

  abbrev Fits : Text → Key → Type 0
  Fits alg (rsa_key r) = alg ≡ txt "RS256"
  Fits alg _ = Unit

  signing-IsSigner :
      (kid alg : Text) (key : Key) (k : AssertionKey)
      → Fits alg key
      → signing lib kid alg key ≡ some k
      → (k.kid ≡ kid) × (blank k.kid ≡ false) × (IsRsaSigner k ⊎ IsEcSigner k)
  unfolding signing
  signing-IsSigner kid alg (rsa_key r) k fits h =
      let large : ltb (bit_len r.n) 2048 ≡ false = ground arith in
      let valid : lib.validates r ≡ true = ground arith in
      let named : blank kid ≡ false = ground arith in
      let is : record { key = rsa (lib.sign_rsa r); kid = kid; alg = alg } ≡ k = ground arith in
      subst (λ k. (k.kid ≡ kid) × (blank k.kid ≡ false) × (IsRsaSigner k ⊎ IsEcSigner k)) is
        (
          refl,
          named,
          inl (record {
            signer = r;
            key = refl;
            alg = fits;
            large = bit_len-lower r.n 2047 (ground arith);
            valid = valid;
          }),
        )
  signing-IsSigner kid alg (ec_key e) k fits h =
      let curve : is_p256 e.curve ≡ true = ground arith in
      let named : blank kid ≡ false = ground arith in
      let is : record { key = ecdsa (lib.sign_ecdsa e); kid = kid; alg = txt "ES256" } ≡ k =
        ground arith in
      subst (λ k. (k.kid ≡ kid) × (blank k.kid ≡ false) × (IsRsaSigner k ⊎ IsEcSigner k)) is
        (
          refl,
          named,
          inr (record { signer = e; key = refl; alg = refl; curve = is_p256-eq e.curve curve }),
        )
  signing-IsSigner kid alg other_key k fits h = absurd (cc h)

  rs256-Fits : (key : Key) → Fits (txt "RS256") key
  rs256-Fits (rsa_key r) = refl
  rs256-Fits (ec_key e) = tt
  rs256-Fits other_key = tt

  -- The members of a JWK fix the algorithm of an RSA key.
  jwk_key-Fits : (j : Jwk) (key : Key) → jwk_key lib j ≡ some key → Fits j.alg key
  jwk_key-Fits j key h = elim (jwk_key-cases lib j key h) [
    | inl r ↦ subst (Fits j.alg) (sym r.is) r.alg
    | inr e ↦ subst (Fits j.alg) (sym e.is) tt
  ]

  from_jwk-IsSigningKey :
      (kid : Text) (j : Jwk) (k : AssertionKey) → from_jwk lib kid j ≡ some k → IsSigningKey kid k
  unfolding usable
  from_jwk-IsSigningKey kid j k h =
      let (key, reads, got) =
        and_then-eq-some (jwk_key lib j) (signing lib j.kid j.alg) k (ground arith) in
      let (same, named, signer) =
        signing-IsSigner j.kid j.alg key k (jwk_key-Fits j key reads) got in
      let agree : (is_empty kid || kid == j.kid) ≡ true = ground arith in
      record {
        named = named;
        asked = ground (arith, ==_iff kid j.kid, is_empty_iff kid);
        signer = signer;
      }

  from_block-IsSigningKey :
      (kid : Text) (parts : Text × Text) (k : AssertionKey)
      → from_block lib kid parts ≡ some k
      → IsSigningKey kid k
  from_block-IsSigningKey kid (block, rest) k h =
      let (key, reads, got) =
        and_then-eq-some (or_pkcs1 lib block (lib.parse_pkcs8 block))
          (signing lib kid (txt "RS256")) k (ground arith) in
      let (same, named, signer) = signing-IsSigner kid (txt "RS256") key k (rs256-Fits key) got in
      record { named = named; asked = inr same; signer = signer }

  from_file-IsSigningKey :
      (kid b : Text) (o : Option (Text × Text)) (k : AssertionKey)
      → from_file lib kid b o ≡ some k
      → IsSigningKey kid k
  from_file-IsSigningKey kid b none k h =
      let (v, parses, into) =
        and_then-eq-some (lib.parse_json b) (λ v. and_then (into_jwk v) (from_jwk lib kid)) k h in
      let (j, decodes, got) = and_then-eq-some (into_jwk v) (from_jwk lib kid) k into in
      from_jwk-IsSigningKey kid j k got
  from_file-IsSigningKey kid b (some parts) k h = from_block-IsSigningKey kid parts k h

-- Whatever form the key file has, a key that is loaded has a nonblank id, which is the configured one
-- if one is configured, and is either a valid RSA key of at least 2048 bits that signs with RS256 or
-- a key on P-256 that signs with ES256.
pub load_key-IsSigningKey :
    (lib : Crypto) (file : Option Text) (kid : Text) (k : AssertionKey)
    → load_key lib file kid ≡ some k
    → IsSigningKey lib kid k
unfolding load_key
load_key-IsSigningKey lib file kid k h =
    let (b, reads, got) =
      and_then-eq-some (read_bounded file 65_536) (λ b. from_file lib kid b (lib.pem_decode b)) k
        h in
    from_file-IsSigningKey lib kid b (lib.pem_decode b) k got

-- ===== src/Provider/Keys/Members.antt =====
-- What the members of a JWK have to say for its key to be loaded.
use esignet_relay_authentica.Prelude.{
  ◌≤◌, ◌≡◌, refl, subst, true, none, some, List, [], ◌∷◌, ◌⊎◌, inl, inr, ==_iff, arith, length,
}
use esignet_relay_authentica.Text.{Text, txt, text_eq, is_empty_iff}
use esignet_relay_authentica.Json.{Value, and_then, and_then-eq-some}
use esignet_relay_authentica.Config.{read_bounded}
use esignet_relay_authentica.Provider.Assertion.{AssertionKey}
use esignet_relay_authentica.Provider.Keys.Defs.{
  Key, Crypto, Jwk, usable, only_sign, jwk_key, signing, from_jwk, from_file, into_jwk, load_key,
}
use esignet_relay_authentica.Provider.Keys.Jwk.{IsOfRsa, IsOfEc, jwk_key-cases}

-- The file parses as an object whose use is absent or to sign, whose operations are absent or just to
-- sign, and whose numbers are those of the key that signs.
pub record IsFromJwk (lib : Crypto) (b : Text) (k : AssertionKey) : Type 0 where
  pub small : length b ≤ 65_536
  pub value : Value
  pub parses : lib.parse_json b ≡ some value
  pub members : Jwk
  pub decodes : into_jwk value ≡ some members
  pub use_for : (members.use_for ≡ []) ⊎ (members.use_for ≡ txt "sig")
  pub operations : (members.key_ops.0 ≡ []) ⊎ (members.key_ops.0 ≡ txt "sign" ∷ [])
  pub key : Key
  pub numbers : IsOfRsa lib members key ⊎ IsOfEc lib members key
  pub signs : signing lib members.kid members.alg key ≡ some k

only_sign-cases : (ops : List Text) → only_sign ops ≡ true → (ops ≡ []) ⊎ (ops ≡ txt "sign" ∷ [])
only_sign-cases [] h = inl refl
only_sign-cases (op ∷ []) h = inr (ground (arith, ==_iff op (txt "sign")))
only_sign-cases (op ∷ ops ∷ more) h = absurd (cc h)

pub load_key-IsFromJwk :
    (lib : Crypto) (b kid : Text) (k : AssertionKey)
    → lib.pem_decode b ≡ none
    → load_key lib (some b) kid ≡ some k
    → IsFromJwk lib b k
unfolding load_key read_bounded usable
load_key-IsFromJwk lib b kid k no_pem h =
    let (c, reads, from) =
      and_then-eq-some (read_bounded (some b) 65_536) (λ b. from_file lib kid b (lib.pem_decode b))
        k h in
    let same : c ≡ b = ground arith in
    let got =
      subst (λ o. from_file lib kid b o ≡ some k) no_pem
        (subst (λ c. from_file lib kid c (lib.pem_decode c) ≡ some k) same from) in
    let (v, parses, into) =
      and_then-eq-some (lib.parse_json b) (λ v. and_then (into_jwk v) (from_jwk lib kid)) k got in
    let (j, decodes, made) = and_then-eq-some (into_jwk v) (from_jwk lib kid) k into in
    let (key, is, signs) =
      and_then-eq-some (jwk_key lib j) (signing lib j.kid j.alg) k (ground arith) in
    record {
      small = ground arith;
      value = v;
      parses = parses;
      members = j;
      decodes = decodes;
      use_for = ground (arith, is_empty_iff j.use_for, ==_iff j.use_for (txt "sig"));
      operations = only_sign-cases j.key_ops.0 (ground arith);
      key = key;
      numbers = jwk_key-cases lib j key is;
      signs = signs;
    }

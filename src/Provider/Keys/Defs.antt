-- ===== src/Provider/Keys/Defs.antt =====
-- `loadKey`: the file's bytes are an argument, `none` where it cannot be read; every error is one.
use esignet_relay_authentica.Prelude.{
  ℕ, ◌-◌, ◌^◌, Bool, true, false, ◌&&◌, ◌||◌, not, Option, none, some, List, [], ◌∷◌, ◌++◌, ltb,
  eqb, if◌then◌else◌, ◌==◌,
}
use esignet_relay_authentica.Text.{Text, txt, text_beq, text_eq, blank, is_empty}
use esignet_relay_authentica.Json.{
  Value, null, arr, obj, Values, nil, cons, Members, into_text, field_from, and_then,
}
use esignet_relay_authentica.Config.{read_bounded}
use esignet_relay_authentica.Provider.Assertion.{rsa, ecdsa, AssertionKey}
use esignet_relay_authentica.Provider.Keys.Numbers.{number, bit_len}

-- `rsa.PrivateKey`, without what is precomputed.
pub record RsaKey : Type 0 where
  pub n : ℕ
  pub e : ℕ
  pub d : ℕ
  pub primes : List ℕ

pub data Curve : Type 0 where
  p256 other_curve : Curve

-- `ecdsa.PrivateKey`.
pub record EcKey : Type 0 where
  pub curve : Curve
  pub x : ℕ
  pub y : ℕ
  pub d : ℕ

-- `crypto.PrivateKey`, as far as the final switch tells its types apart.
pub data Key : Type 0 where
  rsa_key : RsaKey → Key
  ec_key : EcKey → Key
  other_key : Key

-- The packages that `loadKey` calls: `pem.Decode` (the block's bytes and the rest), the two parsers
-- of `x509`, the syntax of JSON, `Validate` and `Precompute` of RSA (the two exponents and the
-- coefficient), the order, the points and the generator of P-256, and the two signatures.
pub record Crypto : Type 0 where
  pub pem_decode : Text → Option (Text × Text)
  pub parse_pkcs8 : Text → Option Key
  pub parse_pkcs1 : Text → Option RsaKey
  pub parse_json : Text → Option Value
  pub validates : RsaKey → Bool
  pub precomputed : RsaKey → ℕ × ℕ × ℕ
  pub order : ℕ
  pub on_curve : ℕ → ℕ → Bool
  pub scalar_base_mult : ℕ → ℕ × ℕ
  pub sign_rsa : RsaKey → Text → Option Text
  pub sign_ecdsa : EcKey → Text → Option (ℕ × ℕ)

-- The struct that a JWK is decoded into. `key_ops` keeps the elements behind its length, from which a
-- later array with `null`s is filled.
pub record Jwk : Type 0 where
  pub kty : Text
  pub alg : Text
  pub use_for : Text
  pub kid : Text
  pub n : Text
  pub e : Text
  pub d : Text
  pub p : Text
  pub q : Text
  pub dp : Text
  pub dq : Text
  pub qi : Text
  pub crv : Text
  pub x : Text
  pub y : Text
  pub key_ops : List Text × List Text

abbrev first_or_empty : List Text → Text
first_or_empty [] = []
first_or_empty (s ∷ ss) = s

abbrev behind : List Text → List Text
behind [] = []
behind (s ∷ ss) = ss

abbrev onto : Text → Option (List Text × List Text) → Option (List Text × List Text)
onto s none = none
onto s (some (live, spare)) = some (s ∷ live, spare)

fill : Values → List Text → Option (List Text × List Text)
fill nil old = some ([], old)
fill (cons v vs) old =
    let rest = fill vs (behind old) in
    and_then (into_text v (first_or_empty old)) (λ s. onto s rest)

-- Into a `[]string`: an empty array makes a new slice.
abbrev into_strings : Value → List Text × List Text → Option (List Text × List Text)
into_strings null old = some ([], [])
into_strings (arr nil) old = some ([], [])
into_strings (arr (cons v vs)) (live, spare) = fill (cons v vs) (live ++ spare)
into_strings _ old = none

abbrev text_field : Text → Members → (Text → Option Jwk) → Option Jwk
text_field name ms next = and_then (field_from name into_text ms []) next

abbrev pub no_jwk : Jwk
no_jwk = record {
  kty = [];
  alg = [];
  use_for = [];
  kid = [];
  n = [];
  e = [];
  d = [];
  p = [];
  q = [];
  dp = [];
  dq = [];
  qi = [];
  crv = [];
  x = [];
  y = [];
  key_ops = ([], []);
}

decode_jwk : Members → Option Jwk
unfolding field_from fill
decode_jwk ms = text_field (txt "Kty") ms λ kty. text_field (txt "Alg") ms λ alg.
    text_field (txt "Use") ms λ use_for. text_field (txt "Kid") ms λ kid.
      text_field (txt "N") ms λ n. text_field (txt "E") ms λ e. text_field (txt "D") ms λ d.
        text_field (txt "P") ms λ p. text_field (txt "Q") ms λ q. text_field (txt "DP") ms λ dp.
          text_field (txt "DQ") ms λ dq. text_field (txt "QI") ms λ qi.
            text_field (txt "Crv") ms λ crv. text_field (txt "X") ms λ x.
              text_field (txt "Y") ms λ y.
                and_then (field_from (txt "key_ops") into_strings ms ([], [])) λ key_ops.
                  some (record {
                    kty = kty;
                    alg = alg;
                    use_for = use_for;
                    kid = kid;
                    n = n;
                    e = e;
                    d = d;
                    p = p;
                    q = q;
                    dp = dp;
                    dq = dq;
                    qi = qi;
                    crv = crv;
                    x = x;
                    y = y;
                    key_ops = key_ops;
                  })

-- `json.Unmarshal` into the struct.
unfoldable pub into_jwk : Value → Option Jwk
unfolding decode_jwk
into_jwk null = some no_jwk
into_jwk (obj ms) = decode_jwk ms
into_jwk _ = none

abbrev pub only_sign : List Text → Bool
only_sign [] = true
only_sign (op ∷ []) = op == txt "sign"
only_sign _ = false

-- The tests on the text members, `kid` being the configured one.
unfoldable pub usable : Text → Jwk → Bool
usable kid j =
    (is_empty j.use_for || j.use_for == txt "sig")
    && not (blank j.kid)
    && (is_empty kid || kid == j.kid)
    && only_sign j.key_ops.0

abbrev pub small_exponent : ℕ → Bool
small_exponent e = ltb e (2 ^ 63) && not (ltb (2 ^ 31 - 1) e)

abbrev number_in : {A : Type 0} → Text → (ℕ → Option A) → Option A
number_in s next = and_then (number s) next

-- The eight numbers of an RSA key: the key, and what the file says of its precomputed values.
pub record RsaNumbers : Type 0 where
  pub key : RsaKey
  pub dp : ℕ
  pub dq : ℕ
  pub qi : ℕ

-- None if a number is missing, not encoded or too large.
unfoldable pub rsa_numbers : Jwk → Option RsaNumbers
rsa_numbers j = number_in j.n λ n. number_in j.e λ e. number_in j.d λ d. number_in j.p λ p.
    number_in j.q λ q. number_in j.dp λ dp. number_in j.dq λ dq. number_in j.qi λ qi.
      if small_exponent e
      then some (record {
        key = record { n = n; e = e; d = d; primes = p ∷ q ∷ [] };
        dp = dp;
        dq = dq;
        qi = qi;
      })
      else none

unfoldable pub ec_numbers : Jwk → Option EcKey
ec_numbers j =
    number_in j.x
      λ x. number_in j.y λ y. number_in j.d λ d. some (record { curve = p256; x = x; y = y; d = d })

abbrev pub is_p256 : Curve → Bool
is_p256 p256 = true
is_p256 other_curve = false

abbrev pub same_triple : ℕ × ℕ × ℕ → ℕ × ℕ × ℕ → Bool
same_triple (a, b, c) (i, j, k) = eqb a i && eqb b j && eqb c k

abbrev pub same_pair : ℕ × ℕ → ℕ × ℕ → Bool
same_pair (a, b) (i, j) = eqb a i && eqb b j

module _ (lib : Crypto) where
  abbrev pub matching : RsaNumbers → Option Key
  matching r =
      if lib.validates r.key && same_triple (lib.precomputed r.key) (r.dp, r.dq, r.qi)
      then some (rsa_key r.key)
      else none

  abbrev pub on_the_curve : EcKey → Option Key
  on_the_curve k =
      if ltb 0 k.d
        && ltb k.d lib.order
        && lib.on_curve k.x k.y
        && same_pair (lib.scalar_base_mult k.d) (k.x, k.y)
      then some (ec_key k)
      else none

  unfoldable pub jwk_key : Jwk → Option Key
  unfolding text_beq
  jwk_key j =
      if j.kty == txt "RSA" && j.alg == txt "RS256"
      then and_then (rsa_numbers j) matching
      else (if j.kty == txt "EC" && j.alg == txt "ES256" && j.crv == txt "P-256"
          then and_then (ec_numbers j) on_the_curve
          else none)

  abbrev named : AssertionKey → Option AssertionKey
  named k = if blank k.kid then none else some k

  -- The final switch over the key's type.
  unfoldable pub signing : Text → Text → Key → Option AssertionKey
  signing kid alg (rsa_key r) =
      if ltb (bit_len r.n) 2048 || not (lib.validates r)
      then none
      else named (record { key = rsa (lib.sign_rsa r); kid = kid; alg = alg })
  signing kid alg (ec_key k) =
      if is_p256 k.curve
      then named (record { key = ecdsa (lib.sign_ecdsa k); kid = kid; alg = txt "ES256" })
      else none
  signing kid alg other_key = none

  abbrev pub from_jwk : Text → Jwk → Option AssertionKey
  from_jwk kid j = if usable kid j then and_then (jwk_key j) (signing j.kid j.alg) else none

  abbrev pub from_json : Text → Text → Option AssertionKey
  from_json kid b = and_then (lib.parse_json b) λ v. and_then (into_jwk v) (from_jwk kid)

  abbrev pub or_pkcs1 : Text → Option Key → Option Key
  or_pkcs1 block (some key) = some key
  or_pkcs1 block none = and_then (lib.parse_pkcs1 block) λ r. some (rsa_key r)

  abbrev pub from_block : Text → Text × Text → Option AssertionKey
  from_block kid (block, rest) =
      if is_empty rest
      then and_then (or_pkcs1 block (lib.parse_pkcs8 block)) (signing kid (txt "RS256"))
      else none

  abbrev pub from_file : Text → Text → Option (Text × Text) → Option AssertionKey
  from_file kid b none = from_json kid b
  from_file kid b (some parts) = from_block kid parts

  unfoldable pub load_key : Option Text → Text → Option AssertionKey
  load_key file kid = and_then (read_bounded file 65_536) λ b. from_file kid b (lib.pem_decode b)

-- ===== src/Provider/Keys/Samples.antt =====
-- A small key, a large one, and the parameters of the tests.
use esignet_relay_authentica.Prelude.{
  ◌+◌, ◌*◌, ◌^◌, true, Option, none, some, [], ◌∷◌, eqb, if◌then◌else◌,
}
use esignet_relay_authentica.Text.{Text, txt}
use esignet_relay_authentica.Provider.Keys.Defs.{RsaKey, EcKey, p256, Crypto}
use esignet_relay_authentica.Provider.Keys.Written.{ec_value}

abbrev pub small_key : EcKey
small_key = record { curve = p256; x = 6; y = 300; d = 5 }

abbrev pub large_key : RsaKey
large_key = record { n = 2 ^ 2047; e = 65_537; d = 3; primes = 5 ∷ 7 ∷ [] }

-- A PEM starts with a dash; any other text is the small key under the id `k`.
abbrev pub parsed : Text → Option (Text × Text)
parsed [] = none
parsed (b ∷ rest) = if eqb b b'-' then some (rest, []) else none

abbrev pub sample_crypto : Crypto
sample_crypto = record {
  pem_decode = parsed;
  parse_pkcs8 = λ b. none;
  parse_pkcs1 = λ b. some large_key;
  parse_json = λ b. some (ec_value small_key (txt "k"));
  validates = λ r. true;
  precomputed = λ r. (1, 2, 3);
  order = 101;
  on_curve = λ x y. true;
  scalar_base_mult = λ d. (d + 1, d * 60);
  sign_rsa = λ r digest. some digest;
  sign_ecdsa = λ k digest. some (k.d, 1);
}

-- ===== src/Provider/Keys/Tests.antt =====
-- Key files that load, some that do not, and the theorems at them.
use esignet_relay_authentica.Prelude.{◌≡◌, refl, none, some, [], arith, inr}
use esignet_relay_authentica.Text.{txt, text_beq, blank, valid_utf8, sanitize}
use esignet_relay_authentica.Config.{read_bounded}
use esignet_relay_authentica.Provider.Assertion.{AssertionKey, rsa, ecdsa}
use esignet_relay_authentica.Provider.Keys.Numbers.{decode_raw, number, bit_len}
use esignet_relay_authentica.Provider.Keys.Defs.{into_jwk, usable, signing, load_key}
use esignet_relay_authentica.Provider.Keys.Signing.{IsSigningKey, load_key-IsSigningKey}
use esignet_relay_authentica.Provider.Keys.Written.{ec_value, IsEcKey, IsWritten, load_key-ec_value}
use esignet_relay_authentica.Provider.Keys.Samples.{small_key, large_key, sample_crypto}

small_key-IsEcKey : IsEcKey sample_crypto small_key
small_key-IsEcKey = record {
  curve = refl;
  positive = omega arith;
  below = omega arith;
  order = omega arith;
  on = refl;
  point = refl;
  x_fits = omega arith;
  y_fits = omega arith;
}

small_key-IsWritten : IsWritten sample_crypto small_key (txt "k") (txt "{}")
unfolding valid_utf8 blank
small_key-IsWritten = record {
  key = small_key-IsEcKey;
  clean = refl;
  named = refl;
  small = omega arith;
  no_pem = refl;
  parses = refl;
}

abbrev loaded_ec : AssertionKey
loaded_ec = record {
  key = ecdsa (sample_crypto.sign_ecdsa small_key);
  kid = txt "k";
  alg = txt "ES256";
}

load_key-ec_value_example : load_key sample_crypto (some (txt "{}")) (txt "k") ≡ some loaded_ec
load_key-ec_value_example =
    load_key-ec_value sample_crypto small_key (txt "k") (txt "k") (txt "{}") small_key-IsWritten
      (inr refl)

abbrev loaded_rsa : AssertionKey
loaded_rsa = record {
  key = rsa (sample_crypto.sign_rsa large_key);
  kid = txt "r";
  alg = txt "RS256";
}

loads_pem : load_key sample_crypto (some (txt "-x")) (txt "r") ≡ some loaded_rsa
unfolding load_key read_bounded signing bit_len blank
loads_pem = refl

load_key-IsSigningKey_example : IsSigningKey sample_crypto (txt "r") loaded_rsa
load_key-IsSigningKey_example =
    load_key-IsSigningKey sample_crypto (some (txt "-x")) (txt "r") loaded_rsa loads_pem

-- A PEM without a configured id, a JWK under another id, and the exponent in base64.
needs_id : load_key sample_crypto (some (txt "-x")) [] ≡ none
unfolding load_key read_bounded signing bit_len blank
needs_id = refl

other_id : load_key sample_crypto (some (txt "{}")) (txt "z") ≡ none
unfolding load_key read_bounded into_jwk ec_value usable text_beq sanitize blank
other_id = refl

exponent : number (txt "AQAB") ≡ some 65_537
unfolding number
exponent = refl

short_group : decode_raw (txt "AQA\nBx") ≡ none
unfolding decode_raw
short_group = refl

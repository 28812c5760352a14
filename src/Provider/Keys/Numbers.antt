-- ===== src/Provider/Keys/Numbers.antt =====
-- The numbers of a JWK: `base64.RawURLEncoding.DecodeString`, `big.Int.SetBytes` and `BitLen`.
use esignet_relay_authentica.Prelude.{
  ℕ, zero, suc, ◌+◌, ◌-◌, ◌*◌, ◌/◌, ◌%◌, ◌^◌, ◌≤◌, ◌<◌, ◌≡◌, refl, ◌&&◌, ◌||◌, Option, none, some,
  [], ◌∷◌, leb, eqb, if◌then◌else◌, arith, All,
}
use esignet_relay_authentica.Text.{Text}
use esignet_relay_authentica.Provider.Base64.{encode, url_char, IsByte}

-- The six bits of a character of the alphabet.
sextet : ℕ → Option ℕ
sextet c =
    if leb b'A' c && leb c b'Z'
    then some (c - 65)
    else (if leb b'a' c && leb c b'z'
        then some (c - 71)
        else (if leb b'0' c && leb c b'9'
            then some (c + 4)
            else (if eqb c b'-' then some 62 else (if eqb c b'_' then some 63 else none))))

abbrev push : Option ℕ → Option Text → Option Text
push (some n) (some s) = some (n ∷ s)
push _ _ = none

-- Line ends are skipped wherever they stand.
sextets : Text → Option Text
unfolding sextet
sextets [] = some []
sextets (c ∷ s) =
    let rest = sextets s in if eqb c b'\n' || eqb c b'\r' then rest else push (sextet c) rest

abbrev before : ℕ → ℕ → Option Text → Option Text
before a b none = none
before a b (some s) = some (a ∷ b ∷ s)

abbrev three_before : ℕ → ℕ → ℕ → Option Text → Option Text
three_before a b c none = none
three_before a b c (some s) = some (a ∷ b ∷ c ∷ s)

-- Four characters give three bytes; what a short last group has beyond its bytes is ignored.
join_sextets : Text → Option Text
join_sextets [] = some []
join_sextets (i ∷ []) = none
join_sextets (i ∷ j ∷ []) = some ((i * 4 + j / 16) ∷ [])
join_sextets (i ∷ j ∷ k ∷ []) = some ((i * 4 + j / 16) ∷ (j % 16 * 16 + k / 4) ∷ [])
join_sextets (i ∷ j ∷ k ∷ l ∷ s) =
    three_before (i * 4 + j / 16) (j % 16 * 16 + k / 4) (k % 4 * 64 + l) (join_sextets s)

abbrev joined : Option Text → Option Text
joined none = none
joined (some s) = join_sextets s

unfoldable pub decode_raw : Text → Option Text
unfolding sextets join_sextets
decode_raw s = joined (sextets s)

-- `SetBytes`: the first byte is the highest.
unfoldable pub set_bytes : ℕ → Text → ℕ
set_bytes n [] = n
set_bytes n (b ∷ s) = set_bytes (n * 256 + b) s

abbrev pub number_of : Option Text → Option ℕ
number_of none = none
number_of (some []) = none
number_of (some (b ∷ s)) = some (set_bytes 0 (b ∷ s))

-- The local `number` of `loadKey`; none is nil.
unfoldable pub number : Text → Option ℕ
unfolding decode_raw set_bytes
number s = number_of (decode_raw s)

-- A number has at most as many bits as it counts to.
bit_len_from : ℕ → ℕ → ℕ
bit_len_from zero n = 0
bit_len_from (suc fuel) zero = 0
bit_len_from (suc fuel) (suc n) = suc (bit_len_from fuel (suc n / 2))

unfoldable pub bit_len : ℕ → ℕ
unfolding bit_len_from
bit_len n = bit_len_from n n

bit_len_from-lower : (fuel n bits : ℕ) → suc bits ≤ bit_len_from fuel n → 2 ^ bits ≤ n
unfolding bit_len_from
bit_len_from-lower zero n bits h = absurd (omega arith)
bit_len_from-lower (suc fuel) zero bits h = absurd (omega arith)
bit_len_from-lower (suc fuel) (suc n) zero h = omega arith
bit_len_from-lower (suc fuel) (suc n) (suc bits) h =
    let half = bit_len_from-lower fuel (suc n / 2) bits (omega (arith, h)) in omega (arith, half)

-- A number of enough bits is not below the power of two.
pub bit_len-lower : (n bits : ℕ) → suc bits ≤ bit_len n → 2 ^ bits ≤ n
unfolding bit_len
bit_len-lower n bits h = bit_len_from-lower n n bits h

sextet-url_char : (n : ℕ) → n < 64 → sextet (url_char n) ≡ some n
unfolding sextet
sextet-url_char n h = ground arith

sextets-url_char :
    (n : ℕ) (s : Text) → n < 64 → sextets (url_char n ∷ s) ≡ push (some n) (sextets s)
unfolding sextets
sextets-url_char n s h = rw (sextet-url_char n h) (ground arith)

joined-some :
    (o : Option Text) (s : Text)
    → joined o ≡ some s
    → (r : Text) × (o ≡ some r) × (join_sextets r ≡ some s)
joined-some none s h = absurd (cc h)
joined-some (some r) s h = (r, refl, h)

-- Decoding what the encoder wrote gives the bytes back.
pub decode_raw-encode : (s : Text) → All IsByte s → decode_raw (encode s) ≡ some s
unfolding decode_raw encode
decode_raw-encode [] h = refl
decode_raw-encode (a ∷ []) h =
    rw
      (
        sextets-url_char (a / 4) (url_char (a % 4 * 16) ∷ []) (omega arith),
        sextets-url_char (a % 4 * 16) [] (omega arith),
      )
      (ground arith)
decode_raw-encode (a ∷ b ∷ []) h =
    rw
      (
        sextets-url_char (a / 4) (url_char (a % 4 * 16 + b / 16) ∷ url_char (b % 16 * 4) ∷ [])
            (omega arith),
        sextets-url_char (a % 4 * 16 + b / 16) (url_char (b % 16 * 4) ∷ []) (omega arith),
        sextets-url_char (b % 16 * 4) [] (omega arith),
      )
      (ground arith)
decode_raw-encode (a ∷ b ∷ c ∷ s) h =
    let (r, rest, back) = joined-some (sextets (encode s)) s (decode_raw-encode s h.1.1.1) in
    rw
      (
        sextets-url_char (a / 4)
            (url_char (a % 4 * 16 + b / 16)
              ∷ url_char (b % 16 * 4 + c / 64)
              ∷ url_char (c % 64)
              ∷ encode s)
            (omega arith),
        sextets-url_char (a % 4 * 16 + b / 16)
            (url_char (b % 16 * 4 + c / 64) ∷ url_char (c % 64) ∷ encode s) (omega arith),
        sextets-url_char (b % 16 * 4 + c / 64) (url_char (c % 64) ∷ encode s) (omega arith),
        sextets-url_char (c % 64) (encode s) (omega arith),
        rest,
        back,
      )
      (ground arith)

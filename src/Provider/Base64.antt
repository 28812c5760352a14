-- ===== src/Provider/Base64.antt =====
-- `base64.RawURLEncoding`: the encoder, and a decoder that shows it loses nothing.
use esignet_relay_authentica.Prelude.{
  ℕ, ◌+◌, ◌-◌, ◌*◌, ◌/◌, ◌%◌, ◌≤◌, ◌<◌, ◌≡◌, refl, sym, ap, ◌∙◌, [], ◌∷◌, ltb, eqb, if◌then◌else◌,
  length, arith, All, ◌⊎◌,
}
use esignet_relay_authentica.Text.{Text}

-- The character of a six-bit value, and back.
abbrev pub url_char : ℕ → ℕ
url_char n =
    if ltb n 26
    then 65 + n
    else (if ltb n 52
        then 71 + n
        else (if ltb n 62 then n - 4 else (if eqb n 62 then b'-' else b'_')))

abbrev url_value : ℕ → ℕ
url_value c =
    if eqb c b'-'
    then 62
    else (if eqb c b'_'
        then 63
        else (if ltb c 58 then c + 4 else (if ltb c 91 then c - 65 else c - 71)))

unfoldable pub encode : Text → Text
encode [] = []
encode (a ∷ []) = url_char (a / 4) ∷ url_char (a % 4 * 16) ∷ []
encode (a ∷ b ∷ []) = url_char (a / 4) ∷ url_char (a % 4 * 16 + b / 16) ∷ url_char (b % 16 * 4) ∷ []
encode (a ∷ b ∷ c ∷ s) =
    url_char (a / 4)
    ∷ url_char (a % 4 * 16 + b / 16)
    ∷ url_char (b % 16 * 4 + c / 64)
    ∷ url_char (c % 64)
    ∷ encode s

decode : Text → Text
decode (w ∷ x ∷ y ∷ z ∷ s) =
    let i = url_value w in
    let j = url_value x in
    let k = url_value y in
    let l = url_value z in (i * 4 + j / 16) ∷ (j % 16 * 16 + k / 4) ∷ (k % 4 * 64 + l) ∷ decode s
decode (w ∷ x ∷ y ∷ []) =
    (url_value w * 4 + url_value x / 16) ∷ (url_value x % 16 * 16 + url_value y / 4) ∷ []
decode (w ∷ x ∷ []) = (url_value w * 4 + url_value x / 16) ∷ []
decode _ = []

abbrev pub IsByte : ℕ → Type 0
IsByte b = b < 256

url_value-url_char : (n : ℕ) → n < 64 → url_value (url_char n) ≡ n
url_value-url_char n h = ground arith

decode-encode : (s : Text) → All IsByte s → decode (encode s) ≡ s
unfolding encode decode
decode-encode [] h = refl
decode-encode (a ∷ []) h =
    rw (url_value-url_char (a / 4) (omega arith), url_value-url_char (a % 4 * 16) (omega arith))
      (ground arith)
decode-encode (a ∷ b ∷ []) h =
    rw
      (
        url_value-url_char (a / 4) (omega arith),
        url_value-url_char (a % 4 * 16 + b / 16) (omega arith),
        url_value-url_char (b % 16 * 4) (omega arith),
      )
      (ground arith)
decode-encode (a ∷ b ∷ c ∷ s) h =
    rw
      (
        url_value-url_char (a / 4) (omega arith),
        url_value-url_char (a % 4 * 16 + b / 16) (omega arith),
        url_value-url_char (b % 16 * 4 + c / 64) (omega arith),
        url_value-url_char (c % 64) (omega arith),
      )
      (ground (arith, decode-encode s h.1.1.1))

-- No two byte sequences share an encoding.
pub encode_injective : (s t : Text) → All IsByte s → All IsByte t → encode s ≡ encode t → s ≡ t
encode_injective s t h k e = sym (decode-encode s h) ∙ ap decode e ∙ decode-encode t k

pub length-encode : (s : Text) → length (encode s) ≡ (4 * length s + 2) / 3
unfolding encode
length-encode [] = omega arith
length-encode (a ∷ []) = omega arith
length-encode (a ∷ b ∷ []) = omega arith
length-encode (a ∷ b ∷ c ∷ s) = omega (arith, length-encode s)

-- Letters, digits, `-` and `_`.
abbrev pub IsUrlSafe : ℕ → Type 0
IsUrlSafe c =
    ((b'A' ≤ c) × (c ≤ b'Z'))
    ⊎ ((b'a' ≤ c) × (c ≤ b'z'))
    ⊎ ((b'0' ≤ c) × (c ≤ b'9'))
    ⊎ (c ≡ b'-')
    ⊎ (c ≡ b'_')

url_char-IsUrlSafe : (n : ℕ) → n < 64 → IsUrlSafe (url_char n)
url_char-IsUrlSafe n h = ground arith

pub encode-IsUrlSafe : (s : Text) → All IsByte s → All IsUrlSafe (encode s)
unfolding encode
encode-IsUrlSafe [] h = tt
encode-IsUrlSafe (a ∷ []) h =
    (url_char-IsUrlSafe (a / 4) (omega arith), (url_char-IsUrlSafe (a % 4 * 16) (omega arith), tt))
encode-IsUrlSafe (a ∷ b ∷ []) h = (
  url_char-IsUrlSafe (a / 4) (omega arith),
  (
    url_char-IsUrlSafe (a % 4 * 16 + b / 16) (omega arith),
    (url_char-IsUrlSafe (b % 16 * 4) (omega arith), tt),
  ),
)
encode-IsUrlSafe (a ∷ b ∷ c ∷ s) h = (
  url_char-IsUrlSafe (a / 4) (omega arith),
  (
    url_char-IsUrlSafe (a % 4 * 16 + b / 16) (omega arith),
    (
      url_char-IsUrlSafe (b % 16 * 4 + c / 64) (omega arith),
      (url_char-IsUrlSafe (c % 64) (omega arith), encode-IsUrlSafe s h.1.1.1),
    ),
  ),
)

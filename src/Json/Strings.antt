-- ===== src/Json/Strings.antt =====
-- How `json.Marshal` writes a string: HTML characters and line separators escaped, stray bytes
-- replaced; and a reader of such strings.
use esignet_relay_authentica.Prelude.{
  ℕ, zero, suc, ◌+◌, ◌-◌, ◌*◌, ◌/◌, ◌%◌, Bool, ◌&&◌, ◌||◌, not, Option, none, some, List, [], ◌∷◌,
  ◌++◌, ltb, leb, eqb, if◌then◌else◌, length,
}
use esignet_relay_authentica.Text.{Text, txt, rune_error, pieces, pieces_from}

abbrev pub hex : ℕ → ℕ
hex d = if ltb d 10 then 48 + d else 87 + d

abbrev pub html_safe : ℕ → Bool
html_safe b =
    leb 0x20 b && not (eqb b b'"' || eqb b b'\\' || eqb b b'<' || eqb b b'>' || eqb b b'&')

unfoldable pub escape_byte : ℕ → Text
escape_byte b =
    if html_safe b
    then b ∷ []
    else (if eqb b b'"' || eqb b b'\\'
        then b'\\' ∷ b ∷ []
        else (if eqb b 8
            then b'\\' ∷ b'b' ∷ []
            else (if eqb b 12
                then b'\\' ∷ b'f' ∷ []
                else (if eqb b 10
                    then b'\\' ∷ b'n' ∷ []
                    else (if eqb b 13
                        then b'\\' ∷ b'r' ∷ []
                        else (if eqb b 9
                            then b'\\' ∷ b't' ∷ []
                            else b'\\' ∷ b'u' ∷ b'0' ∷ b'0' ∷ hex (b / 16) ∷ hex (b % 16) ∷ []))))))

unfoldable pub escape_piece : ℕ × Text → Text
unfolding escape_byte
escape_piece (r, bs) =
    if ltb r 0x80
    then escape_byte r
    else (if eqb r rune_error && eqb (length bs) 1
        then txt "\\ufffd"
        else (if eqb r 0x2028 || eqb r 0x2029
            then b'\\' ∷ b'u' ∷ b'2' ∷ b'0' ∷ b'2' ∷ hex (r % 16) ∷ []
            else bs))

abbrev pub escape_pieces : List (ℕ × Text) → Text
escape_pieces [] = []
escape_pieces (p ∷ ps) = escape_piece p ++ escape_pieces ps

-- A JSON string literal.
unfoldable pub quote : Text → Text
unfolding escape_piece pieces_from
quote s = b'"' ∷ (escape_pieces (pieces s) ++ b'"' ∷ [])

abbrev pub unhex : ℕ → ℕ
unhex c = if ltb c 58 then c - 48 else c - 87

abbrev pub encode_rune : ℕ → Text
encode_rune r =
    if ltb r 0x80
    then r ∷ []
    else (if ltb r 0x800
        then (0xc0 + r / 64) ∷ (0x80 + r % 64) ∷ []
        else (0xe0 + r / 4096) ∷ (0x80 + r / 64 % 64) ∷ (0x80 + r % 64) ∷ [])

abbrev pub short_escape : ℕ → Option (Text × ℕ)
short_escape c =
    if eqb c b'n'
    then some (10 ∷ [], 1)
    else (if eqb c b'r'
        then some (13 ∷ [], 1)
        else (if eqb c b't'
            then some (9 ∷ [], 1)
            else (if eqb c b'b'
                then some (8 ∷ [], 1)
                else (if eqb c b'f' then some (12 ∷ [], 1) else some (c ∷ [], 1)))))

abbrev pub read_unicode : Text → Option (Text × ℕ)
read_unicode (a ∷ b ∷ d ∷ e ∷ s) =
    some (encode_rune (unhex a * 4096 + unhex b * 256 + unhex d * 16 + unhex e), 5)
read_unicode _ = none

-- What an escape stands for, and the bytes that it takes behind the backslash.
read_escape : Text → Option (Text × ℕ)
read_escape [] = none
read_escape (c ∷ s) = if eqb c b'u' then read_unicode s else short_escape c

abbrev pub push : Text → Option (Text × Text) → Option (Text × Text)
push bs none = none
push bs (some (s, rest)) = some (bs ++ s, rest)

-- The reader behind an opening quote: the text and what follows the closing quote.
unfoldable pub unquote_from : ℕ → Text → Option (Text × Text)
unfolding read_escape
unquote_from skip [] = none
unquote_from (suc skip) (b ∷ s) = unquote_from skip s
unquote_from zero (b ∷ s) =
    let escape = read_escape s in
    let long = unquote_from 5 s in
    let short = unquote_from 1 s in
    let next = unquote_from zero s in
    if eqb b b'"'
    then some ([], s)
    else (if eqb b b'\\'
        then elim escape [
          | none ↦ none
          | some (bs, n) ↦ if eqb n 5 then push bs long else push bs short
        ]
        else push (b ∷ []) next)

unfoldable pub unquote : Text → Option (Text × Text)
unfolding unquote_from
unquote [] = none
unquote (b ∷ s) = if eqb b b'"' then unquote_from zero s else none

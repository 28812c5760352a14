-- ===== src/Config/Checks.antt =====
-- The checks on single values: fields, scopes, claims, endpoints and addresses.
use esignet_relay_authentica.Prelude.{
  ℕ, ◌+◌, ◌-◌, ◌*◌, ◌^◌, Bool, true, false, ◌&&◌, ◌||◌, not, Option, none, some, List, [], ◌∷◌, ltb,
  leb, eqb, if◌then◌else◌, ◌==◌, length, all, any, contains, ℤ, pos, negsuc,
}
use esignet_relay_authentica.Text.{Text, txt, text_eq, is_empty, runes, split_on, join}

abbrev pub between : ℕ → ℕ → ℕ → Bool
between lo hi r = leb lo r && leb r hi

abbrev pub field_rune : ℕ → Bool
field_rune r =
    between b'a' b'z' r
    || between b'A' b'Z' r
    || between b'0' b'9' r
    || eqb r b'_'
    || eqb r b'-'
    || eqb r b'.'

unfoldable pub valid_field : Text → Bool
valid_field s = not (is_empty s) && all field_rune (runes s)

-- The bytes of RFC 6749's scope-token.
abbrev pub scope_byte : ℕ → Bool
scope_byte b = eqb b 0x21 || between 0x23 0x5b b || between 0x5d 0x7e b

unfoldable pub valid_scope_token : Text → Bool
valid_scope_token scope = not (is_empty scope) && all scope_byte scope

-- The loop of `validScopes`, with the scopes that it has seen.
unfoldable pub valid_scopes_from : List Text → List Text → Bool
valid_scopes_from seen [] = true
valid_scopes_from seen (scope ∷ scopes) =
    leb (length scope) 256
    && valid_scope_token scope
    && not (contains seen scope)
    && valid_scopes_from (scope ∷ seen) scopes

unfoldable pub valid_scopes : List Text → Bool
valid_scopes scopes =
    not (is_empty scopes)
    && leb (length scopes) 32
    && valid_scopes_from [] scopes
    && leb (length (join (txt " ") scopes)) 4096

unfoldable pub parse_scope : Text → Option (List Text)
parse_scope scope =
    if is_empty scope || ltb 4096 (length scope)
    then none
    else (let values = split_on b' ' scope in
        if all valid_scope_token values then some values else none)

unfoldable pub reserved_claim : Text → Bool
reserved_claim s =
    contains
      (txt "iss"
        ∷ txt "aud"
        ∷ txt "exp"
        ∷ txt "iat"
        ∷ txt "nbf"
        ∷ txt "jti"
        ∷ txt "nonce"
        ∷ txt "auth_time"
        ∷ txt "acr"
        ∷ txt "amr"
        ∷ txt "azp"
        ∷ txt "at_hash"
        ∷ txt "c_hash"
        ∷ txt "sid"
        ∷ txt "cnf"
        ∷ txt "verified_claims"
        ∷ [])
      s

-- What `url.Parse` returns, as far as the source looks at it.
pub record Url : Type 0 where
  pub scheme : Text
  pub host : Text
  pub has_user : Bool
  pub fragment : Text
  pub raw_query : Text

-- The parsers of Go's network libraries that validation calls.
pub record Net : Type 0 where
  pub parse_url : Text → Option Url
  pub split_host_port : Text → Option (Text × Text)
  -- `ip := net.ParseIP(host)` is an address, and `ip.IsLoopback()`.
  pub is_loopback : Text → Bool

unfoldable pub valid_endpoint : Net → Text → Bool → Bool
valid_endpoint net s insecure = elim (net.parse_url s) [
  | none ↦ false
  | some u ↦
      not (is_empty u.host)
      && not u.has_user
      && is_empty u.fragment
      && is_empty u.raw_query
      && (u.scheme == txt "https" || insecure && u.scheme == txt "http")
]

unfoldable pub valid_resource : Net → Text → Bool
valid_resource net s = elim (net.parse_url s) [
  | none ↦ false
  | some u ↦
      leb (length s) 4096 && not (is_empty u.scheme) && not (any (eqb b'#') s) && not u.has_user
]

-- The digits of `strconv.Atoi`.
digits_from : ℕ → Text → Option ℕ
digits_from n [] = some n
digits_from n (d ∷ ds) = if between b'0' b'9' d then digits_from (n * 10 + (d - b'0')) ds else none

digits : Text → Option ℕ
unfolding digits_from
digits [] = none
digits (d ∷ ds) = digits_from 0 (d ∷ ds)

abbrev in_int64 : Option ℕ → Option ℤ
in_int64 none = none
in_int64 (some n) = if ltb n (2 ^ 63) then some (pos n) else none

abbrev in_int64_negated : Option ℕ → Option ℤ
in_int64_negated none = none
in_int64_negated (some n) =
    if eqb n 0 then some (pos 0) else (if leb n (2 ^ 63) then some (negsuc (n - 1)) else none)

unfoldable pub atoi : Text → Option ℤ
unfolding digits
atoi [] = none
atoi (c ∷ s) =
    if eqb c b'-'
    then in_int64_negated (digits s)
    else (if eqb c b'+' then in_int64 (digits s) else in_int64 (digits (c ∷ s)))

abbrev valid_port : Option ℤ → Bool
valid_port none = false
valid_port (some (pos n)) = ltb 0 n && leb n 65535
valid_port (some (negsuc n)) = false

unfoldable pub valid_mailpit_address : Net → Text → Bool
valid_mailpit_address net address = elim (net.split_host_port address) [
  | none ↦ false
  | some (host, port) ↦
      leb (length address) 255
      && (host == txt "mailpit" || host == txt "localhost" || net.is_loopback host)
      && valid_port (atoi port)
]

-- `strings.Count` of a one-byte text.
unfoldable pub count : ℕ → Text → ℕ
count c [] = 0
count c (b ∷ s) = (if eqb b c then 1 else 0) + count c s

abbrev pub mail_forbidden : ℕ → Bool
mail_forbidden b =
    eqb b 13 || eqb b 10 || eqb b b'<' || eqb b b'>' || eqb b 0 || eqb b b' ' || eqb b 9

abbrev pub two_parts : List Text → Bool
two_parts (local ∷ domain ∷ rest) = not (is_empty local) && not (is_empty domain)
two_parts _ = false

unfoldable pub valid_mail_address : Text → Bool
valid_mail_address address =
    leb 3 (length address)
    && leb (length address) 254
    && eqb (count b'@' address) 1
    && not (any mail_forbidden address)
    && all (between 33 126) (runes address)
    && two_parts (split_on b'@' address)

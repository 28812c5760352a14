-- ===== src/Provider/Strays.antt =====
-- Subjects of contexts whose texts have stray bytes: `psut` is computed from the texts of the request
-- at first, and later from those that went through JSON.
use esignet_relay_authentica.Prelude.{
  ℕ, ◌+◌, ◌*◌, ◌≤◌, ◌<◌, ◌^◌, ◌≡◌, refl, sym, ap, ◌∙◌, ◌≢◌, Bool, true, false, not, ◌&&◌, some,
  List, [], ◌∷◌, ◌++◌, map, arith, ltb, lt→ltb, eqb, if◌then◌else◌, all, length, Bool-cases, inl,
  inr, Option-cases,
}
use esignet_relay_authentica.Text.{
  Text, txt, rune_error, pieces, join, sanitize, valid_utf8, cleaned, pieces-sanitize,
  sanitize_idempotent,
}
use esignet_relay_authentica.Types.{Time, Binding, ok}
use esignet_relay_authentica.Json.{Value, escape_piece, escape_pieces, quote, marshal_strings}
use esignet_relay_authentica.Config.{Config}
use esignet_relay_authentica.Provider.Psut.{AuthContext, psut_tuple}
use esignet_relay_authentica.Provider.Context.{
  context_map, decode_state, redecode, marshal_state, restore,
}
use esignet_relay_authentica.Provider.Restore.{opened, restore-IsRestored}

-- The bytes outside ASCII.
high : Text → ℕ
high [] = 0
high (b ∷ s) = (if ltb b 0x80 then 0 else 1) + high s

high-append : (s t : Text) → high (s ++ t) ≡ high s + high t
unfolding high
high-append [] t = omega arith
high-append (b ∷ s) t = omega (arith, high-append s t)

-- A stray byte counts one.
stray_byte : ℕ × Text → ℕ
stray_byte (r, bs) = if eqb r rune_error && eqb (length bs) 1 then 1 else 0

strays : List (ℕ × Text) → ℕ
strays [] = 0
strays (p ∷ ps) = stray_byte p + strays ps

abbrev is_stray : ℕ × Text → Bool
is_stray (r, bs) = eqb r rune_error && eqb (length bs) 1

escape_piece-stray :
    (r : ℕ) (bs : Text) → is_stray (r, bs) ≡ true → escape_piece (r, bs) ≡ txt "\\ufffd"
unfolding escape_piece
escape_piece-stray r bs t =
    let error : r ≡ rune_error = ground arith in
    let one : eqb (length bs) 1 ≡ true = ground arith in
    ap (λ r. escape_piece (r, bs)) error ∙ rw one refl

cleaned-stray :
    (r : ℕ) (bs : Text)
    → is_stray (r, bs) ≡ true
    → cleaned (r, bs) ≡ (rune_error, 0xef ∷ 0xbf ∷ 0xbd ∷ [])
cleaned-stray r bs t =
    let error : r ≡ rune_error = ground arith in rw t (ap (λ r. (r, 0xef ∷ 0xbf ∷ 0xbd ∷ [])) error)

cleaned-plain : (r : ℕ) (bs : Text) → is_stray (r, bs) ≡ false → cleaned (r, bs) ≡ (r, bs)
cleaned-plain r bs f = rw f refl

replacement :
    high (escape_piece (rune_error, 0xef ∷ 0xbf ∷ 0xbd ∷ [])) ≡ high (txt "\\ufffd") + 3 * 1
unfolding escape_piece high
replacement = refl

-- A stray byte is written as an ASCII escape, and its replacement as three bytes.
escape_piece-cleaned :
    (p : ℕ × Text) → high (escape_piece (cleaned p)) ≡ high (escape_piece p) + 3 * stray_byte p
unfolding stray_byte
escape_piece-cleaned (r, bs) = elim (Bool-cases (is_stray (r, bs))) [
  | inl t ↦
      ap (λ p. high (escape_piece p)) (cleaned-stray r bs t)
      ∙ replacement
      ∙ sym (rw t (ap (λ s. high s + 3 * 1) (escape_piece-stray r bs t)))
  | inr f ↦ ap (λ p. high (escape_piece p)) (cleaned-plain r bs f) ∙ rw f (omega arith)
]

escape_pieces-cleaned :
    (ps : List (ℕ × Text))
    → high (escape_pieces (map cleaned ps)) ≡ high (escape_pieces ps) + 3 * strays ps
unfolding high strays
escape_pieces-cleaned [] = omega arith
escape_pieces-cleaned (p ∷ ps) = omega (
  arith,
  high-append (escape_piece (cleaned p)) (escape_pieces (map cleaned ps)),
  high-append (escape_piece p) (escape_pieces ps),
  escape_piece-cleaned p,
  escape_pieces-cleaned ps,
)

quote-sanitize : (s : Text) → high (quote (sanitize s)) ≡ high (quote s) + 3 * strays (pieces s)
unfolding quote high
quote-sanitize s =
    let same = ap (λ ps. high (escape_pieces ps)) (pieces-sanitize s) in
    omega (
      arith,
      same,
      escape_pieces-cleaned (pieces s),
      high-append (escape_pieces (pieces (sanitize s))) (b'"' ∷ []),
      high-append (escape_pieces (pieces s)) (b'"' ∷ []),
    )

-- A text that is not valid has a stray byte.
some_stray :
    (ps : List (ℕ × Text))
    → all (λ p. not (eqb p.0 rune_error && eqb (length p.1) 1)) ps ≡ false
    → 1 ≤ strays ps
unfolding strays stray_byte
some_stray [] h = absurd (cc h)
some_stray ((r, bs) ∷ ps) h = ground (arith, some_stray ps)

invalid_stray : (s : Text) → valid_utf8 s ≡ false → 1 ≤ strays (pieces s)
unfolding valid_utf8
invalid_stray s h = some_stray (pieces s) h

total_strays : List Text → ℕ
total_strays [] = 0
total_strays (s ∷ ss) = strays (pieces s) + total_strays ss

invalid_total : (ss : List Text) → all valid_utf8 ss ≡ false → 1 ≤ total_strays ss
unfolding total_strays
invalid_total [] h = absurd (cc h)
invalid_total (s ∷ ss) h = ground (arith, invalid_total ss, invalid_stray s)

join-sanitize :
    (sep : Text) (ss : List Text)
    → high (join sep (map quote (map sanitize ss)))
      ≡ high (join sep (map quote ss)) + 3 * total_strays ss
unfolding join high total_strays
join-sanitize sep [] = omega arith
join-sanitize sep (s ∷ []) = omega (arith, quote-sanitize s)
join-sanitize sep (s ∷ t ∷ ss) =
    let rest = join sep (map quote (t ∷ ss)) in
    let clean = join sep (map quote (map sanitize (t ∷ ss))) in
    omega (
      arith,
      quote-sanitize s,
      join-sanitize sep (t ∷ ss),
      high-append (quote s) (sep ++ rest),
      high-append sep rest,
      high-append (quote (sanitize s)) (sep ++ clean),
      high-append sep clean,
    )

abbrev pub texts_of : AuthContext → List Text
texts_of s = s.relying_party_id ∷ s.client_id ∷ s.identifier_type ∷ s.identifier ∷ []

-- A context as it comes back from JSON.
unfoldable pub reread : AuthContext → AuthContext
reread s = record s {
  identifier = sanitize s.identifier;
  identifier_type = sanitize s.identifier_type;
  relying_party_id = sanitize s.relying_party_id;
  client_id = sanitize s.client_id;
  transaction_id = sanitize s.transaction_id;
}

abbrev domain : Text
domain = txt "registry-psut-v1"

high-marshal_strings :
    (ss : List Text) → high (marshal_strings ss) ≡ high (join (b',' ∷ []) (map quote ss))
unfolding marshal_strings high
high-marshal_strings ss = omega (arith, high-append (join (b',' ∷ []) (map quote ss)) (b']' ∷ []))

plain_domain : sanitize domain ≡ domain
unfolding sanitize
plain_domain = refl

psut_tuple-reread :
    (s : AuthContext)
    → high (psut_tuple (reread s)) ≡ high (psut_tuple s) + 3 * total_strays (domain ∷ texts_of s)
unfolding psut_tuple reread
psut_tuple-reread s =
    let ss = domain ∷ texts_of s in
    let clean = map sanitize (texts_of s) in
    high-marshal_strings (domain ∷ clean)
    ∙ ap (λ d. high (join (b',' ∷ []) (map quote (d ∷ clean)))) (sym plain_domain)
    ∙ join-sanitize (b',' ∷ []) ss
    ∙ ap (λ n. n + 3 * total_strays ss) (sym (high-marshal_strings ss))

-- With a text that is not valid the messages differ.
reread-differs :
    (s : AuthContext) → all valid_utf8 (texts_of s) ≡ false → psut_tuple (reread s) ≢ psut_tuple s
unfolding total_strays
reread-differs s h e =
    let same = ap high e in omega (arith, same, psut_tuple-reread s, invalid_total (texts_of s) h)

decode_state-reread :
    (since : ℕ) (id kind : Text) (b : Binding)
    → since + 300 < 2 ^ 53
    → decode_state (context_map (opened since id kind b)) ≡ some (reread (opened since id kind b))
unfolding context_map decode_state reread
decode_state-reread since id kind b h =
    rw (lt→ltb since (2 ^ 63) (omega (arith, h)), lt→ltb (since + 300) (2 ^ 63) (omega (arith, h)))
      (simp (
        sanitize_idempotent id,
        sanitize_idempotent kind,
        sanitize_idempotent b.relying_party_id,
        sanitize_idempotent b.client_id,
        sanitize_idempotent b.transaction_id,
      ))

redecode-decodes :
    (state : List (Text × Value)) (s : AuthContext)
    → redecode state ≡ some s
    → decode_state state ≡ some s
unfolding redecode
redecode-decodes state s h = elim (Option-cases (marshal_state state)) [
  | inl lost ↦ absurd (ground arith)
  | inr (raw, written) ↦ ground arith
]

-- If a context is restored that was opened for an identifier and a binding of which the identifier, its
-- type, the relying party or the client is not valid UTF-8, then its subject is the code of another
-- message than the subject that the login had.
pub restore-other_message :
    (c : Config) (now : Time) (since : ℕ) (id kind : Text) (b caller : Binding) (s : AuthContext)
    → since + 300 < 2 ^ 53
    → all valid_utf8 (texts_of (opened since id kind b)) ≡ false
    → restore c now (some (context_map (opened since id kind b))) caller ≡ ok s
    → psut_tuple s ≢ psut_tuple (opened since id kind b)
restore-other_message c now since id kind b caller s fits invalid h e =
    let k = restore-IsRestored c now (some (context_map (opened since id kind b))) caller s h in
    let same : k.members ≡ context_map (opened since id kind b) = cc (k.given) in
    let read = redecode-decodes k.members s k.decoded in
    let is : reread (opened since id kind b) ≡ s =
      cc (decode_state-reread since id kind b fits, read, same) in
    reread-differs (opened since id kind b) invalid (ap psut_tuple is ∙ e)

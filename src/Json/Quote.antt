-- ===== src/Json/Quote.antt =====
-- Reading a quoted string gives the string back, stray bytes replaced.
use esignet_relay_authentica.Prelude.{
  ℕ, zero, ◌+◌, ◌*◌, ◌/◌, ◌%◌, ◌≤◌, ◌<◌, ◌≡◌, refl, sym, ap, subst, ◌∙◌, true, false, ◌||◌, Option,
  none, some, List, [], ◌∷◌, ◌++◌, eqb, arith, append_assoc, append-nil, All, Bool-cases, inl, inr,
  if_elim,
}
use esignet_relay_authentica.Text.{
  Text, rune_error, pieces, IsPiece, ascii, stray, long, pieces_IsPiece, clean_piece, clean,
  sanitize,
}
use esignet_relay_authentica.Json.Strings.{
  hex, html_safe, escape_byte, escape_piece, escape_pieces, quote, unquote_from, unquote, push,
  unhex, encode_rune,
}

push-push : (a b : Text) (o : Option (Text × Text)) → push a (push b o) ≡ push (a ++ b) o
push-push a b none = refl
push-push a b (some (s, r)) = ap (λ (t : Text). some (t, r)) (sym (append_assoc a b s))

push-nil : (o : Option (Text × Text)) → push [] o ≡ o
push-nil none = refl
push-nil (some (s, r)) = refl

-- A byte outside ASCII, or one that needs no escape, reads as itself.
unquote_plain :
    (b : ℕ) (s : Text)
    → eqb b b'"' ≡ false
    → eqb b b'\\' ≡ false
    → unquote_from zero (b ∷ s) ≡ push (b ∷ []) (unquote_from zero s)
unfolding unquote_from
unquote_plain b s h k = rw (h, k)

unquote_high :
    (bs s : Text)
    → All (λ b. 0x80 ≤ b) bs
    → unquote_from zero (bs ++ s) ≡ push bs (unquote_from zero s)
unquote_high [] s h = sym (push-nil (unquote_from zero s))
unquote_high (b ∷ bs) s h =
    unquote_plain b (bs ++ s) (ground arith) (ground arith)
    ∙ ap (push (b ∷ [])) (unquote_high bs s h.1)
    ∙ push-push (b ∷ []) bs (unquote_from zero s)

-- `e` is a way to write the bytes `bs` inside a string.
abbrev Writes : Text → Text → Type 0
Writes bs e = (s : Text) → unquote_from zero (e ++ s) ≡ push bs (unquote_from zero s)

abbrev four_digits : ℕ → ℕ
four_digits b =
    unhex b'0' * 4096 + unhex b'0' * 256 + unhex (hex (b / 16)) * 16 + unhex (hex (b % 16))

four_digits_lem : (b : ℕ) → b < 0x80 → four_digits b ≡ b
four_digits_lem b h = ground arith

byte_code : (b : ℕ) → b < 0x80 → encode_rune (four_digits b) ≡ b ∷ []
byte_code b h = subst (λ k. encode_rune k ≡ b ∷ []) (sym (four_digits_lem b h)) (ground arith)

Writes-unicode :
    (b : ℕ)
    → b < 0x80
    → Writes (b ∷ []) (b'\\' ∷ b'u' ∷ b'0' ∷ b'0' ∷ hex (b / 16) ∷ hex (b % 16) ∷ [])
unfolding unquote_from
Writes-unicode b h s = ap (λ (bs : Text). push bs (unquote_from zero s)) (byte_code b h)

-- Where the byte is a known one, it is enough to look at that one.
at_byte : (P : ℕ → Type 0) (b k : ℕ) → eqb b k ≡ true → P k → P b
at_byte P b k e p = let same : k ≡ b = ground arith in subst P same p

Writes-quoted : (b : ℕ) → (eqb b b'"' || eqb b b'\\') ≡ true → Writes (b ∷ []) (b'\\' ∷ b ∷ [])
unfolding unquote_from
Writes-quoted b t = elim (Bool-cases (eqb b b'"')) [
  | inl mark ↦ at_byte (λ k. Writes (k ∷ []) (b'\\' ∷ k ∷ [])) b b'"' mark (λ s. refl)
  | inr other ↦ at_byte (λ k. Writes (k ∷ []) (b'\\' ∷ k ∷ [])) b b'\\' (ground arith) (λ s. refl)
]

Writes-escape_byte : (b : ℕ) → b < 0x80 → Writes (b ∷ []) (escape_byte b)
unfolding escape_byte unquote_from
Writes-escape_byte b h =
    if_elim W (html_safe b) (λ t s. unquote_plain b s (ground arith) (ground arith))
      λ _.
        if_elim W (eqb b b'"' || eqb b b'\\') (λ t. Writes-quoted b t)
          λ _. if_elim W (eqb b 8) (short b'b' 8 (λ s. refl)) λ _.
            if_elim W (eqb b 12) (short b'f' 12 (λ s. refl)) λ _.
              if_elim W (eqb b 10) (short b'n' 10 (λ s. refl)) λ _.
                if_elim W (eqb b 13) (short b'r' 13 (λ s. refl))
                  λ _. if_elim W (eqb b 9) (short b't' 9 (λ s. refl)) λ _. Writes-unicode b h
  where
    W : Text → Type 0
    W = Writes (b ∷ [])

    short :
        (c k : ℕ)
        → Writes (k ∷ []) (b'\\' ∷ c ∷ [])
        → eqb b k ≡ true
        → Writes (b ∷ []) (b'\\' ∷ c ∷ [])
    short c k reads e = at_byte (λ x. Writes (x ∷ []) (b'\\' ∷ c ∷ [])) b k e reads

Writes-long : (bs : Text) → All (λ b. 0x80 ≤ b) bs → Writes bs bs
Writes-long bs h s = unquote_high bs s h

Writes-separator :
    (r : ℕ) (bs : Text)
    → (r ≡ 0x2028 → bs ≡ 0xe2 ∷ 0x80 ∷ 0xa8 ∷ [])
    → (r ≡ 0x2029 → bs ≡ 0xe2 ∷ 0x80 ∷ 0xa9 ∷ [])
    → (eqb r 0x2028 || eqb r 0x2029) ≡ true
    → Writes bs (b'\\' ∷ b'u' ∷ b'2' ∷ b'0' ∷ b'2' ∷ hex (r % 16) ∷ [])
unfolding unquote_from
Writes-separator r bs line paragraph t = elim (Bool-cases (eqb r 0x2028)) [
  | inl e ↦
      at_byte (λ k. Writes bs (b'\\' ∷ b'u' ∷ b'2' ∷ b'0' ∷ b'2' ∷ hex (k % 16) ∷ [])) r 0x2028 e
        (rw (line (ground arith)) (λ s. refl))
  | inr other ↦
      at_byte (λ k. Writes bs (b'\\' ∷ b'u' ∷ b'2' ∷ b'0' ∷ b'2' ∷ hex (k % 16) ∷ [])) r 0x2029
        (ground arith) (rw (paragraph (ground arith)) (λ s. refl))
]

abbrev WritesPiece : ℕ × Text → Type 0
WritesPiece p = Writes (clean_piece p) (escape_piece p)

Writes-ascii : (b : ℕ) → b < 0x80 → WritesPiece (b, b ∷ [])
unfolding escape_piece
Writes-ascii b h =
    let clean : clean_piece (b, b ∷ []) ≡ b ∷ [] = ground arith in
    let plain : escape_piece (b, b ∷ []) ≡ escape_byte b = ground arith in
    rw (clean, plain) (Writes-escape_byte b h)

Writes-stray : (b : ℕ) → WritesPiece (rune_error, b ∷ [])
unfolding escape_piece unquote_from
Writes-stray b s = refl

Writes-encoded :
    (r a b : ℕ) (bs : Text)
    → All (λ c. 0x80 ≤ c) (a ∷ b ∷ bs)
    → 0x80 ≤ r
    → (r ≡ 0x2028 → a ∷ b ∷ bs ≡ 0xe2 ∷ 0x80 ∷ 0xa8 ∷ [])
    → (r ≡ 0x2029 → a ∷ b ∷ bs ≡ 0xe2 ∷ 0x80 ∷ 0xa9 ∷ [])
    → WritesPiece (r, a ∷ b ∷ bs)
unfolding escape_piece
Writes-encoded r a b bs high big line paragraph =
    let clean : clean_piece (r, a ∷ b ∷ bs) ≡ a ∷ b ∷ bs = ground arith in
    elim (Bool-cases (eqb r 0x2028 || eqb r 0x2029)) [
      | inl separator ↦
          let written : escape_piece (r, a ∷ b ∷ bs)
              ≡ b'\\' ∷ b'u' ∷ b'2' ∷ b'0' ∷ b'2' ∷ hex (r % 16) ∷ [] =
            ground arith in
          rw (clean, written) (Writes-separator r (a ∷ b ∷ bs) line paragraph separator)
      | inr other ↦
          let written : escape_piece (r, a ∷ b ∷ bs) ≡ a ∷ b ∷ bs = ground arith in
          rw (clean, written) (Writes-long (a ∷ b ∷ bs) high)
    ]

Writes-piece : (p : ℕ × Text) → IsPiece p → WritesPiece p
Writes-piece p (ascii b low e) = subst WritesPiece (sym e) (Writes-ascii b low)
Writes-piece p (stray b e) = subst WritesPiece (sym e) (Writes-stray b)
Writes-piece (r, bs) (long a b rest high big is line paragraph) =
    subst (λ (t : Text). WritesPiece (r, t)) (sym is)
      (Writes-encoded r a b rest high big (λ e. sym is ∙ line e) (λ e. sym is ∙ paragraph e))

Writes-pieces : (ps : List (ℕ × Text)) → All IsPiece ps → Writes (clean ps) (escape_pieces ps)
Writes-pieces [] h s = sym (push-nil (unquote_from zero s))
Writes-pieces (p ∷ ps) (h, hs) s =
    ap (unquote_from zero) (append_assoc (escape_piece p) (escape_pieces ps) s)
    ∙ Writes-piece p h (escape_pieces ps ++ s)
    ∙ ap (push (clean_piece p)) (Writes-pieces ps hs s)
    ∙ push-push (clean_piece p) (clean ps) (unquote_from zero s)

-- Reading what `json.Marshal` writes for a string gives the string with every stray byte replaced
-- by U+FFFD, and leaves what follows the literal.
pub unquote-quote : (s rest : Text) → unquote (quote s ++ rest) ≡ some (sanitize s, rest)
unfolding unquote quote sanitize
unquote-quote s rest =
    ap (unquote_from zero) (append_assoc (escape_pieces (pieces s)) (b'"' ∷ []) rest)
    ∙ Writes-pieces (pieces s) (pieces_IsPiece zero s) (b'"' ∷ rest)
    ∙ ap (λ (t : Text). some (t, rest)) (append-nil (clean (pieces s)))

-- Two literals with what follows them agree only if the texts do, up to stray bytes.
pub quote_injective :
    (s t : Text) {r u : Text} → quote s ++ r ≡ quote t ++ u → (sanitize s ≡ sanitize t) × (r ≡ u)
quote_injective s t {r} {u} h =
    let e : ◌≡◌ {A = Option (Text × Text)} (some (sanitize s, r)) (some (sanitize t, u)) =
      sym (unquote-quote s r) ∙ ap unquote h ∙ unquote-quote t u in
    (cc, cc)

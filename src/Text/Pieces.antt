-- ===== src/Text/Pieces.antt =====
-- What a text is cut into by decoding: ASCII characters, longer encodings, and stray bytes.
use esignet_relay_authentica.Prelude.{
  ℕ, zero, suc, ◌-◌, ◌≤◌, ◌<◌, ◌≡◌, refl, ap, ◌∙◌, not, Bool, true, ◌&&◌, List, [], ◌∷◌, ◌++◌,
  arith, ltb, if◌then◌else◌, if_elim, take, drop, all, All, length, eqb,
}
use esignet_relay_authentica.Text.Defs.{Text}
use esignet_relay_authentica.Text.Utf8.{
  rune_error, decode_rune, pieces_from, pieces, two, three, four, third_low, third_high, fourth_low,
  fourth_high, decode_rune_width, decode_rune_low, within,
}

abbrev AllHigh : Text → Type 0
AllHigh s = All (λ b. 0x80 ≤ b) s

pub data IsPiece (p : ℕ × Text) : Type 0 where
  ascii : (b : ℕ) → b < 0x80 → p ≡ (b, b ∷ []) → IsPiece p
  stray : (b : ℕ) → p ≡ (rune_error, b ∷ []) → IsPiece p
  long :
      (a b : ℕ) (bs : Text)
      → AllHigh (a ∷ b ∷ bs)
      → 0x80 ≤ p.0
      → p.1 ≡ a ∷ b ∷ bs
      → (p.0 ≡ 0x2028 → p.1 ≡ 0xe2 ∷ 0x80 ∷ 0xa8 ∷ [])
      → (p.0 ≡ 0x2029 → p.1 ≡ 0xe2 ∷ 0x80 ∷ 0xa9 ∷ [])
      → IsPiece p

-- The piece at the head of a text, for a decoded rune and width.
abbrev Heads : ℕ → Text → ℕ × ℕ → Type 0
Heads b s r = IsPiece (r.0, take r.1 (b ∷ s))

two-Heads : (b : ℕ) (s : Text) → 0xc2 ≤ b → b ≤ 0xdf → Heads b s (two b s)
unfolding two
two-Heads b [] h k = stray b refl
two-Heads b (c ∷ s) h k =
    if_elim (Heads b (c ∷ s)) (within 0x80 0xbf c)
      (λ t.
        long b c [] (omega arith, (ground arith, tt)) (omega arith) refl (λ e. absurd (omega arith))
          (λ e. absurd (omega arith)))
      (λ _. stray b refl)

three-Heads : (b : ℕ) (s : Text) → 0xe0 ≤ b → b ≤ 0xef → Heads b s (three b s)
unfolding three
three-Heads b [] h k = stray b refl
three-Heads b (c ∷ []) h k = stray b refl
three-Heads b (c ∷ d ∷ s) h k =
    if_elim (Heads b (c ∷ d ∷ s)) (within (third_low b) (third_high b) c && within 0x80 0xbf d)
      (λ t.
        long b c (d ∷ []) (omega arith, (ground arith, (ground arith, tt))) (ground arith) refl
          (λ e. ground arith) (λ e. ground arith))
      (λ _. stray b refl)

four-Heads : (b : ℕ) (s : Text) → 0xf0 ≤ b → b ≤ 0xf4 → Heads b s (four b s)
unfolding four
four-Heads b [] h k = stray b refl
four-Heads b (c ∷ []) h k = stray b refl
four-Heads b (c ∷ d ∷ []) h k = stray b refl
four-Heads b (c ∷ d ∷ e ∷ s) h k =
    if_elim (Heads b (c ∷ d ∷ e ∷ s))
      (within (fourth_low b) (fourth_high b) c && within 0x80 0xbf d && within 0x80 0xbf e)
      (λ t.
        long b c (d ∷ e ∷ []) (omega arith, (ground arith, (ground arith, (ground arith, tt))))
          (ground arith) refl (λ q. absurd (ground arith)) (λ q. absurd (ground arith)))
      (λ _. stray b refl)

decode_rune-Heads : (b : ℕ) (s : Text) → Heads b s (decode_rune b s)
unfolding decode_rune
decode_rune-Heads b s =
    if_elim (Heads b s) (ltb b 0x80) (λ t. ascii b (ground arith) refl)
      λ _.
        if_elim (Heads b s) (within 0xc2 0xdf b) (λ t. two-Heads b s (ground arith) (ground arith))
          λ _.
            if_elim (Heads b s) (within 0xe0 0xef b)
              (λ t. three-Heads b s (ground arith) (ground arith))
              λ _.
                if_elim (Heads b s) (within 0xf0 0xf4 b)
                  (λ t. four-Heads b s (ground arith) (ground arith)) λ _. stray b refl

pub pieces_IsPiece : (skip : ℕ) (s : Text) → All IsPiece (pieces_from skip s)
unfolding pieces_from
pieces_IsPiece skip [] = tt
pieces_IsPiece (suc skip) (b ∷ s) = pieces_IsPiece skip s
pieces_IsPiece zero (b ∷ s) = (decode_rune-Heads b s, pieces_IsPiece ((decode_rune b s).1 - 1) s)

take-append-drop : (n : ℕ) (s : Text) → take n s ++ drop n s ≡ s
take-append-drop zero s = refl
take-append-drop (suc n) [] = refl
take-append-drop (suc n) (b ∷ s) = ap (◌∷◌ b) (take-append-drop n s)

head_piece : (w b : ℕ) (s : Text) → 1 ≤ w → take w (b ∷ s) ++ drop (w - 1) s ≡ b ∷ s
head_piece zero b s h = absurd (omega arith)
head_piece (suc w) b s h =
    let e : suc w - 1 ≡ w = omega arith in rw e (ap (◌∷◌ b) (take-append-drop w s))

abbrev pub bytes_of : List (ℕ × Text) → Text
bytes_of [] = []
bytes_of (p ∷ ps) = p.1 ++ bytes_of ps

bytes_of-pieces_from : (skip : ℕ) (s : Text) → bytes_of (pieces_from skip s) ≡ drop skip s
unfolding pieces_from
bytes_of-pieces_from zero [] = refl
bytes_of-pieces_from (suc skip) [] = refl
bytes_of-pieces_from (suc skip) (b ∷ s) = bytes_of-pieces_from skip s
bytes_of-pieces_from zero (b ∷ s) =
    let r = decode_rune b s in
    ap (λ (t : Text). take r.1 (b ∷ s) ++ t) (bytes_of-pieces_from (r.1 - 1) s)
    ∙ head_piece r.1 b s (decode_rune_width b s)

-- No byte is lost or moved by decoding.
pub bytes_of-pieces : (s : Text) → bytes_of (pieces s) ≡ s
bytes_of-pieces s = bytes_of-pieces_from zero s

-- Every stray byte replaced by the encoding of U+FFFD.
abbrev pub clean_piece : ℕ × Text → Text
clean_piece (r, bs) = if eqb r rune_error && eqb (length bs) 1 then 0xef ∷ 0xbf ∷ 0xbd ∷ [] else bs

abbrev pub clean : List (ℕ × Text) → Text
clean [] = []
clean (p ∷ ps) = clean_piece p ++ clean ps

-- `strings.ToValidUTF8` with U+FFFD for each stray byte.
unfoldable pub sanitize : Text → Text
unfolding pieces_from
sanitize s = clean (pieces s)

-- `utf8.ValidString`.
unfoldable pub valid_utf8 : Text → Bool
unfolding pieces_from
valid_utf8 s = all (λ p. not (eqb p.0 rune_error && eqb (length p.1) 1)) (pieces s)

clean-bytes_of :
    (ps : List (ℕ × Text))
    → all (λ p. not (eqb p.0 rune_error && eqb (length p.1) 1)) ps ≡ true
    → clean ps ≡ bytes_of ps
clean-bytes_of [] h = refl
clean-bytes_of ((r, bs) ∷ ps) h = ground (arith, clean-bytes_of ps)

pub sanitize_valid : (s : Text) → valid_utf8 s ≡ true → sanitize s ≡ s
unfolding sanitize valid_utf8
sanitize_valid s h = clean-bytes_of (pieces s) h ∙ bytes_of-pieces s

-- ASCII is valid.
valid_ascii : (s : Text) → All (λ b. b < 0x80) s → valid_utf8 s ≡ true
unfolding valid_utf8 pieces_from
valid_ascii [] h = refl
valid_ascii (b ∷ s) h = rw (decode_rune_low b s h.0) (ground (arith, valid_ascii s h.1))

pub sanitize_ascii : (s : Text) → All (λ b. b < 0x80) s → sanitize s ≡ s
sanitize_ascii s h = sanitize_valid s (valid_ascii s h)

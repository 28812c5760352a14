-- ===== src/Text/Cleaned.antt =====
-- The pieces of a text whose stray bytes were replaced: the same, with the replacements whole.
use esignet_relay_authentica.Prelude.{
  ℕ, zero, suc, ◌-◌, ◌≤◌, ◌<◌, ◌≡◌, refl, sym, subst, ap, ◌∙◌, true, false, not, ◌&&◌, List, [],
  ◌∷◌, ◌++◌, map, arith, ltb, eqb, if_elim, take, all, length,
}
use esignet_relay_authentica.Text.Defs.{Text}
use esignet_relay_authentica.Text.Utf8.{
  rune_error, decode_rune, decode_rune_low, pieces_from, pieces, two, three, four, third_low,
  third_high, fourth_low, fourth_high, within,
}
use esignet_relay_authentica.Text.Pieces.{clean_piece, clean, sanitize, valid_utf8, sanitize_valid}

-- The ways to start: ASCII, a stray byte, or an encoding that is read the same whatever follows it.
data Start (b : ℕ) (s : Text) (r : ℕ × ℕ) : Type 0 where
  low : b < 0x80 → r ≡ (b, 1) → Start b s r
  bad : r ≡ (rune_error, 1) → Start b s r
  long :
      (bs tail : Text)
      → s ≡ bs ++ tail
      → 1 ≤ length bs
      → r.1 ≡ suc (length bs)
      → ((rest : Text) → decode_rune b (bs ++ rest) ≡ r)
      → Start b s r

module _ (b : ℕ) where
  is_two : (s : Text) → 0xc2 ≤ b → b ≤ 0xdf → decode_rune b s ≡ two b s
  unfolding decode_rune
  is_two s h k = ground arith

  is_three : (s : Text) → 0xe0 ≤ b → b ≤ 0xef → decode_rune b s ≡ three b s
  unfolding decode_rune
  is_three s h k = ground arith

  is_four : (s : Text) → 0xf0 ≤ b → b ≤ 0xf4 → decode_rune b s ≡ four b s
  unfolding decode_rune
  is_four s h k = ground arith

  two-Start : (s : Text) → 0xc2 ≤ b → b ≤ 0xdf → Start b s (two b s)
  unfolding two
  two-Start [] h k = bad refl
  two-Start (c ∷ s) h k =
      if_elim (Start b (c ∷ s)) (within 0x80 0xbf c)
        (λ t. long (c ∷ []) s refl (omega arith) refl (λ rest. is_two (c ∷ rest) h k ∙ rw t refl))
        (λ _. bad refl)

  three-Start : (s : Text) → 0xe0 ≤ b → b ≤ 0xef → Start b s (three b s)
  unfolding three
  three-Start [] h k = bad refl
  three-Start (c ∷ []) h k = bad refl
  three-Start (c ∷ d ∷ s) h k =
      if_elim (Start b (c ∷ d ∷ s)) (within (third_low b) (third_high b) c && within 0x80 0xbf d)
        (λ t.
          long (c ∷ d ∷ []) s refl (omega arith) refl
            (λ rest. is_three (c ∷ d ∷ rest) h k ∙ rw t refl))
        (λ _. bad refl)

  four-Start : (s : Text) → 0xf0 ≤ b → b ≤ 0xf4 → Start b s (four b s)
  unfolding four
  four-Start [] h k = bad refl
  four-Start (c ∷ []) h k = bad refl
  four-Start (c ∷ d ∷ []) h k = bad refl
  four-Start (c ∷ d ∷ e ∷ s) h k =
      if_elim (Start b (c ∷ d ∷ e ∷ s))
        (within (fourth_low b) (fourth_high b) c && within 0x80 0xbf d && within 0x80 0xbf e)
        (λ t.
          long (c ∷ d ∷ e ∷ []) s refl (omega arith) refl
            (λ rest. is_four (c ∷ d ∷ e ∷ rest) h k ∙ rw t refl))
        (λ _. bad refl)

  decode_rune-Start : (s : Text) → Start b s (decode_rune b s)
  unfolding decode_rune
  decode_rune-Start s =
      if_elim (Start b s) (ltb b 0x80) (λ t. low (ground arith) refl)
        λ _.
          if_elim (Start b s) (within 0xc2 0xdf b) (λ t. two-Start s (ground arith) (ground arith))
            λ _.
              if_elim (Start b s) (within 0xe0 0xef b)
                (λ t. three-Start s (ground arith) (ground arith))
                λ _.
                  if_elim (Start b s) (within 0xf0 0xf4 b)
                    (λ t. four-Start s (ground arith) (ground arith)) λ _. bad refl

-- A piece with its replacement.
abbrev pub cleaned : ℕ × Text → ℕ × Text
cleaned (r, bs) = (r, clean_piece (r, bs))

take-whole : (bs tail : Text) → take (length bs) (bs ++ tail) ≡ bs
take-whole [] tail = refl
take-whole (b ∷ bs) tail = ap (◌∷◌ b) (take-whole bs tail)

pieces_from-skip : (bs rest : Text) → pieces_from (length bs) (bs ++ rest) ≡ pieces_from 0 rest
unfolding pieces_from
pieces_from-skip [] rest = refl
pieces_from-skip (b ∷ bs) rest = pieces_from-skip bs rest

-- One more piece in front.
next : ℕ → Text → ℕ × ℕ → List (ℕ × Text)
next b s r = (r.0, take r.1 (b ∷ s)) ∷ pieces_from (r.1 - 1) s

pieces_from-next : (b : ℕ) (s : Text) → pieces_from 0 (b ∷ s) ≡ next b s (decode_rune b s)
unfolding pieces_from next
pieces_from-next b s = refl

Cleans : ℕ × Text → Type 0
Cleans p = (rest : Text) → pieces_from 0 (clean_piece p ++ rest) ≡ cleaned p ∷ pieces_from 0 rest

low-Cleans : (b : ℕ) → b < 0x80 → Cleans (b, b ∷ [])
unfolding Cleans next
low-Cleans b h rest =
    let plain : eqb b rune_error ≡ false = ground arith in
    rw plain (pieces_from-next b rest ∙ ap (next b rest) (decode_rune_low b rest h))

bad-Cleans : (b : ℕ) → Cleans (rune_error, b ∷ [])
unfolding Cleans pieces_from
bad-Cleans b rest = refl

next-long :
    (q b : ℕ) (bs rest : Text)
    → next b (bs ++ rest) (q, suc (length bs)) ≡ (q, b ∷ bs) ∷ pieces_from 0 rest
unfolding next
next-long q b bs rest =
    let less : suc (length bs) - 1 ≡ length bs = omega arith in
    rw (less, take-whole bs rest, pieces_from-skip bs rest) refl

long-Cleans :
    (b : ℕ) (bs : Text) (r : ℕ × ℕ)
    → 1 ≤ length bs
    → r.1 ≡ suc (length bs)
    → ((rest : Text) → decode_rune b (bs ++ rest) ≡ r)
    → Cleans (r.0, b ∷ bs)
unfolding Cleans next
long-Cleans b bs r n w d rest =
    let plain : (eqb r.0 rune_error && eqb (length (b ∷ bs)) 1) ≡ false = ground arith in
    rw plain (
      pieces_from-next b (bs ++ rest)
      ∙ ap (next b (bs ++ rest)) (d rest)
      ∙ ap (λ w. next b (bs ++ rest) (r.0, w)) w
      ∙ next-long r.0 b bs rest)

start-Cleans : (b : ℕ) (s : Text) (r : ℕ × ℕ) → Start b s r → Cleans (r.0, take r.1 (b ∷ s))
start-Cleans b s r (low h e) = subst (λ r. Cleans (r.0, take r.1 (b ∷ s))) (sym e) (low-Cleans b h)
start-Cleans b s r (bad e) = subst (λ r. Cleans (r.0, take r.1 (b ∷ s))) (sym e) (bad-Cleans b)
start-Cleans b s r (long bs tail whole n w d) =
    let piece : take r.1 (b ∷ s) ≡ b ∷ bs =
      ap (λ n. take n (b ∷ s)) w
      ∙ ap (λ s. take (suc (length bs)) (b ∷ s)) whole
      ∙ ap (◌∷◌ b) (take-whole bs tail) in
    subst (λ t. Cleans (r.0, t)) (sym piece) (long-Cleans b bs r n w d)

-- The pieces of a cleaned text are those of the text, cleaned.
pieces_from-clean :
    (skip : ℕ) (s : Text)
    → pieces_from 0 (clean (pieces_from skip s)) ≡ map cleaned (pieces_from skip s)
unfolding pieces_from Cleans
pieces_from-clean skip [] = refl
pieces_from-clean (suc skip) (b ∷ s) = pieces_from-clean skip s
pieces_from-clean zero (b ∷ s) =
    let r = decode_rune b s in
    start-Cleans b s r (decode_rune-Start b s) (clean (pieces_from (r.1 - 1) s))
    ∙ ap (◌∷◌ (cleaned (r.0, take r.1 (b ∷ s)))) (pieces_from-clean (r.1 - 1) s)

pub pieces-sanitize : (s : Text) → pieces (sanitize s) ≡ map cleaned (pieces s)
unfolding sanitize
pieces-sanitize s = pieces_from-clean 0 s

cleaned-valid :
    (ps : List (ℕ × Text))
    → all (λ p. not (eqb p.0 rune_error && eqb (length p.1) 1)) (map cleaned ps) ≡ true
cleaned-valid [] = refl
cleaned-valid ((r, bs) ∷ ps) = ground (arith, cleaned-valid ps)

-- A text whose stray bytes were replaced is valid, and stays as it is.
pub sanitize-valid_utf8 : (s : Text) → valid_utf8 (sanitize s) ≡ true
unfolding valid_utf8
sanitize-valid_utf8 s =
    ap (all (λ p. not (eqb p.0 rune_error && eqb (length p.1) 1))) (pieces-sanitize s)
    ∙ cleaned-valid (pieces s)

pub sanitize_idempotent : (s : Text) → sanitize (sanitize s) ≡ sanitize s
sanitize_idempotent s = sanitize_valid (sanitize s) (sanitize-valid_utf8 s)

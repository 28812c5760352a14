-- ===== src/Text/Utf8.antt =====
-- `unicode/utf8.DecodeRune`, and the runes that `for _, r := range s` yields.
use esignet_relay_authentica.Prelude.{
  ℕ, zero, suc, ◌+◌, ◌-◌, ◌*◌, ◌%◌, ◌≤◌, ◌<◌, ◌≡◌, refl, inl, inr, Bool, false, ◌&&◌, List, [], ◌∷◌,
  map, arith, ltb, leb, if◌then◌else◌, take, all, All, Bool-cases,
}
use esignet_relay_authentica.Text.Defs.{Text, is_empty}

abbrev pub within : ℕ → ℕ → ℕ → Bool
within lo hi b = leb lo b && leb b hi

-- A rune and the number of bytes that it took.
abbrev pub rune_error : ℕ
rune_error = 0xfffd

unfoldable pub two : ℕ → Text → ℕ × ℕ
two b0 [] = (rune_error, 1)
two b0 (b1 ∷ _) = if within 0x80 0xbf b1 then ((b0 % 32) * 64 + b1 % 64, 2) else (rune_error, 1)

abbrev pub third_low : ℕ → ℕ
third_low b0 = if within 0xe0 0xe0 b0 then 0xa0 else 0x80

abbrev pub third_high : ℕ → ℕ
third_high b0 = if within 0xed 0xed b0 then 0x9f else 0xbf

unfoldable pub three : ℕ → Text → ℕ × ℕ
three b0 (b1 ∷ b2 ∷ _) =
    if within (third_low b0) (third_high b0) b1 && within 0x80 0xbf b2
    then ((b0 % 16) * 4096 + (b1 % 64) * 64 + b2 % 64, 3)
    else (rune_error, 1)
three b0 _ = (rune_error, 1)

abbrev pub fourth_low : ℕ → ℕ
fourth_low b0 = if within 0xf0 0xf0 b0 then 0x90 else 0x80

abbrev pub fourth_high : ℕ → ℕ
fourth_high b0 = if within 0xf4 0xf4 b0 then 0x8f else 0xbf

unfoldable pub four : ℕ → Text → ℕ × ℕ
four b0 (b1 ∷ b2 ∷ b3 ∷ _) =
    if within (fourth_low b0) (fourth_high b0) b1 && within 0x80 0xbf b2 && within 0x80 0xbf b3
    then ((b0 % 8) * 262144 + (b1 % 64) * 4096 + (b2 % 64) * 64 + b3 % 64, 4)
    else (rune_error, 1)
four b0 _ = (rune_error, 1)

unfoldable pub decode_rune : ℕ → Text → ℕ × ℕ
decode_rune b0 s =
    if ltb b0 0x80
    then (b0, 1)
    else (if within 0xc2 0xdf b0
        then two b0 s
        else (if within 0xe0 0xef b0
            then three b0 s
            else (if within 0xf0 0xf4 b0 then four b0 s else (rune_error, 1))))

-- The runes of a text, each with its bytes; `skip` bytes belong to the rune before.
unfoldable pub pieces_from : ℕ → Text → List (ℕ × Text)
unfolding decode_rune two three four
pieces_from skip [] = []
pieces_from (suc skip) (b ∷ s) = pieces_from skip s
pieces_from zero (b ∷ s) =
    let r = decode_rune b s in (r.0, take r.1 (b ∷ s)) ∷ pieces_from (r.1 - 1) s

abbrev pub pieces : Text → List (ℕ × Text)
pieces s = pieces_from zero s

abbrev pub runes : Text → List ℕ
runes s = map (λ (p : ℕ × Text). p.0) (pieces s)

two_high : (b0 : ℕ) (s : Text) → 0xc2 ≤ b0 → b0 ≤ 0xdf → 0x80 ≤ (two b0 s).0
unfolding two
two_high b0 [] h k = omega arith
two_high b0 (b1 ∷ s) h k = ground arith

three_high : (b0 : ℕ) (s : Text) → 0xe0 ≤ b0 → b0 ≤ 0xef → 0x80 ≤ (three b0 s).0
unfolding three
three_high b0 (b1 ∷ b2 ∷ s) h k = ground arith
three_high b0 _ h k = omega arith

four_high : (b0 : ℕ) (s : Text) → 0xf0 ≤ b0 → b0 ≤ 0xf4 → 0x80 ≤ (four b0 s).0
unfolding four
four_high b0 (b1 ∷ b2 ∷ b3 ∷ s) h k = ground arith
four_high b0 _ h k = omega arith

-- A byte outside ASCII never starts an ASCII rune.
pub decode_rune_high : (b : ℕ) (s : Text) → 0x80 ≤ b → 0x80 ≤ (decode_rune b s).0
unfolding decode_rune
decode_rune_high b s h = ground (arith, two_high b s, three_high b s, four_high b s)

pub decode_rune_low : (b : ℕ) (s : Text) → b < 0x80 → decode_rune b s ≡ (b, 1)
unfolding decode_rune
decode_rune_low b s h = ground arith

-- A test that only ASCII passes gives the same answer on the runes as on the bytes.
pub all-runes :
    (p : ℕ → Bool) (s : Text) → ((b : ℕ) → 0x80 ≤ b → p b ≡ false) → all p (runes s) ≡ all p s
unfolding pieces_from
all-runes p [] ascii = refl
all-runes p (b ∷ s) ascii = elim (Bool-cases (ltb b 0x80)) [
  | inl low ↦ rw (decode_rune_low b s (ground arith)) (rw (all-runes p s ascii))
  | inr high ↦
      rw (ascii b (ground arith), ascii (decode_rune b s).0 (decode_rune_high b s (ground arith)))
]

pub decode_rune_width : (b : ℕ) (s : Text) → 1 ≤ (decode_rune b s).1
unfolding decode_rune two three four
decode_rune_width b [] = ground arith
decode_rune_width b (c ∷ []) = ground arith
decode_rune_width b (c ∷ d ∷ []) = ground arith
decode_rune_width b (c ∷ d ∷ e ∷ s) = ground arith

take_pos : (n b : ℕ) (s : Text) → 1 ≤ n → is_empty (take n (b ∷ s)) ≡ false
take_pos zero b s h = absurd (omega arith)
take_pos (suc n) b s h = refl

-- Every rune has at least one byte.
pub pieces_nonempty :
    (skip : ℕ) (s : Text) → All (λ (q : ℕ × Text). is_empty q.1 ≡ false) (pieces_from skip s)
unfolding pieces_from
pieces_nonempty skip [] = tt
pieces_nonempty (suc skip) (b ∷ s) = pieces_nonempty skip s
pieces_nonempty zero (b ∷ s) = (
  take_pos (decode_rune b s).1 b s (decode_rune_width b s),
  pieces_nonempty ((decode_rune b s).1 - 1) s,
)

-- ===== src/Text/Space.antt =====
-- `unicode.IsSpace`, `strings.TrimSpace` and config.go's `blank`.
use mathlib.Core.List.{flatten}
use mathlib.Core.Path.{◌≡⟨◌⟩◌, ◌∎}
use esignet_relay_authentica.Prelude.{
  ℕ, zero, ◌≤◌, ◌<◌, ◌≡◌, refl, Bool, true, false, ◌&&◌, ◌||◌, List, [], ◌∷◌, map, arith, leb, eqb,
  if◌then◌else◌, all, All, sym,
}
use esignet_relay_authentica.Text.Defs.{Text, is_empty}
use esignet_relay_authentica.Text.Utf8.{
  pieces, pieces_from, runes, pieces_nonempty, decode_rune_low,
}

unfoldable pub is_space : ℕ → Bool
is_space r =
    leb 9 r && leb r 13
    || eqb r 32
    || eqb r 0x85
    || eqb r 0xa0
    || eqb r 0x1680
    || leb 0x2000 r && leb r 0x200a
    || eqb r 0x2028
    || eqb r 0x2029
    || eqb r 0x202f
    || eqb r 0x205f
    || eqb r 0x3000

module _ {A : Type 0} (p : A → Bool) where
  drop_while : List A → List A
  drop_while [] = []
  drop_while (x ∷ xs) = if p x then drop_while xs else x ∷ xs

  abbrev snoc_unless : A → List A → List A
  snoc_unless x [] = if p x then [] else x ∷ []
  snoc_unless x (y ∷ ys) = x ∷ y ∷ ys

  drop_end : List A → List A
  drop_end [] = []
  drop_end (x ∷ xs) = snoc_unless x (drop_end xs)

-- Trailing spaces are found from the front: an encoded space holds no other rune's start, so
-- decoding backwards meets the same ones.
unfoldable pub trim_space : Text → Text
unfolding drop_while drop_end is_space pieces_from flatten
trim_space s =
    let spaces = λ (q : ℕ × Text). is_space q.0 in
    flatten (map (λ (q : ℕ × Text). q.1) (drop_end spaces (drop_while spaces (pieces s))))

unfoldable pub blank : Text → Bool
unfolding trim_space
blank s = is_empty (trim_space s)

pub blank-nil : blank [] ≡ true
unfolding blank
blank-nil = refl

-- The two trims leave nothing exactly when everything is dropped from the front.
snoc_unless-empty :
    {A : Type 0} (p : A → Bool) (x : A) (xs : List A)
    → is_empty (snoc_unless p x xs) ≡ (p x && is_empty xs)
snoc_unless-empty p x [] = ground arith
snoc_unless-empty p x (y ∷ ys) = ground arith

drop_end-empty : {A : Type 0} (p : A → Bool) (xs : List A) → is_empty (drop_end p xs) ≡ all p xs
unfolding drop_end
drop_end-empty p [] = refl
drop_end-empty p (x ∷ xs) =
    ground (arith, snoc_unless-empty p x (drop_end p xs), drop_end-empty p xs)

all-drop_while : {A : Type 0} (p : A → Bool) (xs : List A) → all p (drop_while p xs) ≡ all p xs
unfolding drop_while
all-drop_while p [] = refl
all-drop_while p (x ∷ xs) = ground (arith, all-drop_while p xs)

abbrev Nonempty : List (ℕ × Text) → Type 0
Nonempty = All (λ q. is_empty q.1 ≡ false)

bytes-empty :
    (ps : List (ℕ × Text))
    → Nonempty ps
    → is_empty (flatten (map (λ (q : ℕ × Text). q.1) ps)) ≡ is_empty ps
unfolding flatten
bytes-empty [] h = refl
bytes-empty ((r, []) ∷ ps) h = cc
bytes-empty ((r, b ∷ s) ∷ ps) h = refl

module _ (p : ℕ × Text → Bool) where
  drop_while-Nonempty : (ps : List (ℕ × Text)) → Nonempty ps → Nonempty (drop_while p ps)
  unfolding drop_while
  drop_while-Nonempty [] h = tt
  drop_while-Nonempty (q ∷ ps) h = ground (arith, drop_while-Nonempty ps h.1)

  snoc_unless-Nonempty :
      (q : ℕ × Text) (ps : List (ℕ × Text))
      → is_empty q.1 ≡ false
      → Nonempty ps
      → Nonempty (snoc_unless p q ps)
  snoc_unless-Nonempty q [] e h = ground arith
  snoc_unless-Nonempty q (r ∷ ps) e h = (e, h)

  drop_end-Nonempty : (ps : List (ℕ × Text)) → Nonempty ps → Nonempty (drop_end p ps)
  unfolding drop_end
  drop_end-Nonempty [] h = tt
  drop_end-Nonempty (q ∷ ps) h =
      snoc_unless-Nonempty q (drop_end p ps) h.0 (drop_end-Nonempty ps h.1)

all-map :
    (p : ℕ → Bool) (ps : List (ℕ × Text))
    → all p (map (λ (q : ℕ × Text). q.0) ps) ≡ all (λ q. p q.0) ps
all-map p [] = refl
all-map p (q ∷ ps) = ground (arith, all-map p ps)

-- `blank` holds exactly of the texts whose every rune is a space.
pub blank_iff : (s : Text) → blank s ≡ all is_space (runes s)
unfolding blank
blank_iff s =
    let p = λ (q : ℕ × Text). is_space q.0 in
    let front = drop_while p (pieces s) in
    is_empty (trim_space s)
    ≡⟨ bytes-empty (drop_end p front)
        (drop_end-Nonempty p front (drop_while-Nonempty p (pieces s) (pieces_nonempty zero s))) ⟩
      is_empty (drop_end p front)
    ≡⟨ drop_end-empty p front ⟩ all p front
    ≡⟨ all-drop_while p (pieces s) ⟩ all p (pieces s)
    ≡⟨ sym (all-map is_space (pieces s)) ⟩ all is_space (runes s) ∎

-- A text that begins with a visible ASCII byte is not blank.
pub blank-visible : (b : ℕ) (s : Text) → 33 ≤ b → b < 0x80 → blank (b ∷ s) ≡ false
unfolding is_space pieces_from
blank-visible b s low high = rw (blank_iff (b ∷ s), decode_rune_low b s high) (ground (arith, low))

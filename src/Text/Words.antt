-- ===== src/Text/Words.antt =====
-- `strings.Split` at a one-byte separator, and `strings.Join`.
use esignet_relay_authentica.Prelude.{
  ℕ, ◌≡◌, refl, ap, ◌≢◌, ◌∙◌, List, [], ◌∷◌, ◌++◌, arith, eqb, if◌then◌else◌, if_elim, All,
}
use esignet_relay_authentica.Text.Defs.{Text}

abbrev push_front : ℕ → List Text → List Text
push_front b [] = (b ∷ []) ∷ []
push_front b (w ∷ ws) = (b ∷ w) ∷ ws

unfoldable pub split_on : ℕ → Text → List Text
split_on c [] = [] ∷ []
split_on c (b ∷ s) = if eqb b c then [] ∷ split_on c s else push_front b (split_on c s)

unfoldable pub join : Text → List Text → Text
join sep [] = []
join sep (w ∷ []) = w
join sep (w ∷ v ∷ ws) = w ++ (sep ++ join sep (v ∷ ws))

-- The separator does not occur in the word.
abbrev pub Lacks : ℕ → Text → Type 0
Lacks c w = All (λ b. b ≢ c) w

split_on-word : (c : ℕ) (w : Text) → Lacks c w → split_on c w ≡ w ∷ []
unfolding split_on
split_on-word c [] h = refl
split_on-word c (b ∷ w) h = ground (arith, split_on-word c w h.1)

split_on-append : (c : ℕ) (w s : Text) → Lacks c w → split_on c (w ++ c ∷ s) ≡ w ∷ split_on c s
unfolding split_on
split_on-append c [] s h = ground arith
split_on-append c (b ∷ w) s h = ground (arith, split_on-append c w s h.1)

-- Splitting undoes joining, for words without the separator.
pub split_on-join :
    (c : ℕ) (w : Text) (ws : List Text)
    → All (Lacks c) (w ∷ ws)
    → split_on c (join (c ∷ []) (w ∷ ws)) ≡ w ∷ ws
unfolding join
split_on-join c w [] h = split_on-word c w h.0
split_on-join c w (v ∷ ws) h =
    split_on-append c w (join (c ∷ []) (v ∷ ws)) h.0 ∙ ap (◌∷◌ w) (split_on-join c v ws h.1)

All_Lacks-push_front :
    (c b : ℕ) (ws : List Text) → b ≢ c → All (Lacks c) ws → All (Lacks c) (push_front b ws)
All_Lacks-push_front c b [] h k = ((h, tt), tt)
All_Lacks-push_front c b (w ∷ ws) h k = ((h, k.0), k.1)

-- No part has the separator.
pub split_on-Lacks : (c : ℕ) (s : Text) → All (Lacks c) (split_on c s)
unfolding split_on
split_on-Lacks c [] = (tt, tt)
split_on-Lacks c (b ∷ s) =
    if_elim (All (Lacks c)) (eqb b c) (λ same. (tt, split_on-Lacks c s))
      (λ other.
        All_Lacks-push_front c b (split_on c s) (λ e. ground (arith, e)) (split_on-Lacks c s))

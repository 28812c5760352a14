-- ===== src/Config/Fields.antt =====
-- Field names: what `validField` accepts, and the `$select` list that is made of them.
use esignet_relay_authentica.Prelude.{
  ◌≡◌, refl, ap, ◌≢◌, true, ◌&&◌, not, List, [], ◌∷◌, all, All, arith,
}
use esignet_relay_authentica.Text.{
  Text, txt, is_empty, all-runes, split_on, join, Lacks, split_on-join,
}
use esignet_relay_authentica.Config.Checks.{field_rune, valid_field}

-- `validField` walks runes; on bytes it gives the same answer, since no byte outside ASCII decodes
-- to a letter, digit, `_`, `-` or `.`.
pub valid_field_bytes : (s : Text) → valid_field s ≡ (not (is_empty s) && all field_rune s)
unfolding valid_field
valid_field_bytes s = ap (λ b. not (is_empty s) && b) (all-runes field_rune s (λ b h. ground arith))

no_comma : (s : Text) → all field_rune s ≡ true → Lacks b',' s
no_comma [] h = tt
no_comma (b ∷ s) h = (ground arith, no_comma s (ground arith))

valid_field_no_comma : (s : Text) → valid_field s ≡ true → Lacks b',' s
valid_field_no_comma s h = no_comma s (ground (arith, valid_field_bytes s))

no_commas : (fields : List Text) → all valid_field fields ≡ true → All (Lacks b',') fields
no_commas [] h = tt
no_commas (f ∷ fs) h = (valid_field_no_comma f (ground arith), no_commas fs (ground arith))

-- The `$select` value of a lookup names exactly the given fields: splitting it at commas gives back
-- every nonempty list of valid field names, in order.
pub split_on-join_fields :
    (fields : List Text)
    → fields ≢ []
    → all valid_field fields ≡ true
    → split_on b',' (join (txt ",") fields) ≡ fields
split_on-join_fields [] some_field h = absurd (some_field refl)
split_on-join_fields (f ∷ fs) some_field h = split_on-join b',' f fs (no_commas (f ∷ fs) h)

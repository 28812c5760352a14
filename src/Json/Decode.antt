-- ===== src/Json/Decode.antt =====
-- How `encoding/json` decodes a value into a struct's fields: names match without regard to case,
-- `null` changes nothing, the last of several members wins, a value of another type is an error.
use esignet_relay_authentica.Prelude.{
  ℕ, ◌≡◌, refl, ◌-◌, ◌^◌, Bool, ◌&&◌, Option, none, some, List, [], ◌∷◌, ltb, leb, eqb,
  if◌then◌else◌, ℤ, pos, negsuc, ◌==◌, map, insert,
}
use esignet_relay_authentica.Text.{Text, text_eq, text_beq, runes, pieces_from, sanitize}
use esignet_relay_authentica.Json.Marshal.{Value, null, int, str, obj, Members, end, member}

-- Outside ASCII only the long s and the Kelvin sign fold with a letter.
abbrev pub fold_rune : ℕ → ℕ
fold_rune r =
    if leb b'a' r && leb r b'z'
    then r - 32
    else (if eqb r 0x17f then b'S' else (if eqb r 0x212a then b'K' else r))

abbrev pub fold_name : Text → Text
fold_name name = map fold_rune (runes name)

unfoldable pub same_name : Text → Text → Bool
unfolding pieces_from text_beq
same_name key name = fold_name key == fold_name name

abbrev pub into_text : Value → Text → Option Text
into_text null old = some old
into_text (str s) old = some (sanitize s)
into_text _ old = none

-- Into a `*string`.
abbrev pub into_pointer : Value → Option Text → Option (Option Text)
into_pointer null old = some none
into_pointer (str s) old = some (some (sanitize s))
into_pointer _ old = none

abbrev pub fits_int64 : ℤ → Bool
fits_int64 (pos n) = ltb n (2 ^ 63)
fits_int64 (negsuc n) = ltb n (2 ^ 63)

abbrev pub into_int : Value → ℤ → Option ℤ
into_int null old = some old
into_int (int i) old = if fits_int64 i then some i else none
into_int _ old = none

abbrev pub map_of : Members → List (Text × Value)
map_of end = []
map_of (member k v ms) = (k, v) ∷ map_of ms

-- Into a `map[string]any`, which `null` sets to nil and further objects extend.
abbrev pub put_all : Members → List (Text × Value) → List (Text × Value)
put_all end m = m
put_all (member k v ms) m = put_all ms (insert k v m)

abbrev pub or_new : Option (List (Text × Value)) → List (Text × Value)
or_new none = []
or_new (some m) = m

abbrev pub into_map : Value → Option (List (Text × Value)) → Option (Option (List (Text × Value)))
into_map null old = some none
into_map (obj ms) old = some (some (put_all ms (or_new old)))
into_map _ old = none

abbrev pub and_then {ℓ κ} : {A : Type ℓ} {B : Type κ} → Option A → (A → Option B) → Option B
and_then none next = none
and_then (some a) next = next a

pub and_then-eq-some {ℓ κ} :
    {A : Type ℓ} {B : Type κ} (o : Option A) (next : A → Option B) (b : B)
    → and_then o next ≡ some b
    → (a : A) × (o ≡ some a) × (next a ≡ some b)
and_then-eq-some none next b h = absurd (cc h)
and_then-eq-some (some a) next b h = (a, refl, h)

-- One field of a struct, over the members of an object.
unfoldable pub field_from : {A : Type 0} → Text → (Value → A → Option A) → Members → A → Option A
unfolding same_name
field_from name into end old = some old
field_from name into (member k v ms) old =
    if same_name k name
    then and_then (into v old) (field_from name into ms)
    else field_from name into ms old

-- A struct with one field, inside another struct.
abbrev pub into_struct : {A : Type 0} → Text → (Value → A → Option A) → Value → A → Option A
into_struct name into null old = some old
into_struct name into (obj ms) old = field_from name into ms old
into_struct name into _ old = none

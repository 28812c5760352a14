-- ===== src/Json/Marshal.antt =====
-- Values, and how `json.Marshal` writes them: object keys sorted, `none` for a value that it refuses.
use esignet_relay_authentica.Prelude.{
  ℕ, zero, suc, ◌+◌, ◌/◌, ◌%◌, Bool, true, false, Option, none, some, List, [], ◌∷◌, ◌++◌, ltb, eqb,
  if◌then◌else◌, ℤ, pos, negsuc, map,
}
use esignet_relay_authentica.Text.{Text, txt, join}
use esignet_relay_authentica.Json.Strings.{quote}

-- `int` is an integer literal, `num` the literal of any other number, and `opaque` a Go value that
-- has no JSON form.
mutual
  pub data Value : Type 0 where
    null : Value
    bool : Bool → Value
    int : ℤ → Value
    num : Text → Value
    str : Text → Value
    arr : Values → Value
    obj : Members → Value
    opaque : Value

  pub data Values : Type 0 where
    nil : Values
    cons : Value → Values → Values

  pub data Members : Type 0 where
    end : Members
    member : Text → Value → Members → Members

-- The decimal digits in front of `acc`; a number has fewer digits than the fuel that it gets.
decimal_from : ℕ → ℕ → Text → Text
decimal_from zero n acc = acc
decimal_from (suc fuel) n acc =
    let rest = decimal_from fuel (n / 10) ((b'0' + n % 10) ∷ acc) in
    if ltb n 10 then (b'0' + n) ∷ acc else rest

unfoldable pub decimal : ℕ → Text
unfolding decimal_from
decimal n = decimal_from (suc n) n []

unfoldable pub marshal_int : ℤ → Text
unfolding decimal
marshal_int (pos n) = decimal n
marshal_int (negsuc n) = b'-' ∷ decimal (suc n)

-- Go's order on strings: bytewise.
unfoldable pub text_lt : Text → Text → Bool
text_lt s [] = false
text_lt [] (b ∷ t) = true
text_lt (a ∷ s) (b ∷ t) = if ltb a b then true else (if eqb a b then text_lt s t else false)

module _ {A : Type 0} where
  unfoldable pub insert_sorted : Text × A → List (Text × A) → List (Text × A)
  insert_sorted entry [] = entry ∷ []
  insert_sorted entry (other ∷ rest) =
      if text_lt other.0 entry.0 then other ∷ insert_sorted entry rest else entry ∷ other ∷ rest

  unfoldable pub sort_members : List (Text × A) → List (Text × A)
  unfolding insert_sorted text_lt
  sort_members [] = []
  sort_members (entry ∷ rest) = insert_sorted entry (sort_members rest)

abbrev pub brackets : ℕ → List Text → ℕ → Text
brackets open_mark parts close_mark = open_mark ∷ (join (b',' ∷ []) parts ++ close_mark ∷ [])

unfoldable pub marshal_object : List (Text × Text) → Text
unfolding sort_members join quote
marshal_object members =
    brackets b'{' (map (λ m. quote m.0 ++ b':' ∷ m.1) (sort_members members)) b'}'

abbrev push_value : Option Text → Option (List Text) → Option (List Text)
push_value (some v) (some vs) = some (v ∷ vs)
push_value _ _ = none

abbrev push_member : Text → Option Text → Option (List (Text × Text)) → Option (List (Text × Text))
push_member k (some v) (some vs) = some ((k, v) ∷ vs)
push_member k _ _ = none

abbrev written : {A : Type 0} → (A → Text) → Option A → Option Text
written f none = none
written f (some a) = some (f a)

unfoldable mutual
  unfolding marshal_object marshal_int join quote

  pub marshal : Value → Option Text
  marshal null = some (txt "null")
  marshal (bool true) = some (txt "true")
  marshal (bool false) = some (txt "false")
  marshal (int i) = some (marshal_int i)
  marshal (num literal) = some literal
  marshal (str s) = some (quote s)
  marshal (arr vs) = written (λ parts. brackets b'[' parts b']') (marshal_values vs)
  marshal (obj ms) = written marshal_object (marshal_members ms)
  marshal opaque = none

  pub marshal_values : Values → Option (List Text)
  marshal_values nil = some []
  marshal_values (cons v vs) = push_value (marshal v) (marshal_values vs)

  pub marshal_members : Members → Option (List (Text × Text))
  marshal_members end = some []
  marshal_members (member k v ms) = push_member k (marshal v) (marshal_members ms)

-- `json.Marshal` of a `[]string`.
unfoldable pub marshal_strings : List Text → Text
unfolding join quote
marshal_strings ss = brackets b'[' (map quote ss) b']'

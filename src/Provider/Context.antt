-- ===== src/Provider/Context.antt =====
-- The session context as a map of JSON values: written by `Authenticate`, read by `restore`.
use esignet_relay_authentica.Prelude.{
  ℕ, ◌-◌, ◌*◌, Bool, false, ◌&&◌, Option, none, some, List, [], ◌∷◌, ltb, leb, eqb, if◌then◌else◌,
  ℤ, pos, negsuc, ◌==◌, length, nat_of,
}
use esignet_relay_authentica.Text.{Text, txt, text_eq, text_beq, pieces_from, sanitize}
use esignet_relay_authentica.Types.{
  Time, second, unix, Binding, Result, ok, err, ◌>>=◌, ◌>>◌, guard, context_invalid,
  context_expired, valid_text, valid_binding,
}
use esignet_relay_authentica.Json.{
  Value, int, str, obj, Members, end, member, marshal, sort_members, fold_name, into_text, into_int,
}
use esignet_relay_authentica.Config.{Config}
use esignet_relay_authentica.Provider.Psut.{AuthContext}

-- `contextTTL`.
abbrev pub context_ttl : Time
context_ttl = 300 * second

-- The fields of `authContext` in the order of the struct.
pub data Field : Type 0 where
  version subject_locator subject_type relying_party client transaction issued expires : Field

abbrev pub field_name : Field → Text
field_name version = txt "version"
field_name subject_locator = txt "subject_locator"
field_name subject_type = txt "subject_type"
field_name relying_party = txt "relying_party_id"
field_name client = txt "client_id"
field_name transaction = txt "transaction_id"
field_name issued = txt "issued_at"
field_name expires = txt "expires_at"

-- The field that a name means, without regard to case.
first_field : Text → List Field → Option Field
first_field folded [] = none
first_field folded (f ∷ fs) =
    if folded == fold_name (field_name f) then some f else first_field folded fs

unfoldable pub field_of : Text → Option Field
unfolding first_field pieces_from text_beq
field_of key = first_field (fold_name key) (
    version ∷ subject_locator ∷ subject_type ∷ relying_party ∷ client ∷ transaction ∷ issued
    ∷ expires ∷ [])

abbrev with_text : Option Text → (Text → AuthContext) → Option AuthContext
with_text none set = none
with_text (some t) set = some (set t)

abbrev with_int : Option ℤ → (ℤ → AuthContext) → Option AuthContext
with_int none set = none
with_int (some i) set = some (set i)

unfoldable pub set_field : Field → Value → AuthContext → Option AuthContext
set_field version v s = with_int (into_int v s.version) (λ i. record s { version = i })
set_field subject_locator v s =
    with_text (into_text v s.identifier) (λ t. record s { identifier = t })
set_field subject_type v s =
    with_text (into_text v s.identifier_type) (λ t. record s { identifier_type = t })
set_field relying_party v s =
    with_text (into_text v s.relying_party_id) (λ t. record s { relying_party_id = t })
set_field client v s = with_text (into_text v s.client_id) (λ t. record s { client_id = t })
set_field transaction v s =
    with_text (into_text v s.transaction_id) (λ t. record s { transaction_id = t })
set_field issued v s = with_int (into_int v s.issued_at) (λ i. record s { issued_at = i })
set_field expires v s = with_int (into_int v s.expires_at) (λ i. record s { expires_at = i })

abbrev pub zero_context : AuthContext
zero_context = record {
  version = pos 0;
  identifier = [];
  identifier_type = [];
  relying_party_id = [];
  client_id = [];
  transaction_id = [];
  issued_at = pos 0;
  expires_at = pos 0;
}

abbrev pub then_decode :
    (AuthContext → Option AuthContext) → Option AuthContext → Option AuthContext
then_decode next none = none
then_decode next (some s) = next s

abbrev set_named : Option Field → Value → AuthContext → Option AuthContext
set_named none v s = none
set_named (some f) v s = set_field f v s

-- The decoder with `DisallowUnknownFields`, over the members in the order of the text.
unfoldable pub decode_members : List (Text × Value) → AuthContext → Option AuthContext
unfolding field_of set_field
decode_members [] s = some s
decode_members ((key, v) ∷ rest) s =
    then_decode (decode_members rest) (set_named (field_of key) v s)

abbrev to_members : List (Text × Value) → Members
to_members [] = end
to_members ((k, v) ∷ rest) = member k v (to_members rest)

-- `json.Marshal` of the state.
unfoldable pub marshal_state : List (Text × Value) → Option Text
unfolding marshal
marshal_state state = marshal (obj (to_members state))

-- `d.Decode(&s)` on the sorted members.
unfoldable pub decode_state : List (Text × Value) → Option AuthContext
unfolding sort_members decode_members
decode_state state = decode_members (sort_members state) zero_context

-- `json.Marshal` and the decoder behind it: keys sorted, at most 32 KiB.
unfoldable pub redecode : List (Text × Value) → Option AuthContext
redecode state = elim (marshal_state state) [
  | none ↦ none
  | some raw ↦ if ltb 32768 (length raw) then none else decode_state state
]

-- What `Authenticate` hands out: the context marshalled and read back as a map. The numbers of that
-- map are floats, which below 2^53 are exact and are written as integers again.
unfoldable pub context_map : AuthContext → List (Text × Value)
context_map s =
    (field_name version, int s.version)
    ∷ (field_name subject_locator, str (sanitize s.identifier))
    ∷ (field_name subject_type, str (sanitize s.identifier_type))
    ∷ (field_name relying_party, str (sanitize s.relying_party_id))
    ∷ (field_name client, str (sanitize s.client_id))
    ∷ (field_name transaction, str (sanitize s.transaction_id))
    ∷ (field_name issued, int s.issued_at)
    ∷ (field_name expires, int s.expires_at)
    ∷ []

-- `p.validSubject`.
unfoldable pub valid_subject : Config → Text → Text → Bool
valid_subject c id kind = valid_text id && kind == c.subject_id_type

-- `s.IssuedAt <= 0 || s.IssuedAt > now || s.ExpiresAt <= s.IssuedAt ||
-- s.ExpiresAt - s.IssuedAt > 300`, negated; the first test makes the others ones on naturals.
abbrev pub timely : ℤ → ℤ → ℕ → Bool
timely (pos since) (pos until) now =
    ltb 0 since && leb since now && ltb since until && leb (until - since) 300
timely _ _ now = false

unfoldable pub bound_to : AuthContext → Binding → Bool
bound_to s b =
    s.relying_party_id == b.relying_party_id
    && s.client_id == b.client_id
    && s.transaction_id == b.transaction_id

abbrev pub is_version_1 : ℤ → Bool
is_version_1 (pos n) = eqb n 1
is_version_1 (negsuc n) = false

unfoldable pub checked : Config → Time → Binding → AuthContext → Result AuthContext
checked c now b s = do
  guard (is_version_1 s.version && valid_subject c s.identifier s.identifier_type && bound_to s b)
      context_invalid
  guard (timely s.issued_at s.expires_at (unix now)) context_invalid
  guard (ltb (unix now) (nat_of s.expires_at)) context_expired
  ok s

abbrev pub or_invalid : {A : Type 0} → Option A → Result A
or_invalid none = err context_invalid
or_invalid (some a) = ok a

-- `p.restore`; the state is `none` for a nil map, and `now` the clock's reading.
unfoldable pub restore : Config → Time → Option (List (Text × Value)) → Binding → Result AuthContext
restore c now state b = do
  members ← or_invalid state
  guard (valid_binding b) context_invalid
  s ← or_invalid (redecode members)
  checked c now b s

-- ===== src/Provider/Oversized.antt =====
-- Contexts that are handed out and never restored: their JSON is longer than `restore` reads.
use esignet_relay_authentica.Prelude.{
  ℕ, zero, suc, ◌+◌, pos, ◌*◌, ◌≤◌, ◌<◌, ◌≡◌, refl, ap, ◌∙◌, true, none, some, List, [], ◌∷◌, ◌++◌,
  ltb, length, length-append, All, arith,
}
use esignet_relay_authentica.Text.{Text, txt, join, pieces, pieces_from, sanitize, sanitize_ascii}
use esignet_relay_authentica.Types.{Time, Binding, err, context_invalid}
use esignet_relay_authentica.Json.{
  Value, quote, escape_piece, escape_byte, escape_pieces, marshal, marshal_object, marshal_int,
  brackets, sort_members, insert_sorted, text_lt,
}
use esignet_relay_authentica.Config.{Config}
use esignet_relay_authentica.Provider.Context.{context_map, marshal_state, redecode, restore}
use esignet_relay_authentica.Provider.Restore.{opened}

-- What the parts of a joined text are long.
total : List Text → ℕ
total [] = 0
total (w ∷ ws) = length w + total ws

total-join : (sep : Text) (ws : List Text) → total ws ≤ length (join sep ws)
unfolding total join
total-join sep [] = omega arith
total-join sep (w ∷ []) = omega arith
total-join sep (w ∷ v ∷ ws) = omega (
  arith,
  total-join sep (v ∷ ws),
  length-append w (sep ++ join sep (v ∷ ws)),
  length-append sep (join sep (v ∷ ws)),
)

-- The member of a quoted text is at least as long as the text's quote.
member_length : (k : Text) (v : Text) → length v ≤ length (quote k ++ b':' ∷ v)
member_length k v = omega (arith, length-append (quote k) (b':' ∷ v))

brackets-length : (o : ℕ) (ws : List Text) (c : ℕ) → total ws ≤ length (brackets o ws c)
brackets-length o ws c =
    omega (arith, total-join (b',' ∷ []) ws, length-append (join (b',' ∷ []) ws) (c ∷ []))

-- How long the texts of the person and the relying party are in JSON.
abbrev pub written_length : Text → ℕ
written_length s = length (quote (sanitize s))

abbrev entry : Text → Text → Text
entry k v = quote k ++ b':' ∷ v

-- The members in the order of their names.
members_of : ℕ → Text → Text → Binding → List Text
members_of since id kind b =
    entry (txt "client_id") (quote (sanitize b.client_id))
    ∷ entry (txt "expires_at") (marshal_int (pos (since + 300)))
    ∷ entry (txt "issued_at") (marshal_int (pos since))
    ∷ entry (txt "relying_party_id") (quote (sanitize b.relying_party_id))
    ∷ entry (txt "subject_locator") (quote (sanitize id))
    ∷ entry (txt "subject_type") (quote (sanitize kind))
    ∷ entry (txt "transaction_id") (quote (sanitize b.transaction_id))
    ∷ entry (txt "version") (marshal_int (pos 1))
    ∷ []

total-members_of :
    (since : ℕ) (id kind : Text) (b : Binding)
    → written_length id + written_length b.relying_party_id ≤ total (members_of since id kind b)
unfolding total members_of
total-members_of since id kind b = omega (
  arith,
  member_length (txt "relying_party_id") (quote (sanitize b.relying_party_id)),
  member_length (txt "subject_locator") (quote (sanitize id)),
)

marshal_state-members_of :
    (since : ℕ) (id kind : Text) (b : Binding)
    → marshal_state (context_map (opened since id kind b))
      ≡ some (brackets b'{' (members_of since id kind b) b'}')
unfolding members_of marshal_state context_map marshal marshal_object sort_members insert_sorted
    text_lt
marshal_state-members_of since id kind b = refl

redecode-long :
    (state : List (Text × Value)) (raw : Text)
    → marshal_state state ≡ some raw
    → ltb 32768 (length raw) ≡ true
    → redecode state ≡ none
unfolding redecode
redecode-long state raw e long = rw (redecode, e, long) refl

restore-lost :
    (c : Config) (now : Time) (state : List (Text × Value)) (b : Binding)
    → redecode state ≡ none
    → restore c now (some state) b ≡ err context_invalid
unfolding restore
restore-lost c now state b lost = ground arith

-- A context that is opened for an identifier and a relying party whose JSON strings together have more
-- than 32 KiB is refused as invalid, whatever the configuration, the time and the binding.
pub restore-oversized :
    (c : Config) (now : Time) (since : ℕ) (id kind : Text) (b other : Binding)
    → 32_768 < written_length id + written_length b.relying_party_id
    → restore c now (some (context_map (opened since id kind b))) other ≡ err context_invalid
restore-oversized c now since id kind b other h =
    let state = context_map (opened since id kind b) in
    let raw = brackets b'{' (members_of since id kind b) b'}' in
    let long : ltb 32768 (length raw) ≡ true = ground (
      arith,
      h,
      total-members_of since id kind b,
      brackets-length b'{' (members_of since id kind b) b'}',
    ) in
    restore-lost c now state other
      (redecode-long state raw (marshal_state-members_of since id kind b) long)

-- A text of angle brackets, of which JSON writes each in six bytes.
pub marks : ℕ → Text
marks zero = []
marks (suc n) = b'<' ∷ marks n

pub length-marks : (n : ℕ) → length (marks n) ≡ n
unfolding marks
length-marks zero = refl
length-marks (suc n) = omega (arith, length-marks n)

marks-All : (n : ℕ) → All (λ b. b < 0x80) (marks n)
unfolding marks
marks-All zero = tt
marks-All (suc n) = (omega arith, marks-All n)

escape-marks : (n : ℕ) → length (escape_pieces (pieces (marks n))) ≡ 6 * n
unfolding marks escape_piece escape_byte pieces_from
escape-marks zero = omega arith
escape-marks (suc n) = omega (arith, escape-marks n)

pub written_length-marks : (n : ℕ) → written_length (marks n) ≡ 6 * n + 2
unfolding quote
written_length-marks n =
    ap (λ s. length (quote s)) (sanitize_ascii (marks n) (marks-All n))
    ∙ omega (arith, escape-marks n, length-append (escape_pieces (pieces (marks n))) (b'"' ∷ []))

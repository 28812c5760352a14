-- ===== src/Provider/Psut.antt =====
-- The session context and the pairwise subject (PSUT) that is derived from it. HMAC-SHA-256 is a
-- parameter: the key and the message to the code.
use esignet_relay_authentica.Prelude.{
  ◌≡◌, refl, sym, ◌∙◌, ◌≢◌, ◌⊎◌, inl, inr, List, [], ◌∷◌, ◌++◌, ℤ, arith, All, length, ◌==◌, ==_iff,
  Bool-cases, ℕ, map, append_assoc,
}
use esignet_relay_authentica.Text.{Text, txt, text_eq, sanitize, join}
use esignet_relay_authentica.Json.{quote, marshal_strings, quote_injective}
use esignet_relay_authentica.Provider.Base64.{
  encode, IsByte, IsUrlSafe, encode_injective, length-encode, encode-IsUrlSafe,
}

-- `authContext`.
pub record AuthContext : Type 0 where
  pub version : ℤ
  pub identifier : Text
  pub identifier_type : Text
  pub relying_party_id : Text
  pub client_id : Text
  pub transaction_id : Text
  pub issued_at : ℤ
  pub expires_at : ℤ

abbrev parts : AuthContext → List Text
parts s = s.relying_party_id ∷ s.client_id ∷ s.identifier_type ∷ s.identifier ∷ []

unfoldable pub psut_tuple : AuthContext → Text
psut_tuple s = marshal_strings (
    txt "registry-psut-v1"
    ∷ s.relying_party_id
    ∷ s.client_id
    ∷ s.identifier_type
    ∷ s.identifier
    ∷ [])

module _ (hmac : Text → Text → Text) (secret : Text) where
  unfoldable pub psut : AuthContext → Text
  psut s = encode (hmac secret (psut_tuple s))

  -- With a code of 32 bytes the subject is 43 characters long and safe in a URL.
  pub psut_shape :
      (s : AuthContext)
      → length (hmac secret (psut_tuple s)) ≡ 32
      → All IsByte (hmac secret (psut_tuple s))
      → (length (psut s) ≡ 43) × All IsUrlSafe (psut s)
  unfolding psut
  psut_shape s n bytes = (
    omega (arith, length-encode (hmac secret (psut_tuple s))),
    encode-IsUrlSafe (hmac secret (psut_tuple s)) bytes,
  )

-- The person and the client that a subject stands for.
pub record SamePair (s t : AuthContext) : Type 0 where
  pub relying_party_id : sanitize s.relying_party_id ≡ sanitize t.relying_party_id
  pub client_id : sanitize s.client_id ≡ sanitize t.client_id
  pub identifier_type : sanitize s.identifier_type ≡ sanitize t.identifier_type
  pub identifier : sanitize s.identifier ≡ sanitize t.identifier

cons_inj : {a b : ℕ} {s t : Text} → a ∷ s ≡ b ∷ t → s ≡ t
cons_inj e = cc

-- Two lists of texts, equal part by part up to stray bytes.
abbrev Alike : List Text → List Text → Type 0
Alike [] [] = Unit
Alike (s ∷ ss) (t ∷ ts) = (sanitize s ≡ sanitize t) × Alike ss ts
Alike _ _ = ⊥

abbrev quotes : List Text → Text
quotes ss = join (b',' ∷ []) (map quote ss)

-- Nonempty lists of one length are read back from what is written for them.
quotes_injective :
    (s t : Text) (ss ts : List Text) (r u : Text)
    → length ss ≡ length ts
    → quotes (s ∷ ss) ++ r ≡ quotes (t ∷ ts) ++ u
    → Alike (s ∷ ss) (t ∷ ts)
unfolding join
quotes_injective s t [] [] r u n e = ((quote_injective s t e).0, tt)
quotes_injective s t [] (v ∷ ts) r u n e = absurd (omega arith)
quotes_injective s t (w ∷ ss) [] r u n e = absurd (omega arith)
quotes_injective s t (w ∷ ss) (v ∷ ts) r u n e =
    let (same, rest) = quote_injective s t (
      sym (append_assoc (quote s) (b',' ∷ quotes (w ∷ ss)) r)
      ∙ e
      ∙ append_assoc (quote t) (b',' ∷ quotes (v ∷ ts)) u) in
    (same, quotes_injective w v ss ts r u (omega arith) (cons_inj rest))

-- The tuple is unambiguous: it determines its parts, up to stray bytes in them.
psut_tuple_injective : (s t : AuthContext) → psut_tuple s ≡ psut_tuple t → SamePair s t
unfolding psut_tuple marshal_strings
psut_tuple_injective s t e =
    let a =
      quotes_injective (txt "registry-psut-v1") (txt "registry-psut-v1") (parts s) (parts t)
        (b']' ∷ []) (b']' ∷ []) refl (cons_inj e) in
    record {
      relying_party_id = a.1.0;
      client_id = a.1.1.0;
      identifier_type = a.1.1.1.0;
      identifier = a.1.1.1.1.0;
    }

-- Subjects are pairwise: two sessions have one subject only if they agree in relying party, client,
-- identifier type and identifier (up to bytes that are no UTF-8), or if the code collides on two
-- different tuples.
pub psut_pairwise :
    (hmac : Text → Text → Text) (secret : Text) (s t : AuthContext)
    → ((key message : Text) → All IsByte (hmac key message))
    → psut hmac secret s ≡ psut hmac secret t
    → SamePair s t
      ⊎ ((psut_tuple s ≢ psut_tuple t) × (hmac secret (psut_tuple s) ≡ hmac secret (psut_tuple t)))
unfolding psut
psut_pairwise hmac secret s t bytes e = elim (Bool-cases (psut_tuple s == psut_tuple t)) [
  | inl same ↦ inl (psut_tuple_injective s t ((==_iff (psut_tuple s) (psut_tuple t)).0 same))
  | inr other ↦ inr (
    (λ same. cc (other, (==_iff (psut_tuple s) (psut_tuple t)).1 same)),
    encode_injective _ _ (bytes secret (psut_tuple s)) (bytes secret (psut_tuple t)) e,
  )
]

-- The subject does not depend on the transaction or on when the session was opened.
pub psut_stable :
    (hmac : Text → Text → Text) (secret : Text) (s t : AuthContext)
    → s.relying_party_id ≡ t.relying_party_id
    → s.client_id ≡ t.client_id
    → s.identifier_type ≡ t.identifier_type
    → s.identifier ≡ t.identifier
    → psut hmac secret s ≡ psut hmac secret t
unfolding psut psut_tuple
psut_stable hmac secret s t a b c d = rw (a, b, c, d)

-- ===== src/Provider/Restore.antt =====
-- What `restore` accepts, and the round trip of a context through the session store.
use esignet_relay_authentica.Prelude.{
  ℕ, ◌+◌, ◌≤◌, ◌<◌, ◌^◌, ◌≡◌, refl, ap, subst, ◌∙◌, inl, inr, true, false, ◌&&◌, Option, none, some,
  List, ltb, lt→ltb, if◌then◌else◌, ℤ, pos, negsuc, ◌==◌, ==_iff, length, nat_of, arith,
  Option-cases,
}
use esignet_relay_authentica.Text.{Text, text_eq, valid_utf8, sanitize_valid}
use esignet_relay_authentica.Types.{
  Time, unix, Binding, binding_eq, binding_beq, ok, err, context_invalid, context_expired,
  valid_binding,
}
use esignet_relay_authentica.Json.{Value}
use esignet_relay_authentica.Config.{Config}
use esignet_relay_authentica.Provider.Psut.{AuthContext}
use esignet_relay_authentica.Provider.Context.{
  decode_state, marshal_state, redecode, context_map, valid_subject, bound_to, checked, restore,
  timely, is_version_1,
}

-- What a restored context guarantees about the state, the binding and the time.
pub record IsRestored (c : Config) (now : Time) (state : Option (List (Text × Value))) (b : Binding)
    (s : AuthContext) : Type 0 where
  pub members : List (Text × Value)
  pub given : state ≡ some members
  pub decoded : redecode members ≡ some s
  pub version : s.version ≡ pos 1
  pub subject : valid_subject c s.identifier s.identifier_type ≡ true
  pub relying_party : s.relying_party_id ≡ b.relying_party_id
  pub client : s.client_id ≡ b.client_id
  pub transaction : s.transaction_id ≡ b.transaction_id
  pub begun : (0 < nat_of s.issued_at) × (nat_of s.issued_at ≤ unix now)
  pub live : (unix now < nat_of s.expires_at) × (nat_of s.expires_at ≤ nat_of s.issued_at + 300)

-- What the checks of a decoded context say.
record IsChecked (c : Config) (now : Time) (b : Binding) (s : AuthContext) : Type 0 where
  version : s.version ≡ pos 1
  subject : valid_subject c s.identifier s.identifier_type ≡ true
  bound : bound_to s b ≡ true
  begun : (0 < nat_of s.issued_at) × (nat_of s.issued_at ≤ unix now)
  live : (unix now < nat_of s.expires_at) × (nat_of s.expires_at ≤ nat_of s.issued_at + 300)

timely_bounds :
    (i e : ℤ) (now : ℕ)
    → timely i e now ≡ true
    → (0 < nat_of i) × (nat_of i ≤ now) × (nat_of i < nat_of e) × (nat_of e ≤ nat_of i + 300)
timely_bounds (pos i) (pos e) now h = ground arith
timely_bounds (pos i) (negsuc e) now h = cc
timely_bounds (negsuc i) e now h = cc

version_1 : (i : ℤ) → is_version_1 i ≡ true → i ≡ pos 1
version_1 (pos n) h = ap pos (ground arith)
version_1 (negsuc n) h = cc

checked-IsChecked :
    (c : Config) (now : Time) (b : Binding) (s t : AuthContext)
    → checked c now b s ≡ ok t
    → (s ≡ t) × IsChecked c now b s
unfolding checked
checked-IsChecked c now b s t h =
    let times = timely_bounds s.issued_at s.expires_at (unix now) (ground arith) in
    (
      ground arith,
      record {
        version = version_1 s.version (ground arith);
        subject = ground arith;
        bound = ground arith;
        begun = (times.0, times.1);
        live = (ground arith, times.3);
      },
    )

bound_to_parts :
    (s : AuthContext) (b : Binding)
    → bound_to s b ≡ true
    → (s.relying_party_id ≡ b.relying_party_id)
      × (s.client_id ≡ b.client_id)
      × (s.transaction_id ≡ b.transaction_id)
unfolding bound_to
bound_to_parts s b h = ground (
  arith,
  ==_iff s.relying_party_id b.relying_party_id,
  ==_iff s.client_id b.client_id,
  ==_iff s.transaction_id b.transaction_id,
)

-- `restore` returns a context only if the state is not nil, decodes strictly to just that context,
-- and the context has version 1, a valid subject of the configured type, the caller's relying party,
-- client and transaction, an issue time in the past, and an expiry in the future at most 300 seconds
-- behind the issue.
pub restore-IsRestored :
    (c : Config) (now : Time) (state : Option (List (Text × Value))) (b : Binding) (s : AuthContext)
    → restore c now state b ≡ ok s
    → IsRestored c now state b s
unfolding restore
restore-IsRestored c now none b s h = cc
restore-IsRestored c now (some members) b s h = elim (Option-cases (redecode members)) [
  | inl lost ↦ absurd (ground arith)
  | inr (t, decoded) ↦
      let (same, k) = checked-IsChecked c now b t s (ground arith) in
      let checks = subst (IsChecked c now b) same k in
      let (relying_party, client, transaction) = bound_to_parts s b checks.bound in
      record {
        members = members;
        given = refl;
        decoded = decoded ∙ ap some same;
        version = checks.version;
        subject = checks.subject;
        relying_party = relying_party;
        client = client;
        transaction = transaction;
        begun = checks.begun;
        live = checks.live;
      }
]

-- The context that is opened at a second for a subject and a binding.
abbrev pub opened : ℕ → Text → Text → Binding → AuthContext
opened since id kind b = record {
  version = pos 1;
  identifier = id;
  identifier_type = kind;
  relying_party_id = b.relying_party_id;
  client_id = b.client_id;
  transaction_id = b.transaction_id;
  issued_at = pos since;
  expires_at = pos (since + 300);
}

-- What the round trip asks of a context: its times are exact as the floats of the map, its texts are
-- valid UTF-8, and its JSON is small enough.
pub record IsStorable (since : ℕ) (id kind : Text) (b : Binding) : Type 0 where
  pub fits : since + 300 < 2 ^ 53
  pub identifier : valid_utf8 id ≡ true
  pub identifier_type : valid_utf8 kind ≡ true
  pub relying_party : valid_utf8 b.relying_party_id ≡ true
  pub client : valid_utf8 b.client_id ≡ true
  pub transaction : valid_utf8 b.transaction_id ≡ true
  pub json : Text
  pub written : marshal_state (context_map (opened since id kind b)) ≡ some json
  pub small : length json ≤ 32768

module _ (since : ℕ) (id kind : Text) (b : Binding) (st : IsStorable since id kind b) where
  decode_state-opened :
      decode_state (context_map (opened since id kind b)) ≡ some (opened since id kind b)
  unfolding context_map decode_state
  decode_state-opened =
      rw
        (
          lt→ltb since (2 ^ 63) (omega (arith, st.fits)),
          lt→ltb (since + 300) (2 ^ 63) (omega (arith, st.fits)),
        )
        (simp (
          sanitize_valid id st.identifier,
          sanitize_valid kind st.identifier_type,
          sanitize_valid b.relying_party_id st.relying_party,
          sanitize_valid b.client_id st.client,
          sanitize_valid b.transaction_id st.transaction,
        ))

  pub redecode-opened :
      redecode (context_map (opened since id kind b)) ≡ some (opened since id kind b)
  unfolding redecode
  redecode-opened =
      let fits : ltb 32768 (length st.json) ≡ false = ground arith in
      rw (st.written, redecode, fits) decode_state-opened

  -- A context that was opened for an identifier and a binding at a second from 1 on, and went through
  -- the session store, is restored as it was under just that binding before 300 seconds have passed
  -- since its opening, unless the clock has gone back behind it. It is expired from then on, and invalid
  -- under any other binding.
  pub restore-context_map :
      (c : Config) (now : Time) (caller : Binding)
      → valid_subject c id kind ≡ true
      → 1 ≤ since
      → since ≤ unix now
      → restore c now (some (context_map (opened since id kind b))) caller ≡ (
          if valid_binding caller && b == caller
          then (if ltb (unix now) (since + 300)
              then ok (opened since id kind b)
              else err context_expired)
          else err context_invalid)
  unfolding restore checked bound_to binding_beq
  restore-context_map c now caller subject begun past = rw (redecode-opened, restore) (ground arith)

-- ===== src/Mailpit/History.antt =====
-- The verifier against its history: the locked sections that touched the pending challenges, and what
-- one would remember who keeps only the latest code of each key and never deletes what has expired.
use esignet_relay_authentica.Prelude.{
  ℕ, ◌+◌, ◌≤◌, ◌≡◌, refl, sym, ap, ◌∙◌, ◌⊎◌, inl, inr, Bool, true, false, Option, none, some, List,
  [], ◌∷◌, arith, if◌then◌else◌, ◌==◌, ==_iff, lookup, lookup-insert, Option-cases,
}
use esignet_relay_authentica.Text.{Text, text_eq}
use esignet_relay_authentica.Types.{Time, ChallengeRequest}
use esignet_relay_authentica.Mailpit.Defs.{
  MailpitKey, key_eq, Challenge, Verifier, challenge_key, verify, check, purge, store,
}
use esignet_relay_authentica.Mailpit.Verify.{next_challenge, verify_own, verify_others}
use esignet_relay_authentica.Mailpit.Purged.{
  Unique, insert-Unique, erase-Unique, purge-Unique, IsPurged, lookup-purge,
}

-- A locked section: the first of `SendOTP` with its clock, its last, or that of `Verify`.
pub data Event : Type 0 where
  sweep : (ℕ → Time) → Event
  stored : MailpitKey → Challenge → Event
  tried : Time → ChallengeRequest → Event

-- Some reading of the clock before had reached a time.
unfoldable pub Reached : Time → List Event → Type 0
Reached t [] = ⊥
Reached t (sweep clock ∷ events) = ((i : ℕ) × (t ≤ clock i)) ⊎ Reached t events
Reached t (stored j c ∷ events) = Reached t events
Reached t (tried now r ∷ events) = Reached t events

module _ (sha256 : Text → Text) where
  -- The code that counts for a key after the locked sections, the latest first: the last one that was
  -- stored, less its failed attempts, unless an attempt has spent it.
  unfoldable pub remembered : List Event → MailpitKey → Option Challenge
  remembered [] k = none
  remembered (sweep clock ∷ events) k = remembered events k
  remembered (stored j c ∷ events) k = if j == k then some c else remembered events k
  remembered (tried now r ∷ events) k =
      if challenge_key r == k
      then next_challenge sha256 now r (remembered events k)
      else remembered events k

  -- The map has what is remembered of a key, or has deleted it as expired.
  abbrev pub Fits : List Event → Option Challenge → Option Challenge → Type 0
  Fits events wanted found =
      (found ≡ wanted)
      ⊎ ((found ≡ none) × (c : Challenge) × (wanted ≡ some c) × Reached c.expires events)

  if_Fits :
      (events : List Event) (test : Bool) (x y found : Option Challenge)
      → (test ≡ true → Fits events x found)
      → (test ≡ false → Fits events y found)
      → Fits events (if test then x else y) found
  if_Fits events true x y found one two = one refl
  if_Fits events false x y found one two = two refl

  pub record IsRecorded (events : List Event) (v : Verifier) : Type 0 where
    pub unique : Unique v.pending
    pub agrees : (k : MailpitKey) → Fits events (remembered events k) (lookup k v.pending)

  swept_Fits :
      (clock : ℕ → Time) (events : List Event) (k : MailpitKey) (before after : Option Challenge)
      → Fits events (remembered events k) before
      → IsPurged clock before after
      → Fits (sweep clock ∷ events) (remembered (sweep clock ∷ events) k) after
  unfolding remembered Reached
  swept_Fits clock events k before after (inl e) (inl f) = inl (f ∙ e)
  swept_Fits clock events k before after (inl e) (inr (gone, c, f, i, late)) =
      inr (gone, c, sym e ∙ f, inl (i, late))
  swept_Fits clock events k before after (inr (n, c, e, late)) (inl f) = inr (f ∙ n, c, e, inr late)
  swept_Fits clock events k before after (inr (n, d, e, late)) (inr (gone, c, f, i, l)) =
      absurd (cc (n, f))

  pub sweep-IsRecorded :
      (clock : ℕ → Time) (events : List Event) (v w : Verifier)
      → IsRecorded events v
      → w.pending ≡ purge clock v.pending
      → IsRecorded (sweep clock ∷ events) w
  sweep-IsRecorded clock events v w h e = record {
    unique = rw e (purge-Unique clock v.pending h.unique);
    agrees = λ k. rw e (
        swept_Fits clock events k (lookup k v.pending) (lookup k (purge clock v.pending))
          (h.agrees k) (lookup-purge k clock v.pending h.unique));
  }

  pub stored-IsRecorded :
      (key : MailpitKey) (c : Challenge) (events : List Event) (v : Verifier)
      → IsRecorded events v
      → IsRecorded (stored key c ∷ events) (store key c v)
  unfolding remembered Reached
  stored-IsRecorded key c events v h = record {
    unique = insert-Unique key c v.pending h.unique;
    agrees = λ k.
        if_Fits (stored key c ∷ events) (key == k) (some c) (remembered events k) _
          (λ own. rw (lookup-insert key k c v.pending, own) (inl refl))
          (λ other. rw (lookup-insert key k c v.pending, other) (h.agrees k));
  }

  next_challenge-expires :
      (now : Time) (r : ChallengeRequest) (c : Challenge)
      → (next_challenge sha256 now r (some c) ≡ none)
        ⊎ ((d : Challenge) × (next_challenge sha256 now r (some c) ≡ some d)
            × (d.expires ≡ c.expires))
  next_challenge-expires now r c = elim (Option-cases (next_challenge sha256 now r (some c))) [
    | inl spent ↦ inl spent
    | inr (d, left) ↦ inr (d, left, ground (arith, left))
  ]

  -- An attempt of the key itself, whatever the map had.
  tried_Fits :
      (now : Time) (r : ChallengeRequest) (events : List Event) (wanted found : Option Challenge)
      → Fits events wanted found
      → Fits events (next_challenge sha256 now r wanted) (next_challenge sha256 now r found)
  tried_Fits now r events wanted found (inl e) = inl (ap (next_challenge sha256 now r) e)
  tried_Fits now r events wanted found (inr (n, c, e, late)) =
      rw (n, e)
        (elim (next_challenge-expires now r c) [
          | inl spent ↦ inl (sym spent)
          | inr (d, left, same) ↦ inr (refl, d, left, rw same late)
        ])

  check-Unique :
      (now : Time) (r : ChallengeRequest) (v : Verifier) (o : Option Challenge)
      → Unique v.pending
      → Unique (check sha256 now r v o).0.pending
  unfolding verify
  check-Unique now r v none u = erase-Unique (challenge_key r) v.pending u
  check-Unique now r v (some c) u = ground (
    arith,
    erase-Unique (challenge_key r) v.pending u,
    insert-Unique (challenge_key r) (record c { attempts = c.attempts + 1 }) v.pending u,
  )

  verify-Unique :
      (now : Time) (r : ChallengeRequest) (v : Verifier)
      → Unique v.pending
      → Unique (verify sha256 none now r v).0.pending
  unfolding verify
  verify-Unique now r v u = check-Unique now r v (lookup (challenge_key r) v.pending) u

  pub tried-IsRecorded :
      (now : Time) (r : ChallengeRequest) (events : List Event) (v : Verifier)
      → IsRecorded events v
      → IsRecorded (tried now r ∷ events) (verify sha256 none now r v).0
  unfolding remembered Reached
  tried-IsRecorded now r events v h = record {
    unique = verify-Unique now r v h.unique;
    agrees = λ k.
        if_Fits (tried now r ∷ events) (challenge_key r == k) _ (remembered events k) _
          (λ own.
            let is : challenge_key r ≡ k = (==_iff (challenge_key r) k).0 own in
            rw (← is) (
              rw (verify_own sha256 now r v) (
                tried_Fits now r events (remembered events (challenge_key r))
                  (lookup (challenge_key r) v.pending) (h.agrees (challenge_key r)))))
          (λ other.
            rw
              (verify_others sha256 none now r v k
                (λ e. ground (arith, other, e, ==_iff (challenge_key r) k)))
              (h.agrees k));
  }

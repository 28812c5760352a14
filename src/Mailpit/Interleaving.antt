-- ===== src/Mailpit/Interleaving.antt =====
-- Any number of goroutines in `SendOTP` and `Verify`: the locked sections in any order.
use esignet_relay_authentica.Prelude.{
  ℕ, suc, ◌+◌, ◌-◌, ◌≤◌, ◌<◌, ◌≡◌, refl, true, false, Option, none, some, List, [], ◌∷◌, arith, ltb,
  leb, length, lookup, erase, length-insert-le, length-erase-le, All, All-insert, All-erase, sym,
  length-insert_found, ◌||◌, if_elim, ◌==◌,
}
use esignet_relay_authentica.Text.{Text, text_eq}
use esignet_relay_authentica.Types.{Time, ChallengeRequest, Error, Result}
use esignet_relay_authentica.Mailpit.Defs.{
  MailpitKey, key_eq, Challenge, Verifier, challenge_key, mailpit_digest, verify, check, reserve,
  purge, store, finish, mailpit_max_pending, mailpit_max_attempts, new_mailpit_verifier,
}

-- The verifier, the goroutines of `SendOTP` that have a place and have not stored, and those that
-- have stored and have not yet run the deferred decrement.
pub record System : Type 0 where
  pub verifier : Verifier
  pub reserved : ℕ
  pub stored : ℕ

abbrev pub idle_system : System
idle_system = record { verifier = new_mailpit_verifier; reserved = 0; stored = 0 }

-- No pending challenge has used up its attempts.
abbrev pub Untired : List (MailpitKey × Challenge) → Type 0
Untired = All (λ b. b.1.attempts < mailpit_max_attempts)

module _ (sha256 : Text → Text) where
  pub data Step (s : System) : System → Type 0 where
    -- `SendOTP` finds a place, or none.
    begin :
        (clock : ℕ → Time)
        → (reserve clock s.verifier).1 ≡ true
        → Step s (record s { verifier = (reserve clock s.verifier).0; reserved = s.reserved + 1 })
    refuse :
        (clock : ℕ → Time)
        → (reserve clock s.verifier).1 ≡ false
        → Step s (record s { verifier = (reserve clock s.verifier).0 })
    -- The draw, the delivery or the context failed: only the deferred decrement runs.
    abandon :
        1 ≤ s.reserved
        → Step s (record s { verifier = finish s.verifier; reserved = s.reserved - 1 })
    -- A fresh challenge is stored.
    commit :
        (key : MailpitKey) (c : Challenge)
        → c.attempts ≡ 0
        → 1 ≤ s.reserved
        → Step s (record s {
          verifier = store key c s.verifier;
          reserved = s.reserved - 1;
          stored = s.stored + 1;
        })
    return :
        1 ≤ s.stored → Step s (record s { verifier = finish s.verifier; stored = s.stored - 1 })
    try :
        (canceled : Option Error) (now : Time) (r : ChallengeRequest)
        → Step s (record s { verifier = (verify sha256 canceled now r s.verifier).0 })

  pub data Reach : System → Type 0 where
    start : Reach idle_system
    next : {s t : System} → Reach s → Step s t → Reach t

  -- The places add up, also while goroutines stand between their two locked sections.
  pub record Inv (s : System) : Type 0 where
    pub counted : s.verifier.in_flight ≡ s.reserved + s.stored
    pub bounded : length s.verifier.pending + s.reserved ≤ mailpit_max_pending
    pub fresh : Untired s.verifier.pending

  length-purge-le :
      (clock : ℕ → Time) (m : List (MailpitKey × Challenge)) → length (purge clock m) ≤ length m
  unfolding purge
  length-purge-le clock [] = omega arith
  length-purge-le clock ((k, c) ∷ m) = ground (arith, length-purge-le (λ i. clock (suc i)) m)

  All-purge :
      (clock : ℕ → Time) (m : List (MailpitKey × Challenge)) → Untired m → Untired (purge clock m)
  unfolding purge
  All-purge clock [] h = tt
  All-purge clock ((k, c) ∷ m) h = ground (arith, All-purge (λ i. clock (suc i)) m h.1)

  begin-Inv :
      (clock : ℕ → Time) (s : System)
      → Inv s
      → (reserve clock s.verifier).1 ≡ true
      → Inv (record s { verifier = (reserve clock s.verifier).0; reserved = s.reserved + 1 })
  unfolding reserve
  begin-Inv clock s v h = record {
    counted = ground arith;
    bounded = ground (arith, length-purge-le clock s.verifier.pending);
    fresh = ground (arith, All-purge clock s.verifier.pending v.fresh);
  }

  refuse-Inv :
      (clock : ℕ → Time) (s : System)
      → Inv s
      → (reserve clock s.verifier).1 ≡ false
      → Inv (record s { verifier = (reserve clock s.verifier).0 })
  unfolding reserve
  refuse-Inv clock s v h = record {
    counted = ground arith;
    bounded = ground (arith, length-purge-le clock s.verifier.pending);
    fresh = ground (arith, All-purge clock s.verifier.pending v.fresh);
  }

  checked_fresh :
      (now : Time) (r : ChallengeRequest) (s : System) (c : Challenge)
      → Inv s
      → All
          (λ b. b.1.attempts < mailpit_max_attempts)
          (check sha256 now r s.verifier (some c)).0.pending
  unfolding verify
  checked_fresh now r s c v =
      if_elim (λ (p : Verifier × Result (Unit {0})). Untired p.0.pending) (ltb now c.expires)
        (λ _.
          if_elim Untired
            (c.digest == mailpit_digest sha256 c.salt r.challenge
              || leb mailpit_max_attempts (c.attempts + 1))
            (λ _. gone)
            (λ left.
              All-insert (λ x. x.attempts < mailpit_max_attempts) (challenge_key r) _
                s.verifier.pending (ground arith) v.fresh))
        (λ _. gone)
    where
      gone : Untired (erase (challenge_key r) s.verifier.pending)
      gone = All-erase _ (challenge_key r) s.verifier.pending v.fresh

  check-Inv :
      (now : Time) (r : ChallengeRequest) (s : System) (o : Option Challenge)
      → Inv s
      → o ≡ lookup (challenge_key r) s.verifier.pending
      → Inv (record s { verifier = (check sha256 now r s.verifier o).0 })
  unfolding verify
  check-Inv now r s none v h = record {
    counted = v.counted;
    bounded = omega (arith, length-erase-le (challenge_key r) s.verifier.pending);
    fresh = All-erase _ (challenge_key r) s.verifier.pending v.fresh;
  }
  check-Inv now r s (some c) v h =
      let seen = record c { attempts = c.attempts + 1 } in
      record {
        counted = ground arith;
        bounded = ground (
          arith,
          length-erase-le (challenge_key r) s.verifier.pending,
          length-insert_found (challenge_key r) seen s.verifier.pending (sym h),
        );
        fresh = checked_fresh now r s c v;
      }

  -- Every step of every goroutine keeps the invariant.
  Step-Inv : {s t : System} → Step s t → Inv s → Inv t
  unfolding verify
  Step-Inv {s} (begin clock h) v = begin-Inv clock s v h
  Step-Inv {s} (refuse clock h) v = refuse-Inv clock s v h
  Step-Inv {s} (abandon h) v = record {
    counted = omega (arith, v.counted);
    bounded = omega (arith, v.bounded);
    fresh = v.fresh;
  }
  Step-Inv {s} (commit key c new h) v = record {
    counted = omega (arith, v.counted);
    bounded = omega (arith, v.bounded, length-insert-le key c s.verifier.pending);
    fresh = All-insert _ key c s.verifier.pending (omega arith) v.fresh;
  }
  Step-Inv {s} (return h) v = record {
    counted = omega (arith, v.counted);
    bounded = v.bounded;
    fresh = v.fresh;
  }
  Step-Inv {s} (try (some e) now r) v = v
  Step-Inv {s} (try none now r) v =
      check-Inv now r s (lookup (challenge_key r) s.verifier.pending) v refl

  Reach-Inv : {s : System} → Reach s → Inv s
  Reach-Inv start = record { counted = refl; bounded = omega arith; fresh = tt }
  Reach-Inv (next r st) = Step-Inv st (Reach-Inv r)

  -- In every state that any interleaving of `SendOTP` and `Verify` reaches, at most
  -- `mailpit_max_pending` challenges are pending, those about to be stored included; `in_flight`
  -- counts exactly the goroutines between their two locked sections; and every pending challenge
  -- has been tried fewer than `mailpit_max_attempts` times.
  pub reachable_bounds :
      (s : System)
      → Reach s
      → (length s.verifier.pending + s.reserved ≤ mailpit_max_pending)
        × (s.verifier.in_flight ≡ s.reserved + s.stored)
        × Untired s.verifier.pending
  reachable_bounds s r = let v = Reach-Inv r in (v.bounded, v.counted, v.fresh)

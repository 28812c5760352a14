-- ===== src/Mailpit/Purged.antt =====
-- The pending challenges as a map: each key once, and what the purge of `SendOTP` does to one key.
use esignet_relay_authentica.Prelude.{
  ℕ, suc, ◌≤◌, ◌≡◌, refl, ◌⊎◌, inl, inr, Option, none, some, List, [], ◌∷◌, arith, ltb, ◌==◌,
  ==_iff, lookup, insert, erase, lookup-insert, lookup-erase, Bool-cases,
}
use esignet_relay_authentica.Text.{text_eq}
use esignet_relay_authentica.Types.{Time}
use esignet_relay_authentica.Mailpit.Defs.{MailpitKey, key_eq, Challenge, Verifier, reserve, purge}

-- No key is in the map twice.
abbrev pub Unique : List (MailpitKey × Challenge) → Type 0
Unique [] = Unit {0}
Unique ((k, c) ∷ m) = (lookup k m ≡ none) × Unique m

pub insert-Unique :
    (k : MailpitKey) (c : Challenge) (m : List (MailpitKey × Challenge))
    → Unique m
    → Unique (insert k c m)
unfolding insert lookup
insert-Unique k c [] u = (refl, tt)
insert-Unique k c ((j, d) ∷ m) u =
    ground (arith, insert-Unique k c m u.1, lookup-insert k j c m, ==_iff j k, ==_iff k j)

pub erase-Unique :
    (k : MailpitKey) (m : List (MailpitKey × Challenge)) → Unique m → Unique (erase k m)
unfolding erase lookup
erase-Unique k [] u = tt
erase-Unique k ((j, d) ∷ m) u = ground (arith, erase-Unique k m u.1, lookup-erase k j m)

lookup-purge-none :
    (k : MailpitKey) (clock : ℕ → Time) (m : List (MailpitKey × Challenge))
    → lookup k m ≡ none
    → lookup k (purge clock m) ≡ none
unfolding purge lookup
lookup-purge-none k clock [] h = refl
lookup-purge-none k clock ((j, d) ∷ m) h =
    ground (arith, lookup-purge-none k (λ i. clock (suc i)) m)

pub purge-Unique :
    (clock : ℕ → Time) (m : List (MailpitKey × Challenge)) → Unique m → Unique (purge clock m)
unfolding purge
purge-Unique clock [] u = tt
purge-Unique clock ((j, d) ∷ m) u =
    ground (
      arith,
      purge-Unique (λ i. clock (suc i)) m u.1,
      lookup-purge-none j (λ i. clock (suc i)) m u.0,
    )

-- What a purge does to one key: nothing, or an expired challenge is gone.
abbrev pub IsPurged : (ℕ → Time) → Option Challenge → Option Challenge → Type 0
IsPurged clock before after =
    (after ≡ before)
    ⊎ ((after ≡ none) × (c : Challenge) × (before ≡ some c) × (i : ℕ) × (c.expires ≤ clock i))

later_purge :
    (clock : ℕ → Time) (before after : Option Challenge)
    → IsPurged (λ i. clock (suc i)) before after
    → IsPurged clock before after
later_purge clock before after (inl e) = inl e
later_purge clock before after (inr (gone, c, e, i, late)) = inr (gone, c, e, suc i, late)

pub lookup-purge :
    (k : MailpitKey) (clock : ℕ → Time) (m : List (MailpitKey × Challenge))
    → Unique m
    → IsPurged clock (lookup k m) (lookup k (purge clock m))
unfolding purge lookup
lookup-purge k clock [] u = inl refl
lookup-purge k clock ((j, d) ∷ m) u =
    let rest = purge (λ i. clock (suc i)) m in
    elim (Bool-cases (ltb (clock 0) d.expires)) [
      | inl live ↦ rw live (elim (Bool-cases (j == k)) [
        | inl own ↦ rw own (inl refl)
        | inr other ↦ rw other (later_purge clock _ _ (lookup-purge k (λ i. clock (suc i)) m u.1))
      ])
      | inr late ↦ rw late (elim (Bool-cases (j == k)) [
        | inl own ↦
            let is : j ≡ k = (==_iff j k).0 own in
            let gone = lookup-purge-none k (λ i. clock (suc i)) m (rw (← is) u.0) in
            rw own (inr (gone, d, refl, 0, ground (arith, late)))
        | inr other ↦ rw other (later_purge clock _ _ (lookup-purge k (λ i. clock (suc i)) m u.1))
      ])
    ]

pub reserve-pending :
    (clock : ℕ → Time) (v : Verifier) → (reserve clock v).0.pending ≡ purge clock v.pending
unfolding reserve
reserve-pending clock v = ground arith
